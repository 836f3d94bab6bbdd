-- ===== src/Storage/Handler.antt =====
-- crates/data/src/data_handler.rs: `DataHandler`, a file with a shared memory map of it.
mod Defs
mod Laws
pub use Defs.{FileName, DataHandler, mapped, remap, settle}
unfoldable pub use Defs.{new_from_path, len, get_bytes, read_pointer, operate}
pub use Laws.*
