-- ===== src/Storage.antt =====
-- crates/data/src/data_handler.rs: one file, held open in append mode and mapped into memory.
pub mod File
pub mod Handler
