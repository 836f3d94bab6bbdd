-- ===== src/Storage/File.antt =====
-- The operating system's file, as crates/data/src opens it: `OpenOptions::append(true)`.
-- Calls on it always succeed: disk errors are not modelled.
use schema_js.Prelude.{ℕ, ◌++◌, length, overwrite}
use schema_js.Prelude.Bytes.{Bytes}

-- A positioned write (`write_at`, pwrite) to a file in append mode goes to its offset as POSIX
-- says; on Linux it goes to the end of the file, whatever the offset (pwrite(2), BUGS; the
-- standard library documents it on `FileExt::write_at`).
pub data Platform : Type 0 where
  posix linux : Platform

pub record File : Type 0 where
  pub platform : Platform
  pub bytes : Bytes

-- `file.metadata().len()`, and `file.seek(SeekFrom::End(0))`.
abbrev pub file_len : File → ℕ
file_len f = length f.bytes

-- `file.write_all`: in append mode the cursor does not matter.
unfoldable pub write_all : File → Bytes → File
write_all f bs = record f { bytes = f.bytes ++ bs }

abbrev pub write_at_on : Platform → Bytes → ℕ → Bytes → Bytes
write_at_on Platform.posix old at new = overwrite 0 old at new
write_at_on Platform.linux old at new = old ++ new

-- `file.write_at(new, at)`
unfoldable pub write_at : File → Bytes → ℕ → File
write_at f new at = record f { bytes = write_at_on f.platform f.bytes at new }
