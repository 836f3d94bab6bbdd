-- ===== src/Shard/Errors.antt =====
-- crates/data/src/errors.rs and the enum of crates/data/src/shard/mod.rs.
use schema_js.Prelude.{ℕ}

pub data ShardErrors : Type 0 where
  out_of_positions unknown_offset flushing_error error_reading_byte_range : ShardErrors
  error_adding_header_offset unknown_entry error_adding_entry : ShardErrors
  unknown_breaking_point out_of_range unknown_shard invalid_locking : ShardErrors

pub data AvailableSpace : Type 0 where
  fixed : ℕ → AvailableSpace
  unlimited : AvailableSpace
