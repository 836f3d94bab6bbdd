-- ===== src/Query/Errors.antt =====
-- crates/query/src/errors.rs
use schema_js.Shard.Errors.{ShardErrors}
use schema_js.Primitives.Column.{Text}

pub data QueryError : Type 0 where
  invalid_table : Text → QueryError
  unknown_primary_column : Text → QueryError
  value_not_present : Text → QueryError
  invalid_serialization : QueryError
  unknown_uid : QueryError
  invalid_insertion : QueryError
  shard_error : ShardErrors → QueryError
