-- ===== src/Query/Row.antt =====
-- crates/query/src/row.rs with serializer/mod.rs: the trait `Row`. Reading and writing a row as bytes
-- is left to its implementation, which uses third-party crates.
use schema_js.Prelude.{Bool, Option}
use schema_js.Prelude.Results.{Result}
use schema_js.Prelude.Bytes.{Bytes}
use schema_js.Primitives.Column.{Text, Column}
use schema_js.Primitives.Value.{DataValue}
use schema_js.Query.Errors.{QueryError}

pub data RowSerializationError : Type 0 where
  serialization_error : Text → RowSerializationError
  deserialization_error : Text → RowSerializationError

-- `from_bytes` is `From<&[u8]>`; it, `get_value` and `validate` may panic.
pub record Row (T Uuid Number : Type 0) : Type 0 where
  pub get_value : T → Column → Result QueryError (Option (DataValue Uuid Number))
  pub get_table_name : T → Text
  pub validate : T → Result QueryError Bool
  pub serialize : T → Result RowSerializationError Bytes
  pub deserialize : T → Bytes → Result RowSerializationError T
  pub from_bytes : Bytes → Result QueryError T
