-- ===== src/Query/RowJson.antt =====
-- crates/query/src/row_json.rs: rows as JSON. Printing and parsing them is a part of `serde_json`.
use schema_js.Prelude.{◌≡◌, [], ◌∷◌, Option, none, some}
use schema_js.Prelude.Results.{Result, ok, err, panic, ◌>>=◌, unwrap}
use schema_js.Prelude.Bytes.{Bytes}
use schema_js.Uuid.{UuidApi}
use schema_js.Primitives.Column.{Text, Column}
use schema_js.Primitives.Json.{JsonApi, from_column_value, from_column_value-type}
use schema_js.Primitives.Value.{DataValue, get_type}
use schema_js.Query.Errors.{QueryError}
use schema_js.Query.Row.{Row, RowSerializationError}

-- The field `table` of the source is `table_name`, and `value` is `row_data` in `RowData`.
pub record RowData (J : Type 0) : Type 0 where
  pub table_name : Text
  pub row_data : J

pub record RowJson (J : Type 0) : Type 0 where
  pub value : RowData J

-- `serde_json::to_vec` and `from_slice` on `RowData`; which error they give does not matter.
pub record Serde (J : Type 0) : Type 0 where
  pub to_vec : RowData J → Option Bytes
  pub from_slice : Bytes → Option (RowData J)

-- `Error serializing row` and `Error Deserializing row`
abbrev serializing_text : Text
serializing_text =
    69 ∷ 114 ∷ 114 ∷ 111 ∷ 114 ∷ 32 ∷ 115 ∷ 101 ∷ 114 ∷ 105 ∷ 97 ∷ 108 ∷ 105 ∷ 122 ∷ 105 ∷ 110 ∷ 103
    ∷ 32 ∷ 114 ∷ 111 ∷ 119 ∷ []

abbrev deserializing_text : Text
deserializing_text =
    69 ∷ 114 ∷ 114 ∷ 111 ∷ 114 ∷ 32 ∷ 68 ∷ 101 ∷ 115 ∷ 101 ∷ 114 ∷ 105 ∷ 97 ∷ 108 ∷ 105 ∷ 122 ∷ 105
    ∷ 110 ∷ 103 ∷ 32 ∷ 114 ∷ 111 ∷ 119 ∷ []

module _ {J : Type 0} (serde : Serde J) where
  -- `_serialize` and `_deserialize`
  abbrev pub serialize_data : RowData J → Result RowSerializationError Bytes
  serialize_data value = elim (serde.to_vec value) [
    | none ↦ err (RowSerializationError.serialization_error serializing_text)
    | some bytes ↦ ok bytes
  ]

  abbrev pub deserialize_data : Bytes → Result RowSerializationError (RowJson J)
  deserialize_data bytes = elim (serde.from_slice bytes) [
    | none ↦ err (RowSerializationError.deserialization_error deserializing_text)
    | some value ↦ ok (record { value = value })
  ]

module _ {J Uuid Number : Type 0} ⦃u : UuidApi Uuid⦄ (json : JsonApi J Number) where
  unfoldable pub get_value : RowJson J → Column → Result QueryError (Option (DataValue Uuid Number))
  get_value row column = elim (json.get row.value.row_data column.name) [
    | none ↦ ok none
    | some val ↦ (from_column_value json column val >>= λ v. ok (some v))
  ]

  -- `RowJson` as a `Row`; `validate` is a `todo!`.
  abbrev pub json_rows : Serde J → Row (RowJson J) Uuid Number
  json_rows serde = record {
    get_value = get_value;
    get_table_name = λ row. row.value.table_name;
    validate = λ row. panic;
    serialize = λ row. serialize_data serde row.value;
    deserialize = λ row bytes. deserialize_data serde bytes;
    from_bytes = λ bytes. unwrap (deserialize_data serde bytes);
  }

-- A value that is there, out of what was made of it.
there :
    {V : Type 0} (r : Result QueryError V) (v : V)
    → (r >>= λ a. ok (some a)) ≡ ok (some v)
    → r ≡ ok v
there (ok a) v h = cc
there (err e) v h = absurd (cc)
there panic v h = absurd (cc)

module _ {J Uuid Number : Type 0} ⦃u : UuidApi Uuid⦄ (json : JsonApi J Number) where
  -- Whatever value a row gives for a column, it has the data type of the column.
  pub get_value-type :
      (row : RowJson J) (column : Column) (v : DataValue Uuid Number)
      → get_value json row column ≡ ok (some v)
      → get_type v ≡ column.data_type
  unfolding get_value
  get_value-type row column v h = by_cases (json.get row.value.row_data column.name) h
    where
      found : Option J → Result QueryError (Option (DataValue Uuid Number))
      found o = elim o [
        | none ↦ ok none
        | some val ↦ (from_column_value json column val >>= λ a. ok (some a))
      ]

      by_cases : (o : Option J) → found o ≡ ok (some v) → get_type v ≡ column.data_type
      by_cases none e = absurd (cc)
      by_cases (some val) e =
          from_column_value-type json column val v (there (from_column_value json column val) v e)
