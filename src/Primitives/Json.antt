-- ===== src/Primitives/Json.antt =====
-- crates/primitives/src/column/types.rs: values from JSON. The JSON values of `serde_json` are a
-- parameter.
use schema_js.Prelude.{◌≡◌, ap, sym, Bool, true, Option, none, some}
use schema_js.Prelude.Results.{Result, ok, err, panic, ◌>>=◌, expect_some}
use schema_js.Uuid.{UuidApi}
use schema_js.Primitives.Column.{Text, DataTypes, Column}
use schema_js.Primitives.Value.{DataValue, get_type}

-- What the program uses of JSON values: `as_str`, `as_bool` and `as_number` give what a value of the
-- kind holds; `get` gives a member of an object; `insert_member` puts one into an object and leaves
-- another value as it is.
pub record JsonApi (J Number : Type 0) : Type 0 where
  pub string : Text → J
  pub as_str : J → Option Text
  pub as_bool : J → Option Bool
  pub as_number : J → Option Number
  pub is_object : J → Bool
  pub get : J → Text → Option J
  pub insert_member : Text → J → J → J

-- What `serde_json` documents of them.
pub record JsonLaws {J Number : Type 0} (json : JsonApi J Number) : Type 0 where
  pub as_str-string : (t : Text) → json.as_str (json.string t) ≡ some t
  pub get-insert_member :
      (key : Text) (v object : J)
      → json.is_object object ≡ true
      → json.get (json.insert_member key v object) key ≡ some v

module _ {J Uuid Number : Type 0} ⦃u : UuidApi Uuid⦄ (json : JsonApi J Number) where
  -- `From<(&Column, &Value)>`, by the data type of the column.
  abbrev pub value_of_type : {E : Type 0} → DataTypes → J → Result E (DataValue Uuid Number)
  value_of_type DataTypes.null v = ok DataValue.null
  value_of_type DataTypes.uuid v = do
    str_val ← expect_some (json.as_str v)
    x ← expect_some (u.parse_str str_val)
    ok (DataValue.uuid x)
  value_of_type DataTypes.string v = do s ← expect_some (json.as_str v); ok (DataValue.string s)
  value_of_type DataTypes.boolean v = do b ← expect_some (json.as_bool v); ok (DataValue.boolean b)
  value_of_type DataTypes.number v = do n ← expect_some (json.as_number v); ok (DataValue.number n)

  unfoldable pub from_column_value : {E : Type 0} → Column → J → Result E (DataValue Uuid Number)
  from_column_value column v = value_of_type column.data_type v

-- The type of what a computation returns.
abbrev type_in : {E Uuid Number : Type 0} → DataTypes → Result E (DataValue Uuid Number) → DataTypes
type_in other (ok v) = get_type v
type_in other (err e) = other
type_in other panic = other

-- A value that is made from what an option holds has the type of its constructor.
made :
    {A E Uuid Number : Type 0} (o : Option A) (next : A → Result E (DataValue Uuid Number))
    (type : DataTypes) (value : DataValue Uuid Number)
    → ((a : A) → next a ≡ ok value → get_type value ≡ type)
    → (expect_some o >>= next) ≡ ok value
    → get_type value ≡ type
made none next type value typed h = absurd (cc)
made (some a) next type value typed h = typed a h

module _ {J E Uuid Number : Type 0} ⦃u : UuidApi Uuid⦄ (json : JsonApi J Number) where
  value_of_type-type :
      (type : DataTypes) (v : J) (value : DataValue Uuid Number)
      → value_of_type json {E = E} type v ≡ ok value
      → get_type value ≡ type
  value_of_type-type DataTypes.null v value h = sym (ap (type_in DataTypes.null) h)
  value_of_type-type DataTypes.uuid v value h =
      made (json.as_str v) _ DataTypes.uuid value
        (λ s.
          made (u.parse_str s) _ DataTypes.uuid value (λ x e. sym (ap (type_in DataTypes.uuid) e)))
        h
  value_of_type-type DataTypes.string v value h =
      made (json.as_str v) _ DataTypes.string value (λ s e. sym (ap (type_in DataTypes.string) e)) h
  value_of_type-type DataTypes.boolean v value h =
      made (json.as_bool v) _ DataTypes.boolean value
        (λ b e. sym (ap (type_in DataTypes.boolean) e)) h
  value_of_type-type DataTypes.number v value h =
      made (json.as_number v) _ DataTypes.number value
        (λ n e. sym (ap (type_in DataTypes.number) e)) h

  pub from_column_value-type :
      (column : Column) (v : J) (value : DataValue Uuid Number)
      → from_column_value json {E = E} column v ≡ ok value
      → get_type value ≡ column.data_type
  unfolding from_column_value
  from_column_value-type column v value h = value_of_type-type column.data_type v value h
