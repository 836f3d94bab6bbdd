-- ===== src/Primitives/Value.antt =====
-- crates/primitives/src/column/types.rs: `DataValue`, its equality and its order. The ids of the
-- `uuid` crate and the numbers of `serde_json` are parameters.
use schema_js.Prelude.{ℕ, [], ◌∷◌, Bool, true, false, Option, some, ltb, if◌then◌else◌}
use schema_js.Prelude.Results.{Result, ok, panic}
use Prim.Native.Nat.{Ordering}
use schema_js.Prelude.Order.{text_cmp}
use schema_js.MapShard.Ops.{text_eq}
use schema_js.Primitives.Column.{Text, DataTypes}

pub data DataValue (Uuid Number : Type 0) : Type 0 where
  null : DataValue Uuid Number
  uuid : Uuid → DataValue Uuid Number
  string : Text → DataValue Uuid Number
  boolean : Bool → DataValue Uuid Number
  number : Number → DataValue Uuid Number

-- What the program uses of ids and numbers.
pub record ValueApi (Uuid Number : Type 0) : Type 0 where
  pub uuid_eq : Uuid → Uuid → Bool
  pub uuid_cmp : Uuid → Uuid → Option Ordering
  pub number_eq : Number → Number → Bool
  pub number_cmp : Number → Number → Option Ordering

abbrev pub bool_eq : Bool → Bool → Bool
bool_eq true b = b
bool_eq false true = false
bool_eq false false = true

abbrev pub bool_cmp : Bool → Bool → Ordering
bool_cmp true true = Ordering.eq
bool_cmp true false = Ordering.gt
bool_cmp false true = Ordering.lt
bool_cmp false false = Ordering.eq

module _ {Uuid Number : Type 0} where
  abbrev pub get_type : DataValue Uuid Number → DataTypes
  get_type DataValue.null = DataTypes.null
  get_type (DataValue.uuid _) = DataTypes.uuid
  get_type (DataValue.string _) = DataTypes.string
  get_type (DataValue.boolean _) = DataTypes.boolean
  get_type (DataValue.number _) = DataTypes.number

-- How ids and numbers are printed.
pub record ValueText (Uuid Number : Type 0) : Type 0 where
  pub uuid_text : Uuid → Text
  pub number_text : Number → Text

-- `true` and `false`
abbrev pub bool_text : Bool → Text
bool_text true = 116 ∷ 114 ∷ 117 ∷ 101 ∷ []
bool_text false = 102 ∷ 97 ∷ 108 ∷ 115 ∷ 101 ∷ []

module _ {Uuid Number : Type 0} (print : ValueText Uuid Number) where
  -- `DataValue::to_string`; null is `0`.
  abbrev pub to_string : DataValue Uuid Number → Text
  to_string DataValue.null = 48 ∷ []
  to_string (DataValue.string s) = s
  to_string (DataValue.boolean b) = bool_text b
  to_string (DataValue.number n) = print.number_text n
  to_string (DataValue.uuid val) = print.uuid_text val

module _ {Uuid Number : Type 0} (api : ValueApi Uuid Number) where
  -- `PartialEq`: the other value is unwrapped, except beside an id, which is compared with itself.
  unfoldable pub value_eq :
      {E : Type 0} → DataValue Uuid Number → DataValue Uuid Number → Result E Bool
  value_eq DataValue.null DataValue.null = ok true
  value_eq DataValue.null (DataValue.uuid _) = ok false
  value_eq DataValue.null (DataValue.string _) = ok false
  value_eq DataValue.null (DataValue.boolean _) = ok false
  value_eq DataValue.null (DataValue.number _) = ok false
  value_eq (DataValue.uuid a) other = ok (api.uuid_eq a a)
  value_eq (DataValue.string s) (DataValue.string t) = ok (text_eq s t)
  value_eq (DataValue.string s) _ = panic
  value_eq (DataValue.boolean b) (DataValue.boolean c) = ok (bool_eq b c)
  value_eq (DataValue.boolean b) _ = panic
  value_eq (DataValue.number n) (DataValue.number m) = ok (api.number_eq n m)
  value_eq (DataValue.number n) _ = panic

  -- The order of the kinds: nothing, Booleans, numbers, strings, ids.
  abbrev pub rank : DataValue Uuid Number → ℕ
  rank DataValue.null = 0
  rank (DataValue.boolean _) = 1
  rank (DataValue.number _) = 2
  rank (DataValue.string _) = 3
  rank (DataValue.uuid _) = 4

  abbrev pub by_rank : DataValue Uuid Number → DataValue Uuid Number → Option Ordering
  by_rank a b = some (if ltb (rank a) (rank b) then Ordering.lt else Ordering.gt)

  unfoldable pub partial_cmp : DataValue Uuid Number → DataValue Uuid Number → Option Ordering
  partial_cmp DataValue.null DataValue.null = some Ordering.eq
  partial_cmp (DataValue.boolean a) (DataValue.boolean b) = some (bool_cmp a b)
  partial_cmp (DataValue.number a) (DataValue.number b) = api.number_cmp a b
  partial_cmp (DataValue.string a) (DataValue.string b) = some (text_cmp a b)
  partial_cmp (DataValue.uuid a) (DataValue.uuid b) = api.uuid_cmp a b
  partial_cmp a b = by_rank a b
