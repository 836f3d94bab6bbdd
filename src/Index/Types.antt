-- ===== src/Index/Types.antt =====
-- crates/index/src/types.rs, keys/string_index.rs, keys/index_key_sha256.rs, vals/raw_value.rs: what
-- keys and values of an index can do, and the kinds that there are.
use schema_js.Prelude.{if◌then◌else◌}
use schema_js.Prelude.Results.{Result, ok, panic}
use schema_js.Prelude.Bytes.{Bytes}
use schema_js.Prelude.Order.{text_cmp}
use schema_js.Index.Unit.{IndexDataUnit}
use schema_js.Index.Entry.{NoEntry}
use schema_js.Index.Keys.{sha256_to_string}
use schema_js.Index.Utf8.{is_utf8}
use Prim.Native.Nat.{Ordering}

-- The trait `IndexKey`; a conversion that unwraps an error panics.
pub record IndexKey (K : Type 0) : Type 0 where
  pub from_vec : Bytes → Result NoEntry K
  pub into_vec : K → Bytes
  pub into_string : K → Bytes
  pub cmp : K → K → Ordering
  pub from_unit : IndexDataUnit → Result NoEntry K

-- The trait `IndexValue`.
pub record IndexValue (V : Type 0) : Type 0 where
  pub from_vec : Bytes → Result NoEntry V
  pub into_vec : V → Bytes
  pub from_unit : IndexDataUnit → Result NoEntry V

-- `String::from_utf8(..).unwrap()`; a string is its bytes.
unfoldable pub from_utf8 : Bytes → Result NoEntry Bytes
from_utf8 bytes = if is_utf8 bytes then ok bytes else panic

-- `StringIndexKey`, which is its string.
abbrev pub StringIndexKey : Type 0
StringIndexKey = Bytes

abbrev pub string_index_key : IndexKey StringIndexKey
string_index_key = record {
  from_vec = from_utf8;
  into_vec = λ key. key;
  into_string = λ key. key;
  cmp = text_cmp;
  from_unit = λ unit. from_utf8 unit.payload;
}

-- `IndexKeySha256`, which is its `hash`, a string; bytes are printed, not read.
abbrev pub IndexKeySha256 : Type 0
IndexKeySha256 = Bytes

abbrev pub index_key_sha256 : IndexKey IndexKeySha256
index_key_sha256 = record {
  from_vec = λ value. ok (sha256_to_string value);
  into_vec = λ key. key;
  into_string = λ key. key;
  cmp = text_cmp;
  from_unit = λ unit. from_utf8 unit.payload;
}

-- `RawIndexValue`, which is its bytes.
abbrev pub RawIndexValue : Type 0
RawIndexValue = Bytes

abbrev pub raw_index_value : IndexValue RawIndexValue
raw_index_value = record {
  from_vec = λ value. ok value;
  into_vec = λ value. value;
  from_unit = λ unit. ok unit.payload;
}

-- `IndexKeyType`
pub data IndexKeyType : Type 0 where
  sha256 : IndexKeySha256 → IndexKeyType
  string : StringIndexKey → IndexKeyType

-- `into_sha256().unwrap()`
abbrev pub into_sha256 : IndexKeyType → Result NoEntry IndexKeySha256
into_sha256 (IndexKeyType.sha256 key) = ok key
into_sha256 (IndexKeyType.string key) = panic
