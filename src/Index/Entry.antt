-- ===== src/Index/Entry.antt =====
-- crates/index/src/data/index_shard.rs: `build_entry` and `build_entry_from_vec`, with
-- crates/index/src/utils/mod.rs.
use schema_js.Prelude.{
  some, ℕ, ◌+◌, ◌≡◌, refl, sym, ap, ◌∙◌, [], ◌++◌, length, length-append, append-nil, get_range,
  get_range-append, arith,
}
use schema_js.Prelude.Results.{Result, ok, ◌>>=◌, expect_some, map_err}
use schema_js.Prelude.Bytes.{Bytes, IsU64}
use schema_js.DataShard.Header.{u64_size}
use schema_js.Index.Unit.{
  IndexError, IndexDataUnit, new_unit, unit_header_size, try_from, into_bytes, length-into_bytes,
  try_from-into_bytes,
}

-- The key, the value and the bytes of the entry.
abbrev pub IndexEntry : Type 0
IndexEntry = IndexDataUnit × IndexDataUnit × Bytes

abbrev pub get_entry_size : ℕ → ℕ → ℕ
get_entry_size key_size value_size =
    unit_header_size + ((unit_header_size + key_size) + (unit_header_size + value_size))

unfoldable pub build_entry : Bytes → Bytes → IndexDataUnit
build_entry key value = new_unit (into_bytes (new_unit key) ++ into_bytes (new_unit value))

-- `None`, which the operator `?` returns early.
pub data NoEntry : Type 0 where
  no_entry : NoEntry

abbrev pub or_none : {A : Type 0} → Result IndexError A → Result NoEntry A
or_none r = map_err (λ e. no_entry) r

-- The slices of the source panic past the end.
unfoldable pub build_entry_from_vec : ℕ → Bytes → Result NoEntry IndexEntry
build_entry_from_vec key_size el = do
  unit ← or_none (try_from el)
  key_bytes ← expect_some (get_range unit.payload 0 (u64_size + key_size))
  key ← or_none (try_from key_bytes)
  value_bytes ← expect_some (get_range unit.payload (u64_size + key_size) (length unit.payload))
  value ← or_none (try_from value_bytes)
  ok (key, value, el)

-- An entry has the size that the shard of the index is configured with.
pub length-build_entry :
    (key value : Bytes)
    → length (into_bytes (build_entry key value)) ≡ get_entry_size (length key) (length value)
unfolding build_entry
length-build_entry key value = omega (
  arith,
  length-into_bytes (into_bytes (new_unit key) ++ into_bytes (new_unit value)),
  length-append (into_bytes (new_unit key)) (into_bytes (new_unit value)),
  length-into_bytes key,
  length-into_bytes value,
)

-- A key of the index's key size and a value are read back from the bytes of their entry.
pub build_entry_from_vec-build_entry :
    (key_size : ℕ) (key value : Bytes)
    → length key ≡ key_size
    → IsU64 (get_entry_size key_size (length value))
    → build_entry_from_vec key_size (into_bytes (build_entry key value))
      ≡ ok (new_unit key, new_unit value, into_bytes (build_entry key value))
unfolding build_entry_from_vec build_entry
build_entry_from_vec-build_entry key_size key value here fits =
    let k = into_bytes (new_unit key) in
    let v = into_bytes (new_unit value) in
    let lk = length-into_bytes key in
    let lv = length-into_bytes value in
    let lb = length-append k v in
    let unit : try_from (into_bytes (new_unit (k ++ v))) ≡ ok (new_unit (k ++ v)) =
      ap try_from (sym (append-nil (into_bytes (new_unit (k ++ v)))))
      ∙ try_from-into_bytes (k ++ v) [] (omega arith) in
    let key_back : try_from k ≡ ok (new_unit key) =
      ap try_from (sym (append-nil k)) ∙ try_from-into_bytes key [] (omega arith) in
    let value_back : try_from v ≡ ok (new_unit value) =
      ap try_from (sym (append-nil v)) ∙ try_from-into_bytes value [] (omega arith) in
    let first : get_range (k ++ v) 0 (8 + key_size) ≡ some k =
      get_range-append [] k v 0 (8 + key_size) refl (omega arith) in
    let second : get_range (k ++ v) (8 + key_size) (length (k ++ v)) ≡ some v =
      ap (λ l. get_range (k ++ l) (8 + key_size) (length (k ++ v))) (sym (append-nil v))
      ∙ get_range-append k v [] (8 + key_size) (length (k ++ v)) (omega arith) (omega arith) in
    rw (unit, first, key_back, second, value_back) refl
