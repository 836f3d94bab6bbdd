-- ===== src/Index/Hash.antt =====
-- crates/index/src/implementations/hash/hash_index.rs and index_type.rs: the index on hashed keys,
-- and the trait `Index` that it implements.
pub mod Map
pub mod Start
use schema_js.Prelude.{
  ℕ, ◌+◌, List, [], ◌∷◌, map, true, Option, none, some, length, ◌==◌, if◌then◌else◌,
}
use schema_js.Prelude.Results.{Result, ok, panic, ◌>>=◌, unwrap_or}
use schema_js.Prelude.Bytes.{Bytes, to_le_bytes, from_le_bytes}
use schema_js.Storage.Handler.{FileName}
use schema_js.Uuid.{UuidApi}
use schema_js.MapShard.Ops.{World}
use schema_js.Index.Entry.{NoEntry}
use schema_js.Index.Keys.{CompositeKey, key_from_composite}
use schema_js.Index.Types.{
  IndexKeySha256, index_key_sha256, RawIndexValue, raw_index_value, IndexKeyType, into_sha256,
}
use schema_js.Index.Shard.{IndexShard, new_index_shard, raw_insert, binary_search}

pub record HashIndex (Uuid : Type 0) : Type 0 where
  pub index : IndexShard Uuid

-- The trait `Index`. What changes the index returns it; an error that is unwrapped panics.
pub record IndexOps (I : Type 0) : Type 0 where
  pub to_key : I → CompositeKey → IndexKeyType
  pub bulk_insert : I → List (IndexKeyType × ℕ) → Result NoEntry I
  pub insert : I → IndexKeyType → ℕ → Result NoEntry I
  pub get : I → IndexKeyType → Result NoEntry (Option ℕ)
  pub remove : I → IndexKeyType → Result NoEntry (I × Option ℕ)
  pub supported_search_operators : I → List Bytes

abbrev pub hash_index_key_size : ℕ
hash_index_key_size = 64

abbrev pub hash_index_value_size : ℕ
hash_index_value_size = 8

-- `hashindx`
abbrev pub default_index_name : List ℕ
default_index_name = 104 ∷ 97 ∷ 115 ∷ 104 ∷ 105 ∷ 110 ∷ 100 ∷ 120 ∷ []

-- `u64::from_le_bytes(val.try_into().unwrap())`
abbrev pub row_of : RawIndexValue → Result NoEntry ℕ
row_of value = if length value == 8 then ok (from_le_bytes value) else panic

-- The keys of a bulk insertion, unwrapped in turn.
unfoldable pub hashed_rows :
    List (IndexKeyType × ℕ) → Result NoEntry (List (IndexKeySha256 × RawIndexValue))
hashed_rows [] = ok []
hashed_rows ((key, row) ∷ rows) = do
  k ← into_sha256 key
  rest ← hashed_rows rows
  ok ((k, to_le_bytes row) ∷ rest)

abbrev pub row_found : Option (ℕ × IndexKeySha256 × RawIndexValue) → Result NoEntry (Option ℕ)
row_found none = ok none
row_found (some (i, k, v)) = row_of v >>= λ row. ok (some row)

module _ {Uuid : Type 0} ⦃u : UuidApi Uuid⦄ where
  unfoldable pub find_index : HashIndex Uuid → IndexKeySha256 → Result NoEntry (Option ℕ)
  find_index h find = (binary_search index_key_sha256 raw_index_value h.index find >>= row_found)

  abbrev pub get : HashIndex Uuid → IndexKeyType → Result NoEntry (Option ℕ)
  get h key = into_sha256 key >>= find_index h

  module _ (w : World Uuid) where
    -- `HashIndex::new_from_path`, on the names in the folder and with the id that is drawn.
    unfoldable pub new_from_path :
        List FileName → Option (List ℕ) → Option ℕ → Uuid → Result NoEntry (HashIndex Uuid)
    new_from_path names index_name capacity id =
        (new_index_shard w names (unwrap_or index_name default_index_name) hash_index_key_size
            hash_index_value_size capacity (some true) id
          >>= λ x. ok (record { index = x }))

    unfoldable pub bulk_insert :
        HashIndex Uuid → List (IndexKeyType × ℕ) → Result NoEntry (HashIndex Uuid)
    bulk_insert h rows = do
      data_rows ← hashed_rows rows
      x ← raw_insert index_key_sha256 raw_index_value w h.index data_rows
      ok (record { index = x })

    unfoldable pub insert : HashIndex Uuid → IndexKeyType → ℕ → Result NoEntry (HashIndex Uuid)
    insert h key row_position = do
      k ← into_sha256 key
      x ← raw_insert index_key_sha256 raw_index_value w h.index ((k, to_le_bytes row_position) ∷ [])
      ok (record { index = x })

    -- The implementation of `Index`, on the SHA-256 digest; `remove` is a `todo!`.
    abbrev pub hash_ops : (Bytes → Bytes) → IndexOps (HashIndex Uuid)
    hash_ops digest = record {
      to_key = λ h key. IndexKeyType.sha256 (key_from_composite digest key);
      bulk_insert = bulk_insert;
      insert = insert;
      get = get;
      remove = λ h key. panic;
      supported_search_operators = λ h. (61 ∷ []) ∷ [];
    }
