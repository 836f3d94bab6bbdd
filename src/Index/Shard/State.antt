-- ===== src/Index/Shard/State.antt =====
-- A key-value shard that stores the entries of keys and values: reading one of them.
use schema_js.Prelude.{
  ℕ, zero, suc, ◌≡◌, refl, ap, subst, List, [], ◌∷◌, map, some, All, false, length, get_elem?,
}
use schema_js.Prelude.Results.{ok, unwrap_or}
use schema_js.Uuid.{UuidApi}
use schema_js.KvShard.Ops.{KvShard, read_item_from_index}
use schema_js.KvShard.Layout.{Entries}
use schema_js.KvShard.Read.{read_item_from_index-Entries}
use schema_js.MapShard.Ops.{get_element_from_master}
use schema_js.Index.Unit.{new_unit}
use schema_js.Index.Entry.{get_entry_size, build_entry_from_vec, build_entry_from_vec-build_entry}
use schema_js.Index.Types.{IndexKey, IndexValue}
use schema_js.Index.Shard.{IndexShard, entry_bytes, get_entry, get_kv, kv_at}

pub get_elem?-map {ℓ κ} :
    {A : Type ℓ} {B : Type κ} (f : A → B) (xs : List A) (i : ℕ) {x : A}
    → get_elem? xs i ≡ some x
    → get_elem? (map f xs) i ≡ some (f x)
get_elem?-map f [] i h = cc
get_elem?-map f (y ∷ ys) zero h = cc
get_elem?-map f (y ∷ ys) (suc i) h = get_elem?-map f ys i h

pub All-get_elem? {ℓ κ} :
    {A : Type ℓ} (P : A → Type κ) (xs : List A) (i : ℕ) {x : A}
    → All P xs
    → get_elem? xs i ≡ some x
    → P x
All-get_elem? P [] i h e = absurd (cc)
All-get_elem? P (y ∷ ys) zero h e = subst P (ap (λ o. unwrap_or o y) e) h.0
All-get_elem? P (y ∷ ys) (suc i) h e = All-get_elem? P ys i h.1 e

module _ {K V : Type 0} (key : IndexKey K) (value : IndexValue V) (key_size value_size : ℕ) where
  -- A key and a value of the sizes of the index, which are read back from their bytes.
  pub record Fits (kv : K × V) : Type 0 where
    pub key_length : length (key.into_vec kv.0) ≡ key_size
    pub value_length : length (value.into_vec kv.1) ≡ value_size
    pub key_back : key.from_unit (new_unit (key.into_vec kv.0)) ≡ ok kv.0
    pub value_back : value.from_unit (new_unit (value.into_vec kv.1)) ≡ ok kv.1

  module _ {Uuid : Type 0} ⦃u : UuidApi Uuid⦄ where
    -- The shard stores the entries of the keys and values, in this order.
    pub record Indexed (capacity : ℕ) (id : Uuid) (s : KvShard Uuid) (kvs : List (K × V))
        : Type 0 where
      pub stored :
          Entries capacity
            (get_entry_size key_size value_size)
            id
            s
            (map (entry_bytes key value) kvs)
      pub fits : All Fits kvs

    module _ {capacity : ℕ} {id : Uuid} {s : KvShard Uuid} (kvs : List (K × V))
        (x : IndexShard Uuid) (same : x.key_size ≡ key_size) (st : Indexed capacity id s kvs)
        (i : ℕ) {kv : K × V} (at : get_elem? kvs i ≡ some kv) where
      read_entry : read_item_from_index s i ≡ ok (entry_bytes key value kv)
      read_entry =
          read_item_from_index-Entries (map (entry_bytes key value) kvs) i
            (entry_bytes key value kv) st.stored (get_elem?-map (entry_bytes key value) kvs i at)

      here : Fits kv
      here = All-get_elem? Fits kvs i st.fits at

      units :
          build_entry_from_vec x.key_size (entry_bytes key value kv)
          ≡ ok (
            new_unit (key.into_vec kv.0),
            new_unit (value.into_vec kv.1),
            entry_bytes key value kv,
          )
      units = rw same (
          build_entry_from_vec-build_entry key_size (key.into_vec kv.0) (value.into_vec kv.1)
            here.key_length (rw here.value_length st.stored.size_fits))

      -- The search's access to an entry.
      pub kv_at-Indexed : kv_at key value x s i ≡ ok (kv.0, kv.1, entry_bytes key value kv)
      unfolding kv_at
      kv_at-Indexed = rw (read_entry, units, here.key_back, here.value_back) refl

      -- The same through the current shard of the map shard.
      pub get_kv-Indexed :
          x.shards.current_master_shard ≡ s
          → get_kv key value x i false ≡ ok (kv.0, kv.1, entry_bytes key value kv)
      unfolding get_kv get_entry get_element_from_master
      get_kv-Indexed current = rw (current, read_entry, units, here.key_back, here.value_back) refl
