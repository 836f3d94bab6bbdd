-- ===== src/Index/Hash/Map.antt =====
-- The hash index is a finite map from keys to rows.
use schema_js.Prelude.{
  ℕ, ◌+◌, ◌*◌, ◌^◌, ◌<◌, ◌≡◌, ◌≢◌, refl, sym, ap, subst, ◌∙◌, List, [], ◌∷◌, map, inl, inr, Option,
  some, none, true, length, All,
}
use schema_js.Prelude.Order.{ordering_cases, text_cmp, text_cmp-IsOrder}
use schema_js.Prelude.Results.{ok, ◌>>=◌}
use schema_js.Prelude.Bytes.{
  IsU64, to_le_bytes, from_le_bytes, length-to_le_bytes, from_le_bytes-to_le_bytes,
}
use schema_js.Uuid.{UuidApi}
use schema_js.KvShard.Ops.{KvShard}
use schema_js.MapShard.Ops.{World}
use schema_js.Index.Types.{
  IndexKeySha256, index_key_sha256, RawIndexValue, raw_index_value, IndexKeyType, from_utf8,
}
use schema_js.Index.Utf8.{is_utf8}
use schema_js.Index.Entry.{get_entry_size}
use schema_js.Index.Hash.{
  HashIndex, hash_index_key_size, hash_index_value_size, row_found, find_index, get, insert,
}
use schema_js.Index.Shard.State.{Fits}
use schema_js.Index.Shard.Lookup.{
  lookup, lookup_all, lookup_skip, or_else, value_of, Slot, Slots, binary_search-lookup,
}
use schema_js.Index.Shard.Order.{with_current}
use schema_js.Index.Shard.Room.{HasRoom}
use schema_js.Index.Shard.Insert.{insert-Slot}
use mathlib.Core.Option
use Prim.Native.Nat.Ordering.{eq}

-- A key as the index makes them: 64 characters of UTF-8.
pub record IsKey (k : IndexKeySha256) : Type 0 where
  pub key_length : length k ≡ hash_index_key_size
  pub utf8 : is_utf8 k ≡ true

abbrev Kvs : Type 0
Kvs = List (IndexKeySha256 × RawIndexValue)

-- Eight bytes for a row.
abbrev IsRow : Option RawIndexValue → Type 0
IsRow none = Unit {0}
IsRow (some v) = length v ≡ 8

abbrev FitsIndex : IndexKeySha256 × RawIndexValue → Type 0
FitsIndex = Fits index_key_sha256 raw_index_value hash_index_key_size hash_index_value_size

lookup-IsRow :
    (kvs : Kvs) (k : IndexKeySha256) → All FitsIndex kvs → IsRow (lookup index_key_sha256 kvs k)
lookup-IsRow [] k h = tt
lookup-IsRow ((c, v) ∷ kvs) k h =
    let rest = lookup-IsRow kvs k h.1 in
    elim (ordering_cases (text_cmp c k)) [
      | inl e ↦ rw (lookup, e) rest
      | inr (inl e) ↦ rw (lookup, e) h.0.value_length
      | inr (inr e) ↦ rw (lookup, e) rest
    ]

or_else-IsRow : (a b : Option RawIndexValue) → IsRow a → IsRow b → IsRow (or_else a b)
or_else-IsRow none b h g = g
or_else-IsRow (some v) b h g = h

-- The row of a key.
abbrev pub row_at : Kvs → List Kvs → IndexKeySha256 → Option ℕ
row_at current past k = Option.map from_le_bytes (lookup_all index_key_sha256 (current ∷ past) k)

decoded :
    (found : Option (ℕ × IndexKeySha256 × RawIndexValue))
    → IsRow (value_of found)
    → row_found found ≡ ok (Option.map from_le_bytes (value_of found))
decoded none h = refl
decoded (some (i, k, v)) h = rw h refl

-- Keys that differ compare as different.
apart :
    (k : IndexKeySha256) (kvs : Kvs) → All (λ q. q.0 ≢ k) kvs → All (λ q. text_cmp k q.0 ≢ eq) kvs
apart k [] h = tt
apart k (q ∷ kvs) h = (λ e. h.0 (sym (text_cmp-IsOrder.same_of_cmp k q.0 e)), apart k kvs h.1)

found_first :
    (k : IndexKeySha256) (v : RawIndexValue) (kvs : Kvs)
    → lookup index_key_sha256 ((k, v) ∷ kvs) k ≡ some v
found_first k v kvs = rw (lookup, text_cmp-IsOrder.cmp_self k) refl

module _ {Uuid : Type 0} ⦃u : UuidApi Uuid⦄ (capacity : ℕ) where
  abbrev HashSlot : KvShard Uuid → Kvs → Type 0
  HashSlot =
      Slot index_key_sha256 raw_index_value hash_index_key_size hash_index_value_size capacity

  abbrev HashSlots : List (KvShard Uuid) → List Kvs → Type 0
  HashSlots =
      Slots index_key_sha256 raw_index_value hash_index_key_size hash_index_value_size capacity

  -- The index stores these keys and values: `current` in the current shard, `past` in the others.
  pub record Stored (h : HashIndex Uuid) (current : Kvs) (past : List Kvs) : Type 0 where
    pub key_size : h.index.key_size ≡ hash_index_key_size
    pub ordered : h.index.binary_order ≡ true
    pub slot : HashSlot h.index.shards.current_master_shard current
    pub slots : HashSlots (map (λ p. p.1) h.index.shards.past_master_shards) past
    pub alone : capacity ≡ 0 → past ≡ []

  slots-IsRow :
      (shards : List (KvShard Uuid)) (past : List Kvs) (k : IndexKeySha256)
      → HashSlots shards past
      → IsRow (lookup_all index_key_sha256 past k)
  slots-IsRow [] [] k h = tt
  slots-IsRow [] (kvs ∷ past) k h = absurd h
  slots-IsRow (s ∷ shards) [] k h = absurd h
  slots-IsRow (s ∷ shards) (kvs ∷ past) k h =
      or_else-IsRow (lookup index_key_sha256 kvs k) (lookup_all index_key_sha256 past k)
        (lookup-IsRow kvs k h.0.stores.fits) (slots-IsRow shards past k h.1)

  -- `get` of a hash index whose shards are each in order, with each key once, and that has no past
  -- shards without a capacity, returns the row of the first entry with the key, in the current
  -- shard or else in the past ones, and nothing when no shard has the key.
  pub get-Stored :
      (h : HashIndex Uuid) (current : Kvs) (past : List Kvs) (k : IndexKeySha256)
      → Stored h current past
      → get h (IndexKeyType.sha256 k) ≡ ok (row_at current past k)
  unfolding find_index
  get-Stored h current past k st =
      let shards = map (λ p. p.1) h.index.shards.past_master_shards in
      let g =
        binary_search-lookup index_key_sha256 raw_index_value hash_index_key_size
          hash_index_value_size capacity text_cmp-IsOrder h.index st.key_size k current past st.slot
          st.slots st.alone in
      let rows : IsRow (lookup_all index_key_sha256 (current ∷ past) k) =
        slots-IsRow (h.index.shards.current_master_shard ∷ shards) (current ∷ past) k
          (st.slot, st.slots) in
      ap (λ r. r >>= row_found) g.returns
      ∙ decoded g.found (subst IsRow (sym g.value_found) rows)
      ∙ ap (λ o. ok (Option.map from_le_bytes o)) g.value_found

  -- After an insertion.
  pub record Added (h h' : HashIndex Uuid) (current : Kvs) (past : List Kvs) (k : IndexKeySha256)
      (n : ℕ) : Type 0 where
    pub after : Kvs
    pub stored : Stored h' after past
    pub found : get h' (IndexKeyType.sha256 k) ≡ ok (some n)
    pub others :
        (t : IndexKeySha256)
        → t ≢ k
        → get h' (IndexKeyType.sha256 t) ≡ get h (IndexKeyType.sha256 t)

  module _ (w : World Uuid) where
    -- A new key that is inserted, with a row of 64 bits, into a hash index whose shards are each in
    -- order with each key once, that has no past shards without a capacity, and whose current shard
    -- has room and no such key, gets the row, while the offsets of the shard and its positions have
    -- 64 bits; every other key gets the answer it got before; the index stores its entries as it
    -- did.
    pub insert-Stored :
        (h : HashIndex Uuid) (current : Kvs) (past : List Kvs) (k : IndexKeySha256) (n : ℕ)
        → Stored h current past
        → IsKey k
        → IsU64 n
        → All (λ q. q.0 ≢ k) current
        → HasRoom capacity (length current)
        → length current + 1 < 2 ^ 63
        → IsU64
            (40 + (length current + 1) * get_entry_size hash_index_key_size hash_index_value_size)
        → IsU64 (length h.index.shards.past_master_shards * capacity + (length current + 1))
        → (h' : HashIndex Uuid) × (insert w h (IndexKeyType.sha256 k) n ≡ ok h')
          × Added h h' current past k n
    unfolding insert from_utf8
    insert-Stored h current past k n st is_key word fresh room small bytes positions =
        let v = to_le_bytes n in
        let fits : FitsIndex (k, v) = record {
          key_length = is_key.key_length;
          value_length = length-to_le_bytes n;
          key_back = rw is_key.utf8 refl;
          value_back = refl;
        } in
        let ins =
          insert-Slot index_key_sha256 raw_index_value text_cmp-IsOrder hash_index_key_size
            hash_index_value_size capacity w h.index current (k, v) st.key_size st.ordered st.slot
            fits (apart k current fresh) room small bytes positions in
        let h' : HashIndex Uuid = record { index = with_current h.index ins.shard } in
        let stored : Stored h' ins.all past = record {
          key_size = st.key_size;
          ordered = st.ordered;
          slot = ins.slot;
          slots = st.slots;
          alone = st.alone;
        } in
        let look : (t : IndexKeySha256) → Option RawIndexValue → Option ℕ =
          λ t o. Option.map from_le_bytes (or_else o (lookup_all index_key_sha256 past t)) in
        (
          h',
          ap (λ r. r >>= λ x. ok (record { index = x })) ins.returns,
          record {
            after = ins.all;
            stored = stored;
            found =
                get-Stored h' ins.all past k stored
                ∙ ap (λ o. ok (look k o)) (ins.finds k ∙ found_first k v current)
                ∙ ap (λ m. ok (some m)) (from_le_bytes-to_le_bytes n word);
            others = λ t other.
                get-Stored h' ins.all past t stored
                ∙ ap (λ o. ok (look t o))
                    (ins.finds t
                      ∙ lookup_skip index_key_sha256 k v current t
                          (λ e. other (sym (text_cmp-IsOrder.same_of_cmp k t e))))
                ∙ sym (get-Stored h current past t st);
          },
        )
