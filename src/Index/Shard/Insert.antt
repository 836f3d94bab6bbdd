-- ===== src/Index/Shard/Insert.antt =====
-- `insert` into a current shard that has room: the entry is appended and then sinks to its place.
use schema_js.Prelude.{
  ℕ, suc, ◌+◌, ◌*◌, ◌^◌, ◌<◌, ◌≡◌, ◌≢◌, refl, sym, ap, ap₂, subst, ◌∙◌, List, [], ◌∷◌, ◌++◌,
  append-nil, map, true, length, length-map, length-append, All, lt→ltb, arith,
}
use schema_js.Prelude.Order.{IsOrder}
use schema_js.Prelude.Int.{pos, as_i64}
use schema_js.Prelude.Results.{ok, unwrap, ◌>>=◌}
use schema_js.Prelude.Bytes.{IsU64}
use schema_js.Uuid.{UuidApi}
use schema_js.KvShard.Ops.{KvShard, last_of, get_last_index, insert_item}
use schema_js.KvShard.Layout.{Entries, All-front, All-append}
use schema_js.KvShard.Insert.{insert_item-Entries}
use schema_js.MapShard.Ops.{World}
use schema_js.Index.Entry.{get_entry_size, length-build_entry}
use schema_js.Index.Types.{IndexKey, IndexValue}
use schema_js.Index.Shard.{
  IndexShard, entry_bytes, order_last, order_from, keep_binary_order, raw_insert, order_if, insert,
}
use schema_js.Index.Shard.State.{Fits, Indexed}
use schema_js.Index.Shard.Order.{Ordered, with_current, order_from-Sunk}
use schema_js.Index.Shard.Lookup.{lookup, IsDistinct, Slot}
use schema_js.Index.Shard.Between.{lookup_between, between-IsDistinct}
use schema_js.Index.Shard.Sorted.{Sunk-IsSorted}
use mathlib.Core.List.{map-append}
use Prim.Native.Nat.Ordering.{eq}
use schema_js.Index.Shard.Room.{HasRoom, insert_one}

module _ {Uuid K V : Type 0} ⦃u : UuidApi Uuid⦄ (key : IndexKey K) (value : IndexValue V)
    (order : IsOrder key.cmp) (key_size value_size capacity : ℕ) (w : World Uuid) where
  -- What an insertion leaves.
  pub record Inserted (x : IndexShard Uuid) (kvs : List (K × V)) (b : K × V) : Type 0 where
    pub shard : KvShard Uuid
    pub all : List (K × V)
    pub returns : insert key value w x b.0 b.1 ≡ ok (with_current x shard)
    pub slot : Slot key value key_size value_size capacity shard all
    pub finds : (target : K) → lookup key all target ≡ lookup key (b ∷ kvs) target

  entry_length :
      (b : K × V)
      → Fits key value key_size value_size b
      → length (entry_bytes key value b) ≡ get_entry_size key_size value_size
  entry_length b fits =
      length-build_entry (key.into_vec b.0) (value.into_vec b.1)
      ∙ ap₂ get_entry_size fits.key_length fits.value_length

  -- The last entry of the current shard goes to its place.
  keep_last :
      (x : IndexShard Uuid) (id : Uuid) (kvs : List (K × V)) (b : K × V)
      → x.key_size ≡ key_size
      → length kvs < 2 ^ 63
      → Indexed key value key_size value_size capacity id x.shards.current_master_shard
          (kvs ++ (b ∷ []))
      → Ordered key value key_size value_size capacity id x kvs b [] (keep_binary_order key value x)
  unfolding keep_binary_order get_last_index
  keep_last x id kvs b same small st =
      let f = entry_bytes key value in
      let count : x.shards.current_master_shard.header.items_len ≡ suc (length kvs) =
        omega
          (arith, st.stored.count, length-map f (kvs ++ (b ∷ [])), length-append kvs (b ∷ [])) in
      let last : as_i64 (length kvs) ≡ pos (length kvs) =
        rw (lt→ltb (length kvs) (2 ^ 63) small) refl in
      let whole : keep_binary_order key value x ≡ order_from key value (length kvs) x =
        ap (λ n. order_last key value (last_of n) x) count
        ∙ ap (λ i. order_last key value i x) last in
      subst (Ordered key value key_size value_size capacity id x kvs b []) (sym whole) (
        order_from-Sunk key value key_size value_size capacity id (length kvs) x kvs b [] same st
          refl)

  module _ (x : IndexShard Uuid) (id : Uuid) (kvs : List (K × V)) (b : K × V) (s1 : KvShard Uuid)
      (slot : Slot key value key_size value_size capacity x.shards.current_master_shard kvs)
      (fresh : All (λ q. key.cmp b.0 q.0 ≢ eq) kvs) (small : length kvs + 1 < 2 ^ 63) where
    Ordered-Inserted :
        insert key value w x b.0 b.1 ≡ keep_binary_order key value (with_current x s1)
        → Ordered key value key_size value_size capacity id
            (with_current x s1)
            kvs
            b
            []
            (keep_binary_order key value (with_current x s1))
        → Inserted x kvs b
    Ordered-Inserted whole o =
        let k = o.sunk in
        let form : o.all ≡ k.lo ++ (b ∷ k.hi) =
          k.whole ∙ ap (λ l. k.lo ++ (b ∷ l)) (append-nil k.hi) in
        let fresh' = subst (All (λ q. key.cmp b.0 q.0 ≢ eq)) k.parts fresh in
        record {
          shard = o.shard;
          all = o.all;
          returns = whole ∙ o.returns;
          slot = record {
            id = id;
            stores = o.stores;
            sorted = Sunk-IsSorted key order kvs b o.all slot.sorted k;
            distinct = subst (IsDistinct key) (sym form) (
                between-IsDistinct key order k.lo b k.hi
                  (subst (IsDistinct key) k.parts slot.distinct) fresh');
            small = omega (
              arith,
              small,
              ap length form,
              ap length k.parts,
              length-append k.lo (b ∷ k.hi),
              length-append k.lo k.hi,
            );
          };
          finds = λ target.
              ap (λ l. lookup key l target) form
              ∙ lookup_between key order k.lo b k.hi target
                  (All-front (λ q. key.cmp b.0 q.0 ≢ eq) k.lo k.hi fresh')
              ∙ ap (λ l. lookup key (b ∷ l) target) (sym k.parts);
        }

  -- An entry of a new key that is inserted into an index shard with room, in order with each key
  -- once, while the offsets of the shard and its positions have 64 bits: the call does not panic,
  -- the current shard is in order again, and it finds the key and what it found before.
  pub insert-Slot :
      (x : IndexShard Uuid) (kvs : List (K × V)) (b : K × V)
      → x.key_size ≡ key_size
      → x.binary_order ≡ true
      → Slot key value key_size value_size capacity x.shards.current_master_shard kvs
      → Fits key value key_size value_size b
      → All (λ q. key.cmp b.0 q.0 ≢ eq) kvs
      → HasRoom capacity (length kvs)
      → length kvs + 1 < 2 ^ 63
      → IsU64 (40 + (length kvs + 1) * get_entry_size key_size value_size)
      → IsU64 (length x.shards.past_master_shards * capacity + (length kvs + 1))
      → Inserted x kvs b
  unfolding raw_insert
  insert-Slot x kvs b same ordered slot fits fresh has_room small bytes word =
      let s = x.shards.current_master_shard in
      let f = entry_bytes key value in
      let size = get_entry_size key_size value_size in
      let count = length-map f kvs in
      let one =
        insert_one s (map f kvs) slot.stores.stored (omega (arith, count, small)) w x.shards (f b)
          refl (subst (HasRoom capacity) (sym count) has_room) (entry_length b fits)
          (subst (λ n. IsU64 (40 + (n + 1) * size)) (sym count) bytes)
          (subst (λ n. IsU64 (length x.shards.past_master_shards * capacity + (n + 1))) (sym count)
            word) in
      let joined =
        insert_item-Entries capacity size slot.id s (map f kvs) (f b ∷ []) slot.stores.stored
          (entry_length b fits, tt) (omega (arith, count, small))
          (subst (λ n. IsU64 (40 + (n + 1) * size)) (sym count) bytes) in
      let s1 = (insert_item s (f b ∷ [])).0 in
      let st1 : Indexed key value key_size value_size capacity slot.id s1 (kvs ++ (b ∷ [])) =
        record {
          stored =
              subst (Entries capacity size slot.id s1) (sym (map-append f kvs (b ∷ []))) joined.0;
          fits =
              All-append (Fits key value key_size value_size) kvs (b ∷ []) slot.stores.fits
                (fits, tt);
        } in
      let kept = keep_last (with_current x s1) slot.id kvs b same (omega (arith, small)) st1 in
      let inserted = insert key value w x b.0 b.1 in
      let whole : inserted ≡ keep_binary_order key value (with_current x s1) =
        ap (λ r. unwrap r >>= λ p. order_if key value x.binary_order (record x { shards = p.0 }))
          one.1
        ∙ ap (λ o. order_if key value o (with_current x s1)) ordered in
      Ordered-Inserted x slot.id kvs b s1 slot fresh small whole kept
