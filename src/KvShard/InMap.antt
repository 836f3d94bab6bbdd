-- ===== src/KvShard/InMap.antt =====
-- A map shard of key-value shards, as the indexes have it.
use schema_js.Prelude.{
  ℕ, suc, ◌+◌, ◌*◌, ◌<◌, ◌≤◌, ◌≡◌, sym, ap, ◌∙◌, List, [], ◌∷◌, ◌++◌, length, length-append,
  flatten, get_elem?, arith,
}
use schema_js.Prelude.Int.{as_u64}
use schema_js.Prelude.Results.{ok}
use schema_js.Prelude.Bytes.{Bytes}
use schema_js.Uuid.{UuidApi}
use schema_js.DataShard.Layout.{last_index}
use schema_js.KvShard.Ops.{KvShard, KvShardConfig, shard_ops}
use schema_js.KvShard.Laws.{Fitting, kv_view, kv_laws}
use schema_js.MapShard.Ops.{MapShard, World, insert_rows, get_element}
use schema_js.MapShard.State.{IsGood, Contains, Pasts-lengths}
use schema_js.MapShard.Insert.{insert_row-position}
use schema_js.MapShard.Read.{get_element-reversed}
use schema_js.MapShard.RoundTrip.{length-flatten-reverse, found_last}
use mathlib.Core.List.{reverse}

module _ {Uuid : Type 0} ⦃u : UuidApi Uuid⦄ (w : World Uuid) (limit : ℕ) (good : IsGood w limit)
    (size k : ℕ) (some_room : 0 < k) where
  -- One entry of the size, inserted into a map shard of key-value shards of a capacity whose
  -- offsets and positions have 64 bits: the position that is returned is one more than the index at
  -- which `get_element` finds the entry.
  pub get_element-insert_entry :
      (entry : Bytes) (m : MapShard (KvShard Uuid) KvShardConfig) (chunks : List (List Bytes))
      (current : List Bytes) (number : ℕ)
      → Contains shard_ops (kv_view size) w limit k m chunks current number
      → number + 2 ≤ limit
      → Fitting size k (flatten chunks ++ (current ++ (entry ∷ [])))
      → (after : MapShard (KvShard Uuid) KvShardConfig) × (index : ℕ) × (insert_rows shard_ops w
            (entry ∷ [])
            m
          ≡ ok (after, suc index))
        × (get_element shard_ops after index ≡ ok entry)
  get_element-insert_entry entry m chunks current number c fits small =
      let (o, front, ends, at) =
        insert_row-position shard_ops (kv_view size) (kv_laws size) w limit good k some_room entry m
          chunks current number c fits small in
      let count : length o.current ≡ suc (length front) =
        ap length ends ∙ omega (arith, length-append front (entry ∷ [])) in
      let index = length o.chunks * k + length front in
      let position : o.position ≡ suc index = omega (arith, at, count) in
      let same_index : index ≡ length o.chunks * k + as_u64 (last_index (length o.current)) =
        ap (λ n. length o.chunks * k + as_u64 (last_index n)) (sym count) in
      (
        o.after,
        index,
        o.returns ∙ ap (λ p. ok (o.after, p)) position,
        get_element-reversed shard_ops (kv_view size) (kv_laws size) w limit k some_room o.after
            o.chunks o.current o.number index entry o.contains
            (ap (get_elem? (flatten (reverse o.chunks) ++ o.current)) same_index
              ∙ found_last (flatten (reverse o.chunks)) o.current front entry (length o.chunks * k)
                  (length-flatten-reverse k o.chunks
                    (Pasts-lengths shard_ops (kv_view size) w limit k _ o.chunks o.contains.past))
                  ends),
      )
