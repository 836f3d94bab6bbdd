-- ===== src/MapShard/RoundTrip.antt =====
-- A map shard of data shards: the position that an insertion of one row returns finds the row.
use schema_js.Prelude.{
  ℕ, suc, ◌+◌, ◌*◌, ◌<◌, ◌≤◌, ◌≡◌, sym, ap, ◌∙◌, List, [], ◌∷◌, ◌++◌, some, All, length,
  length-append, flatten, flatten-append, get_elem?, get_elem?-append, arith,
}
use schema_js.Prelude.Int.{as_u64}
use schema_js.Prelude.Results.{ok}
use schema_js.Prelude.Bytes.{Bytes}
use schema_js.Uuid.{UuidApi}
use schema_js.DataShard.Config.{DataShardConfig}
use schema_js.DataShard.Ops.{DataShard, shard_ops}
use schema_js.DataShard.Layout.{last_index}
use schema_js.DataShard.Laws.{SmallData, data_view, data_laws}
use schema_js.MapShard.Ops.{MapShard, World, insert_rows, get_element}
use schema_js.MapShard.State.{IsGood, Contains, Pasts-lengths}
use schema_js.MapShard.Insert.{insert_row-position}
use schema_js.MapShard.Read.{get_element-reversed}
use mathlib.Core.List.{reverse, reverse-cons}

-- In whatever order, full chunks have so many items.
pub length-flatten-reverse :
    (k : ℕ) (cs : List (List Bytes))
    → All (λ c. length c ≡ k) cs
    → length (flatten (reverse cs)) ≡ length cs * k
length-flatten-reverse k [] h = omega arith
length-flatten-reverse k (c ∷ cs) h = omega (
  arith,
  ap (λ l. length (flatten l)) (reverse-cons c cs),
  ap length (flatten-append (reverse cs) (c ∷ [])),
  length-append (flatten (reverse cs)) (c ++ []),
  length-append c [],
  length-flatten-reverse k cs h.1,
  h.0,
)

-- The last of the current items, from its index and the number of items before them.
pub found_last :
    (l current front : List Bytes) (x : Bytes) (past : ℕ)
    → length l ≡ past
    → current ≡ front ++ (x ∷ [])
    → get_elem? (l ++ current) (past + as_u64 (last_index (length current))) ≡ some x
found_last l current front x past size ends =
    let count : length current ≡ suc (length front) =
      omega (arith, ap length ends, length-append front (x ∷ [])) in
    let none_after : length front + 0 ≡ length front = omega arith in
    ap (λ p. get_elem? (l ++ current) (p + as_u64 (last_index (length current)))) (sym size)
    ∙ get_elem?-append l current (as_u64 (last_index (length current)))
    ∙ ap (λ n. get_elem? current (as_u64 (last_index n))) count
    ∙ ap (λ c. get_elem? c (length front)) ends
    ∙ ap (get_elem? (front ++ (x ∷ []))) (sym none_after)
    ∙ get_elem?-append front (x ∷ []) 0

module _ {Uuid : Type 0} ⦃u : UuidApi Uuid⦄ (w : World Uuid) (limit : ℕ) (good : IsGood w limit)
    (k : ℕ) (some_room : 0 < k) where
  -- If positions have 64 bits, the position that is returned for one inserted row is an index at
  -- which `get_element` finds that row, however many shards there are.
  pub get_element-insert_rows :
      (row : Bytes) (m : MapShard (DataShard Uuid) DataShardConfig) (chunks : List (List Bytes))
      (current : List Bytes) (number : ℕ)
      → Contains shard_ops data_view w limit k m chunks current number
      → number + 2 ≤ limit
      → SmallData k (flatten chunks ++ (current ++ (row ∷ [])))
      → (after : MapShard (DataShard Uuid) DataShardConfig) × (position : ℕ) × (insert_rows
            shard_ops w
            (row ∷ [])
            m
          ≡ ok (after, position))
        × (get_element shard_ops after position ≡ ok row)
  get_element-insert_rows row m chunks current number c fits small =
      let (o, front, ends, at) =
        insert_row-position shard_ops data_view data_laws w limit good k some_room row m chunks
          current number c fits small in
      (
        o.after,
        o.position,
        o.returns,
        get_element-reversed shard_ops data_view data_laws w limit k some_room o.after o.chunks
            o.current o.number o.position row o.contains
            (ap (get_elem? (flatten (reverse o.chunks) ++ o.current)) at
              ∙ found_last (flatten (reverse o.chunks)) o.current front row (length o.chunks * k)
                  (length-flatten-reverse k o.chunks
                    (Pasts-lengths shard_ops data_view w limit k _ o.chunks o.contains.past))
                  ends),
      )
