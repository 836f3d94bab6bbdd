-- ===== src/TempShard/Insert.antt =====
-- Inserting a row into the temporary shards, while one of them has space.
use schema_js.Prelude.{
  ℕ, ◌+◌, ◌<◌, ◌≤◌, none, ◌≡◌, refl, ap, ◌∙◌, List, [], ◌∷◌, ◌++◌, Bool, true, false, some, All,
  length, get_elem?, get_elem?-append, arith,
}
use schema_js.Prelude.Results.{ok, ◌>>=◌}
use schema_js.Prelude.Bytes.{Bytes}
use schema_js.Storage.File.{Platform}
use schema_js.Shard.Trait.{Shard}
use schema_js.Shard.Laws.{ShardView, ShardLaws}
use schema_js.Uuid.{UuidApi}
use schema_js.MapShard.Ops.{World}
use schema_js.TempShard.Ops.{
  Behind, TempMapShard, position, set_at, create_shard, insert_at, reconcile_specific, insert_row,
}

-- The first element that passes the test.
position-append :
    {A : Type 0} (test : A → Bool) (before : List A) (x : A) (after : List A)
    → All (λ y. test y ≡ false) before
    → test x ≡ true
    → position test (before ++ (x ∷ after)) ≡ some (length before)
unfolding position
position-append test [] x after none_before here = rw here refl
position-append test (y ∷ ys) x after none_before here =
    rw (none_before.0, position-append test ys x after none_before.1 here) refl

pub set_at-append :
    {A : Type 0} (before : List A) (x : A) (after : List A) (y : A)
    → set_at (before ++ (x ∷ after)) (length before) y ≡ before ++ (y ∷ after)
set_at-append [] x after y = refl
set_at-append (z ∷ zs) x after y = ap (λ r. z ∷ r) (set_at-append zs x after y)

pub found_at :
    {A : Type 0} (before : List A) (x : A) (after : List A)
    → get_elem? (before ++ (x ∷ after)) (length before) ≡ some x
found_at before x after =
    let e : length before ≡ length before + 0 = omega arith in
    ap (get_elem? (before ++ (x ∷ after))) e ∙ get_elem?-append before (x ∷ after) 0

module _ {S Opts X Uuid : Type 0} ⦃u : UuidApi Uuid⦄ (ops : Shard S Opts Uuid)
    (v : ShardView S Opts) (w : World Uuid) where
  -- Where a row goes that a temporary map shard takes without a reconciliation: between the shards
  -- `before` and `after`, into a shard of capacity `k` with the items. It is the first one with space,
  -- or a new one when there is none at all.
  pub data Room (t : TempMapShard S Opts X) (name_id : Uuid)
      : List S → List S → ℕ → List Bytes → Type 0 where
    in_first :
        (before : List S) (s : S) (after : List S) (k : ℕ) (items : List Bytes)
        → t.temp_shards ≡ before ++ (s ∷ after)
        → All (λ b. ops.has_space b ≡ false) before
        → ops.has_space s ≡ true
        → v.Holds k s items
        → length items + 1 ≤ k
        → Room t name_id before after k items
    in_new :
        t.temp_shards ≡ []
        → w.platform ≡ Platform.posix
        → w.disk (t.prefix ++ u.to_string name_id) ≡ []
        → v.Suits t.config
        → 0 < v.capacity t.config
        → Room t name_id [] [] (v.capacity t.config) []

module _ {S Opts X Uuid : Type 0} ⦃u : UuidApi Uuid⦄ (ops : Shard S Opts Uuid)
    (v : ShardView S Opts) (laws : ShardLaws ops v) (w : World Uuid) where
  -- A row goes into the first temporary shard that has space, behind the rows of that shard; the
  -- other temporary shards, the map shard behind them and the state of the callback do not change.
  pub insert_row-first :
      (t : TempMapShard S Opts X) (behind : Behind S Opts X) (name_id own_id : Uuid) (row : Bytes)
      (before : List S) (s : S) (after : List S) (k : ℕ) (items : List Bytes)
      → t.temp_shards ≡ before ++ (s ∷ after)
      → All (λ b. ops.has_space b ≡ false) before
      → ops.has_space s ≡ true
      → v.Holds k s items
      → length items + 1 ≤ k
      → v.Small k (items ++ (row ∷ []))
      → (s' : S) × (insert_row ops w t behind name_id own_id row
          ≡ ok (
            (record t { temp_shards = before ++ (s' ∷ after) }, behind),
            ok (v.returned (length (items ++ (row ∷ [])))),
          ))
        × v.Holds k s' (items ++ (row ∷ []))
  unfolding insert_row
  insert_row-first t behind name_id own_id row before s after k items shards full space held room
        small =
      let (after_law, result) = laws.insert_item_law k s items (row ∷ []) held room small in
      let s' = (ops.insert_item s (row ∷ [])).0 in
      (
        s',
        rw
            (
              shards,
              position-append ops.has_space before s after full space,
              found_at before s after,
              set_at-append before s after s',
              result,
            )
            refl,
        after_law,
      )

  -- A row that has room is stored there, behind the items; the other temporary shards, the map shard
  -- behind them and the state of the callback do not change.
  pub insert_row-Room :
      (t : TempMapShard S Opts X) (behind : Behind S Opts X) (name_id own_id : Uuid) (row : Bytes)
      (before after : List S) (k : ℕ) (items : List Bytes)
      → Room ops v w t name_id before after k items
      → v.Small k (items ++ (row ∷ []))
      → (s' : S) × (insert_row ops w t behind name_id own_id row
          ≡ ok (
            (record t { temp_shards = before ++ (s' ∷ after) }, behind),
            ok (v.returned (length (items ++ (row ∷ [])))),
          ))
        × v.Holds k s' (items ++ (row ∷ []))
  unfolding insert_row reconcile_specific create_shard position
  insert_row-Room t behind name_id own_id row _ _ _ _
        (Room.in_first before s after k items shards full space held room) small =
      insert_row-first t behind name_id own_id row before s after k items shards full space held
        room small
  insert_row-Room t behind name_id own_id row _ _ _ _
        (Room.in_new none_there on_posix fresh suits room) small =
      let path = t.prefix ++ u.to_string name_id in
      let (new, opened, new_held, at) =
        laws.open_shard_law path t.config none own_id suits
          (laws.small_part (v.capacity t.config) [] [] (row ∷ []) small) room in
      let (after_law, result) =
        laws.insert_item_law (v.capacity t.config) new [] (row ∷ []) new_held (omega (arith, room))
          small in
      (
        (ops.insert_item new (row ∷ [])).0,
        rw (none_there, none_there, none_there, on_posix, fresh, opened, ◌>>=◌, insert_at, result)
            refl,
        after_law,
      )
