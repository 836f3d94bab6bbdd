-- ===== src/TempShard/Full.antt =====
-- Inserting a row into temporary shards that are all full.
use schema_js.Prelude.{
  ℕ, suc, ◌+◌, ◌<◌, ◌≤◌, ◌≡◌, refl, ap, ◌∙◌, List, [], ◌∷◌, ◌++◌, Bool, false, none, some, All,
  length, length-append, flatten, get_elem?, arith,
}
use schema_js.Prelude.Results.{Result, ok, ◌>>=◌, >>=-ok, >>=-run, unwrap}
use schema_js.Prelude.Bytes.{Bytes}
use schema_js.Shard.Errors.{ShardErrors}
use schema_js.Shard.Trait.{Shard}
use schema_js.Shard.Laws.{ShardView, ShardLaws}
use schema_js.Uuid.{UuidApi}
use schema_js.MapShard.Ops.{MapShard, World}
use schema_js.MapShard.State.{IsGood, Contains}
use schema_js.TempShard.Ops.{
  Behind, TempMapShard, position, remove_at, last_position, call_on_reconcile, create_shard,
  reconcile, reconcile_at, reconcile_specific, insert_at, insert_row,
}
use schema_js.TempShard.Insert.{set_at-append, found_at}
use schema_js.TempShard.Moves.{reports, Gained}
use schema_js.TempShard.Reconcile.{with_parent, reconcile_lem}

position_none :
    {A : Type 0} (test : A → Bool) (xs : List A)
    → All (λ x. test x ≡ false) xs
    → position test xs ≡ none
unfolding position
position_none test [] h = refl
position_none test (x ∷ xs) h = rw (position, h.0, position_none test xs h.1) refl

remove_at-last :
    {A : Type 0} (front : List A) (x : A) → remove_at (front ++ (x ∷ [])) (length front) ≡ front
remove_at-last [] x = refl
remove_at-last (y ∷ front) x = ap (λ l. y ∷ l) (remove_at-last front x)

last_position-append :
    {A : Type 0} (front : List A) (x : A)
    → last_position (length (front ++ (x ∷ []))) ≡ some (length front)
last_position-append front x =
    let e : length (front ++ (x ∷ [])) ≡ suc (length front) =
      omega (arith, length-append front (x ∷ [])) in
    ap last_position e

module _ {S Opts X Uuid : Type 0} ⦃u : UuidApi Uuid⦄ (ops : Shard S Opts Uuid)
    (v : ShardView S Opts) (laws : ShardLaws ops v) (w : World Uuid) (limit : ℕ)
    (good : IsGood w limit) (k : ℕ) (some_room : 0 < k)
    (counted : (n : ℕ) → v.returned (suc n) ≡ n) where
  -- The last temporary shard is reconciled and removed.
  reconcile_last :
      (t : TempMapShard S Opts X) (front : List S) (s : S) (b : Behind S Opts X)
      → t.temp_shards ≡ front ++ (s ∷ [])
      → reconcile_specific ops w t b none
        ≡ (reconcile ops w t s b >>= λ b'. ok (record t { temp_shards = front }, b'))
  unfolding reconcile_specific
  reconcile_last t front s b shards =
      let last : last_position (length t.temp_shards) ≡ some (length front) =
        ap (λ l. last_position (length l)) shards ∙ last_position-append front s in
      let found : get_elem? t.temp_shards (length front) ≡ some s =
        ap (λ l. get_elem? l (length front)) shards ∙ found_at front s [] in
      let left : remove_at t.temp_shards (length front) ≡ front =
        ap (λ l. remove_at l (length front)) shards ∙ remove_at-last front s in
      rw (last, reconcile_at, found, left) refl

  -- A row for temporary shards that are all full, while positions have 64 bits: the last one is
  -- reconciled, so that its rows stand in the map shard behind those that were there and are
  -- reported to the callback, and it gives way to a new temporary shard with the row alone. The
  -- others stay; a failure of the callback is a panic, and nothing else fails.
  pub insert_row-full :
      (t : TempMapShard S Opts X) (front : List S) (s : S) (rows : List Bytes) (row : Bytes)
      (name_id own_id : Uuid) (m : MapShard S Opts) (chunks : List (List Bytes))
      (current : List Bytes) (number : ℕ)
      → t.temp_shards ≡ front ++ (s ∷ [])
      → All (λ b. ops.has_space b ≡ false) t.temp_shards
      → v.Holds (v.capacity t.config) s rows
      → v.Suits t.config
      → 0 < v.capacity t.config
      → v.Small (v.capacity t.config) (row ∷ [])
      → w.disk (t.prefix ++ u.to_string name_id) ≡ []
      → Contains ops v w limit k m chunks current number
      → number + length rows + 1 ≤ limit
      → v.Small k ((flatten chunks ++ current) ++ rows)
      → (after : MapShard S Opts) × (s' : S) × Gained ops v w limit k
          (flatten chunks ++ current)
          rows
          number
          after
        × v.Holds (v.capacity t.config) s' (row ∷ [])
        × ((x : X)
            → insert_row ops w t (with_parent m x) name_id own_id row ≡ (
                unwrap (
                  call_on_reconcile t.on_reconcile
                    (reports (length (flatten chunks ++ current)) rows)
                    x)
                >>= λ x'. ok (
                  (record t { temp_shards = front ++ (s' ∷ []) }, with_parent after x'),
                  ok (v.returned 1),
                )))
  unfolding insert_row reconcile_specific create_shard
  insert_row-full t front s rows row name_id own_id m chunks current number shards full held suits
        room small_row fresh c fits small =
      let path = t.prefix ++ u.to_string name_id in
      let none_full : position ops.has_space t.temp_shards ≡ none =
        position_none ops.has_space t.temp_shards full in
      let one =
        reconcile_lem ops v laws w limit good k some_room counted (v.capacity t.config) t s rows m
          chunks current number held c fits small in
      let (new, opened, new_held, at) =
        laws.open_shard_law path t.config none own_id suits
          (laws.small_part (v.capacity t.config) [] [] (row ∷ []) small_row) room in
      let (after_law, result) =
        laws.insert_item_law (v.capacity t.config) new [] (row ∷ []) new_held (omega (arith, room))
          small_row in
      let new' : S = (ops.insert_item new (row ∷ [])).0 in
      let next : TempMapShard S Opts X × Behind S Opts X
          → Result ShardErrors ((TempMapShard S Opts X × Behind S Opts X) × ℕ) =
        λ p. create_shard ops w p.0 name_id own_id >>= λ shard. ok (
          (record p.0 { temp_shards = p.0.temp_shards ++ (shard ∷ []) }, p.1),
          length p.0.temp_shards,
        ) in
      let finish : (TempMapShard S Opts X × Behind S Opts X) × ℕ
          → Result ShardErrors ((TempMapShard S Opts X × Behind S Opts X) × Result ShardErrors ℕ) =
        λ q.
          let i = insert_at ops w q.0.0 q.1 row (get_elem? q.0.0.temp_shards q.1) in
          ok ((i.0, q.0.1), i.1) in
      let call : X → Result ShardErrors X = λ x.
        unwrap (
          call_on_reconcile t.on_reconcile (reports (length (flatten chunks ++ current)) rows) x) in
      (
        one.after,
        new',
        one.gained,
        after_law,
        λ x. rw none_full (
            ap (λ r. r >>= next >>= finish)
              (reconcile_last t front s (with_parent m x) shards
                ∙ ap (λ r. r >>= λ b'. ok (record t { temp_shards = front }, b')) (one.returns x)
                ∙ >>=-ok (call x) (with_parent one.after)
                    (λ b'. (record t { temp_shards = front }, b')))
            ∙ >>=-run (call x) (λ x'. (record t { temp_shards = front }, with_parent one.after x'))
                next finish
                (λ x'. (
                  (record t { temp_shards = front ++ (new' ∷ []) }, with_parent one.after x'),
                  ok (v.returned 1),
                ))
                (λ x'.
                  rw
                    (
                      good.on_posix,
                      fresh,
                      opened,
                      ◌>>=◌,
                      found_at front new [],
                      insert_at,
                      result,
                      set_at-append front new [] new',
                    )
                    refl)),
      )
