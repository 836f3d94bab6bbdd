-- ===== src/TempShard/Reconcile.antt =====
-- Reconciliation: every row of the temporary shards moves into the map shard behind them, and the
-- callback is told of each shard.
use schema_js.Prelude.{
  ℕ, suc, ◌+◌, ◌<◌, ◌≤◌, ◌≡◌, refl, sym, ap, subst, ◌∙◌, List, [], ◌∷◌, ◌++◌, Option, length,
  length-append, flatten, append_assoc, arith,
}
use schema_js.Prelude.Results.{Result, ok, ◌>>=◌, >>=-chain, unwrap}
use schema_js.Prelude.Bytes.{Bytes}
use schema_js.Shard.Errors.{ShardErrors}
use schema_js.Shard.Trait.{Shard}
use schema_js.Shard.Laws.{ShardView, ShardLaws}
use schema_js.Uuid.{UuidApi}
use schema_js.MapShard.Ops.{MapShard, World}
use schema_js.MapShard.State.{IsGood, Contains}
use schema_js.TempShard.Ops.{
  Behind, DataWithIndex, TempMapShard, call_on_reconcile, reconcile, reconcile_each,
}
use schema_js.TempShard.Moves.{reports, range_end_lem, Gained, Gained-then, Gained-none, move_rows}

-- The calls of the callback, one for each shard, for rows that are numbered from `start` on.
abbrev pub told :
    {X : Type 0}
    → Option (List DataWithIndex → X → Result (Unit {0}) X)
    → ℕ
    → List (List Bytes)
    → X
    → Result ShardErrors X
told callback start [] x = ok x
told callback start (rows ∷ shards) x =
    (unwrap (call_on_reconcile callback (reports start rows) x) >>= λ x'.
    told callback (start + length rows) shards x')

abbrev pub with_parent : {S Opts X : Type 0} → MapShard S Opts → X → Behind S Opts X
with_parent m x = record { parent_shard = m; captured = x }

module _ {S Opts : Type 0} (v : ShardView S Opts) (j : ℕ) where
  -- Each of the shards, of capacity `j`, holds its rows.
  abbrev pub Each : List S → List (List Bytes) → Type 0
  Each [] [] = Unit
  Each [] (rows ∷ contents) = ⊥
  Each (s ∷ shards) [] = ⊥
  Each (s ∷ shards) (rows ∷ contents) = v.Holds j s rows × Each shards contents

module _ {S Opts X Uuid : Type 0} ⦃u : UuidApi Uuid⦄ (ops : Shard S Opts Uuid)
    (v : ShardView S Opts) (w : World Uuid) (limit k : ℕ) where
  -- The rows `contents` have moved behind `old`, whatever state the callback is in, and the callback
  -- was called for each shard; its failure is the failure of the whole.
  pub record Settled (t : TempMapShard S Opts X) (old : List Bytes) (contents : List (List Bytes))
      (number : ℕ) (r : X → Result ShardErrors (Behind S Opts X)) : Type 0 where
    pub after : MapShard S Opts
    pub gained : Gained ops v w limit k old (flatten contents) number after
    pub returns :
        (x : X)
        → r x ≡ (
            told t.on_reconcile (length old) contents x >>= λ x'.
            ok (record { parent_shard = after; captured = x' }))

module _ {S Opts X Uuid : Type 0} ⦃u : UuidApi Uuid⦄ (ops : Shard S Opts Uuid)
    (v : ShardView S Opts) (laws : ShardLaws ops v) (w : World Uuid) (limit : ℕ)
    (good : IsGood w limit) (k : ℕ) (some_room : 0 < k) (counted : (n : ℕ) → v.returned (suc n) ≡ n)
    (j : ℕ) where
  pub record One (t : TempMapShard S Opts X) (s : S) (old rows : List Bytes) (number : ℕ)
      (m : MapShard S Opts) : Type 0 where
    pub after : MapShard S Opts
    pub gained : Gained ops v w limit k old rows number after
    pub returns :
        (x : X)
        → reconcile ops w t s (with_parent m x) ≡ (
            unwrap (call_on_reconcile t.on_reconcile (reports (length old) rows) x) >>= λ x'.
            ok (with_parent after x'))

  pub reconcile_lem :
      (t : TempMapShard S Opts X) (s : S) (rows : List Bytes) (m : MapShard S Opts)
      (chunks : List (List Bytes)) (current : List Bytes) (number : ℕ)
      → v.Holds j s rows
      → Contains ops v w limit k m chunks current number
      → number + length rows + 1 ≤ limit
      → v.Small k ((flatten chunks ++ current) ++ rows)
      → One t s (flatten chunks ++ current) rows number m
  unfolding reconcile
  reconcile_lem t s rows m chunks current number held c fits small =
      let moved =
        move_rows ops v laws w limit good k some_room counted j s [] rows m chunks current number 0
          held refl c fits small in
      let last =
        range_end_lem (ops.get_last_index s) (length rows)
          (laws.get_last_index_law j s rows held) in
      record {
        after = moved.after;
        gained = moved.gained;
        returns = λ x. rw (last, moved.returns) refl;
      }

  pub reconcile_each-Settled :
      (t : TempMapShard S Opts X) (shards : List S) (contents : List (List Bytes))
      (m : MapShard S Opts) (chunks : List (List Bytes)) (current : List Bytes) (number : ℕ)
      → Each v j shards contents
      → Contains ops v w limit k m chunks current number
      → number + length (flatten contents) + 1 ≤ limit
      → v.Small k ((flatten chunks ++ current) ++ flatten contents)
      → Settled ops v w limit k t
          (flatten chunks ++ current)
          contents
          number
          (λ x. reconcile_each ops w t shards (with_parent m x))
  unfolding reconcile_each
  reconcile_each-Settled t [] [] m chunks current number each c fits small = record {
    after = m;
    gained = Gained-none ops v w limit k m chunks current number c;
    returns = λ x. refl;
  }
  reconcile_each-Settled t [] (rows ∷ contents) m chunks current number each c fits small =
      absurd each
  reconcile_each-Settled t (s ∷ shards) [] m chunks current number each c fits small = absurd each
  reconcile_each-Settled t (s ∷ shards) (rows ∷ contents) m chunks current number each c fits
        small =
      let old = flatten chunks ++ current in
      let sizes = length-append rows (flatten contents) in
      let all_small = subst (v.Small k) (sym (append_assoc old rows (flatten contents))) small in
      let one =
        reconcile_lem t s rows m chunks current number each.0 c (omega arith)
          (laws.small_part k [] (old ++ rows) (flatten contents) all_small) in
      let g = one.gained in
      let rest =
        reconcile_each-Settled t shards contents one.after g.chunks g.current g.last_number each.1
          g.contains (omega (arith, g.few))
          (subst (v.Small k) (ap (λ l. l ++ flatten contents) (sym g.items)) all_small) in
      let start : length (flatten g.chunks ++ g.current) ≡ length old + length rows =
        ap length g.items ∙ length-append old rows in
      record {
        after = rest.after;
        gained =
            Gained-then ops v w limit k old rows (flatten contents) number one.after rest.after g
              rest.gained;
        returns = λ x.
            ap (λ r. r >>= reconcile_each ops w t shards) (one.returns x)
            ∙ >>=-chain (unwrap (call_on_reconcile t.on_reconcile (reports (length old) rows) x))
                (with_parent one.after) (reconcile_each ops w t shards)
                (told t.on_reconcile (length old + length rows) contents)
                (λ y. ok (with_parent rest.after y))
                (λ x'.
                  rest.returns x'
                  ∙ ap
                      (λ n.
                        told t.on_reconcile n contents x' >>= λ y. ok (with_parent rest.after y))
                      start);
      }
