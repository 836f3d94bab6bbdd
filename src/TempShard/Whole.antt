-- ===== src/TempShard/Whole.antt =====
-- `reconcile_all` of a temporary map shard and of a collection of them.
use schema_js.Prelude.{
  ℕ, suc, ◌+◌, ◌<◌, ◌≤◌, ◌≡◌, ap, ◌∙◌, List, [], ◌∷◌, ◌++◌, Option, length, map, flatten,
}
use schema_js.Prelude.Results.{Result, ok, ◌>>=◌, >>=-ok}
use schema_js.Prelude.Bytes.{Bytes}
use schema_js.Shard.Trait.{Shard}
use schema_js.Shard.Laws.{ShardView, ShardLaws}
use schema_js.Uuid.{UuidApi}
use schema_js.MapShard.Ops.{MapShard, World}
use schema_js.MapShard.State.{IsGood, Contains}
use schema_js.TempShard.Ops.{DataWithIndex, TempMapShard, reconcile_all}
use schema_js.TempShard.Collection.{reconcile_temps}
use schema_js.TempShard.Moves.{Gained}
use schema_js.TempShard.Reconcile.{told, Each, with_parent, reconcile_each-Settled}

abbrev pub emptied : {S Opts X : Type 0} → TempMapShard S Opts X → TempMapShard S Opts X
emptied t = record t { temp_shards = [] }

module _ {S Opts : Type 0} (v : ShardView S Opts) (j : ℕ) where
  -- The temporary map shards have one callback, and their shards hold the rows.
  abbrev pub Hold :
      {X : Type 0}
      → Option (List DataWithIndex → X → Result (Unit {0}) X)
      → List (TempMapShard S Opts X)
      → List (List (List Bytes))
      → Type 0
  Hold callback [] [] = Unit
  Hold callback [] (contents ∷ all) = ⊥
  Hold callback (t ∷ temps) [] = ⊥
  Hold callback (t ∷ temps) (contents ∷ all) =
      ((t.on_reconcile ≡ callback) × Each v j t.temp_shards contents) × Hold callback temps all

module _ {S Opts Uuid : Type 0} ⦃u : UuidApi Uuid⦄ (ops : Shard S Opts Uuid) (v : ShardView S Opts)
    (laws : ShardLaws ops v) (w : World Uuid) (limit : ℕ) (good : IsGood w limit) (k : ℕ)
    (some_room : 0 < k) (counted : (n : ℕ) → v.returned (suc n) ≡ n) (j : ℕ) where
  -- Reconciling a temporary map shard empties it. Its rows, shard by shard, stand in the map shard
  -- behind those that were there, with at most one new shard for each row. For each temporary shard
  -- the callback is called with the shard's rows and the numbers that they have in the map shard;
  -- if a call fails, the whole panics, and nothing else fails.
  pub reconcile_all-Gained :
      {X : Type 0} (t : TempMapShard S Opts X) (contents : List (List Bytes)) (m : MapShard S Opts)
      (chunks : List (List Bytes)) (current : List Bytes) (number : ℕ)
      → Each v j t.temp_shards contents
      → Contains ops v w limit k m chunks current number
      → number + length (flatten contents) + 1 ≤ limit
      → v.Small k ((flatten chunks ++ current) ++ flatten contents)
      → (after : MapShard S Opts) × Gained ops v w limit k
          (flatten chunks ++ current)
          (flatten contents)
          number
          after
        × ((x : X)
            → reconcile_all ops w t (record { parent_shard = m; captured = x }) ≡ (
                told t.on_reconcile (length (flatten chunks ++ current)) contents x >>= λ x'.
                ok (record t { temp_shards = [] }, record { parent_shard = after; captured = x' })))
  unfolding reconcile_all
  reconcile_all-Gained t contents m chunks current number each c fits small =
      let s =
        reconcile_each-Settled ops v laws w limit good k some_room counted j t t.temp_shards
          contents m chunks current number each c fits small in
      (
        s.after,
        s.gained,
        λ x.
            ap (λ r. r >>= λ b. ok (record t { temp_shards = [] }, b)) (s.returns x)
            ∙ >>=-ok (told t.on_reconcile (length (flatten chunks ++ current)) contents x)
                (with_parent s.after) (λ b. (record t { temp_shards = [] }, b)),
      )

  record Drained {X : Type 0} (callback : Option (List DataWithIndex → X → Result (Unit {0}) X))
      (temps : List (TempMapShard S Opts X)) (old : List Bytes) (all : List (List Bytes))
      (number : ℕ) (m : MapShard S Opts) : Type 0 where
    after : MapShard S Opts
    gained : Gained ops v w limit k old (flatten all) number after
    returns :
        (x : X)
        → reconcile_temps ops w temps (record { parent_shard = m; captured = x }) ≡ (
            told callback (length old) all x >>= λ x'.
            ok (map emptied temps, record { parent_shard = after; captured = x' }))
