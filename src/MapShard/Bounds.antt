-- ===== src/MapShard/Bounds.antt =====
-- How great the positions of rows can be.
use schema_js.Prelude.{
  ℕ, zero, suc, ◌+◌, ◌*◌, ◌<◌, ◌≤◌, ◌≡◌, refl, sym, subst, List, ◌++◌, length, length-append,
  length-flatten, flatten, arith,
}
use schema_js.Prelude.Bytes.{Bytes}
use schema_js.Shard.Trait.{Shard}
use schema_js.Shard.Laws.{ShardView, ShardLaws}
use schema_js.Uuid.{UuidApi}
use schema_js.MapShard.Ops.{MapShard, World}
use schema_js.MapShard.State.{Contains, Pasts-lengths}

predecessor : (n : ℕ) → 0 < n → (m : ℕ) × (n ≡ suc m)
predecessor zero h = absurd (omega arith)
predecessor (suc m) h = (m, refl)

pub times_mono : (a b : ℕ) → a ≤ b → a * b ≤ b * b
times_mono a b h = grind arith

pub once : (a b : ℕ) → 0 < a → b ≤ a * b
once zero b h = absurd (omega arith)
once (suc a) b h = omega arith

-- A position, and those of the rest of the rows.
pub sum_bound : (n rest all p q : ℕ) → rest + 1 ≤ n → p ≤ all → q ≤ rest * all → p + q ≤ n * all
sum_bound n rest all p q fewer first others =
    let step : (rest + 1) * all ≡ rest * all + all = omega arith in
    omega (arith, first, others, step, rows_mono (rest + 1) n all fewer)
  where
    rows_mono : (a b c : ℕ) → a ≤ b → a * c ≤ b * c
    rows_mono a b c h = grind arith

module _ {S Opts Uuid : Type 0} ⦃u : UuidApi Uuid⦄ (ops : Shard S Opts Uuid) (v : ShardView S Opts)
    (laws : ShardLaws ops v) (w : World Uuid) (limit k : ℕ) where
  -- The position of rows that go into the current shard is no more than the number of all rows.
  pub position_bound :
      (m : MapShard S Opts) (chunks : List (List Bytes)) (current new : List Bytes) (number : ℕ)
      → Contains ops v w limit k m chunks current number
      → 0 < length new
      → length chunks * k + v.returned (length (current ++ new))
        ≤ length (flatten chunks) + length current + length new
  position_bound m chunks current new number c some_new =
      let full =
        length-flatten k chunks
          (Pasts-lengths ops v w limit k m.past_master_shards chunks c.past) in
      let (n, size) =
        predecessor (length (current ++ new)) (omega (arith, length-append current new)) in
      let returned : v.returned (length (current ++ new)) ≤ length (current ++ new) =
        subst (λ j. v.returned j ≤ j) (sym size) (laws.returned_law n) in
      omega (arith, full, returned, length-append current new)
