-- ===== src/MapShard/Insert.antt =====
-- Inserting rows: nothing is lost, whatever number of shards it takes.
use schema_js.Prelude.{
  ℕ, suc, ◌+◌, ◌*◌, ◌-◌, ◌<◌, ◌≤◌, ◌≡◌, refl, List, [], ◌∷◌, ◌++◌, false, length, flatten, arith,
  inl, inr,
}
use schema_js.Prelude.Bytes.{Bytes}
use schema_js.Shard.Trait.{Shard}
use schema_js.Shard.Laws.{ShardView, ShardLaws}
use schema_js.Uuid.{UuidApi}
use schema_js.MapShard.Ops.{MapShard, World, insert_rows}
use schema_js.MapShard.State.{Outcome, IsGood, Contains}
use schema_js.MapShard.Steps.{step_full}
use schema_js.MapShard.Fill.{Inserted, fill, onward, grow}
use schema_js.MapShard.Grow.{le_or_lt}

module _ {S Opts Uuid : Type 0} ⦃u : UuidApi Uuid⦄ (ops : Shard S Opts Uuid) (v : ShardView S Opts)
    (laws : ShardLaws ops v) (w : World Uuid) (limit : ℕ) (good : IsGood w limit) (k : ℕ)
    (some_room : 0 < k) where
  abbrev Holding : MapShard S Opts → List (List Bytes) → List Bytes → ℕ → Type 0
  Holding = Contains ops v w limit k

  insert_rows-Inserted :
      (before past : ℕ) (rows : List Bytes) (m : MapShard S Opts) (chunks : List (List Bytes))
      (current : List Bytes) (number : ℕ)
      → Holding m chunks current number
      → number + past ≡ before + length chunks
      → number + length rows + 1 ≤ limit
      → 0 < length rows
      → v.Small k (flatten chunks ++ (current ++ rows))
      → Inserted ops v laws w limit good k some_room before past rows
          (flatten chunks ++ (current ++ rows))
          (insert_rows ops w rows m)
  unfolding insert_rows
  insert_rows-Inserted before past rows m chunks current number c numbers fits some_rows small =
      let n = length rows in
      let one : n + 2 ≡ suc (n + 1) = omega arith in
      let inside = laws.within k m.current_master_shard current c.holds in
      rw one (elim (le_or_lt k (length current)) [
        | inl full ↦
            let space = laws.available_space_law k m.current_master_shard current c.holds in
            rw
              (step_full ops w (n + 1) rows false m m (k - length current) refl space (omega arith))
              (grow ops v laws w limit good k some_room before past (n + 1) rows m chunks current
                number (omega arith) some_rows c numbers (omega arith) fits small)
        | inr room ↦
            fill ops v laws w limit good k some_room before past (n + 1) rows false m m chunks
              current number refl c numbers room some_rows small
              (λ m₂ more filled.
                onward ops v laws w limit good k some_room before past (n + 1) rows m₂ chunks
                  current number (grow ops v laws w limit good k some_room before past (n + 1))
                  numbers room (omega arith) (omega arith) small more filled)
      ])

  -- If positions have 64 bits, rows put into a map shard, at least one, stand behind those that it
  -- holds, in their order, through as many new shards as it takes, numbered one after the other,
  -- and nothing fails.
  pub insert_rows-Contains :
      (rows : List Bytes) (m : MapShard S Opts) (chunks : List (List Bytes)) (current : List Bytes)
      (number : ℕ)
      → Holding m chunks current number
      → number + length rows + 1 ≤ limit
      → 0 < length rows
      → v.Small k (flatten chunks ++ (current ++ rows))
      → Outcome ops v w limit k number
          (length chunks)
          (flatten chunks ++ (current ++ rows))
          (insert_rows ops w rows m)
  insert_rows-Contains rows m chunks current number c fits some_rows small =
      (insert_rows-Inserted number (length chunks) rows m chunks current number c refl fits
        some_rows small).outcome

  -- Rows that are put into a map shard, at least one, leave the current shard with one.
  pub insert_rows-used :
      (rows : List Bytes) (m : MapShard S Opts) (chunks : List (List Bytes)) (current : List Bytes)
      (number : ℕ)
      → Holding m chunks current number
      → number + length rows + 1 ≤ limit
      → 0 < length rows
      → v.Small k (flatten chunks ++ (current ++ rows))
      → (o : Outcome ops v w limit k number
          (length chunks)
          (flatten chunks ++ (current ++ rows))
          (insert_rows ops w rows m))
        × (0 < length o.current)
  insert_rows-used rows m chunks current number c fits some_rows small =
      let i =
        insert_rows-Inserted number (length chunks) rows m chunks current number c refl fits
          some_rows small in
      (i.outcome, i.used some_rows)

  -- One row becomes the last of the current shard, and the position returned is the number of full
  -- past shards times the capacity, plus what the current shard's `insert_item` returned.
  pub insert_row-position :
      (row : Bytes) (m : MapShard S Opts) (chunks : List (List Bytes)) (current : List Bytes)
      (number : ℕ)
      → Holding m chunks current number
      → number + 2 ≤ limit
      → v.Small k (flatten chunks ++ (current ++ (row ∷ [])))
      → (o : Outcome ops v w limit k number
          (length chunks)
          (flatten chunks ++ (current ++ (row ∷ [])))
          (insert_rows ops w (row ∷ []) m))
        × (front : List Bytes) × (o.current ≡ front ++ (row ∷ []))
        × (o.position ≡ length o.chunks * k + v.returned (length o.current))
  insert_row-position row m chunks current number c fits small =
      let i =
        insert_rows-Inserted number (length chunks) (row ∷ []) m chunks current number c refl
          (omega arith) (omega arith) small in
      let (front, ends, at) = i.single refl in (i.outcome, front, ends, at)
