-- ===== src/MapShard/Fill.antt =====
-- Filling the current shard, and going on with new ones.
use schema_js.Prelude.{
  ℕ, zero, suc, ◌+◌, ◌*◌, ◌-◌, ◌<◌, ◌≤◌, ◌≡◌, refl, sym, ap, subst, ◌∙◌, List, [], ◌∷◌, ◌++◌, Bool,
  true, length, length-append, take, drop, take-append-drop, length-take, length-drop, flatten,
  flatten-append, append_assoc, append-nil, arith, inl, inr,
}
use schema_js.Prelude.Results.{Result, ok}
use schema_js.Prelude.Bytes.{Bytes, IsU64}
use schema_js.Shard.Errors.{ShardErrors, AvailableSpace}
use schema_js.Shard.Trait.{Shard}
use schema_js.Shard.Laws.{ShardView, ShardLaws}
use schema_js.Uuid.{UuidApi}
use schema_js.MapShard.Ops.{MapShard, World, create_if, raw_insert_rows}
use schema_js.MapShard.Bounds.{times_mono, once, sum_bound, position_bound}
use schema_js.MapShard.State.{Outcome, IsGood, Contains}
use schema_js.MapShard.Steps.{step_done, step_more}
use schema_js.MapShard.Grow.{le_or_lt, create_new_shard-Contains, insert_into_current-Contains}

module _ {S Opts Uuid : Type 0} ⦃u : UuidApi Uuid⦄ (ops : Shard S Opts Uuid) (v : ShardView S Opts)
    (laws : ShardLaws ops v) (w : World Uuid) (limit : ℕ) (good : IsGood w limit) (k : ℕ)
    (some_room : 0 < k) where
  abbrev Holding : MapShard S Opts → List (List Bytes) → List Bytes → ℕ → Type 0
  Holding = Contains ops v w limit k

  pub record Inserted (before past : ℕ) (rows all : List Bytes)
      (r : Result ShardErrors (MapShard S Opts × ℕ)) : Type 0 where
    pub outcome : Outcome ops v w limit k before past all r
    pub used : 0 < length rows → 0 < length outcome.current
    pub bounded : outcome.position ≤ length rows * length all
    pub single :
        length rows ≡ 1
        → (front : List Bytes) × (outcome.current ≡ front ++ rows)
          × (outcome.position ≡ length outcome.chunks * k + v.returned (length outcome.current))

  pub fill :
      (before past fuel : ℕ) (rows : List Bytes) (create : Bool) (m m₁ : MapShard S Opts)
      (chunks : List (List Bytes)) (current : List Bytes) (number : ℕ)
      → create_if ops w create m ≡ ok m₁
      → Holding m₁ chunks current number
      → number + past ≡ before + length chunks
      → length current < k
      → 0 < length rows
      → v.Small k (flatten chunks ++ (current ++ rows))
      → ((m₂ : MapShard S Opts)
          → k - length current < length rows
          → Holding m₂ chunks (current ++ take (k - length current) rows) number
          → Inserted before past
              (drop (k - length current) rows)
              (flatten chunks ++ (current ++ rows))
              (raw_insert_rows ops w fuel (drop (k - length current) rows) true m₂))
      → Inserted before past rows
          (flatten chunks ++ (current ++ rows))
          (raw_insert_rows ops w (suc fuel) rows create m)
  fill before past fuel rows create m m₁ chunks current number made c numbers room some_rows small
        rec =
      elim (le_or_lt (length rows) size) [
        | inl all ↦
            let (m₂, put, held) =
              insert_into_current-Contains ops v laws w limit good k some_room m₁ chunks current
                rows number c (omega arith) (small_of rows [] (sym (append-nil rows)))
                (omega (arith, at_most rows (omega arith) some_rows, all_fit)) in
            record {
              outcome = record {
                after = m₂;
                position = length chunks * k + v.returned (length (current ++ rows));
                chunks = chunks;
                current = current ++ rows;
                number = number;
                returns =
                    step_done ops w fuel rows create m m₁ size made space m₂ _ (omega arith) all
                      put;
                contains = held;
                items = refl;
                numbered = numbers;
              };
              used = λ h. omega (arith, length-append current rows);
              bounded = omega (
                arith,
                at_most rows (omega arith) some_rows,
                once (length rows) (length whole) some_rows,
              );
              single = λ e. (current, refl, refl);
            }
        | inr more ↦
            let fits = length-take size rows in
            let cut = length-drop size rows in
            let first = at_most (take size rows) (omega arith) (omega arith) in
            let (m₂, put, held) =
              insert_into_current-Contains ops v laws w limit good k some_room m₁ chunks current
                (take size rows) number c (omega arith)
                (small_of (take size rows) (drop size rows) (sym (take-append-drop size rows)))
                (omega (arith, first, all_fit)) in
            let next = rec m₂ more held in
            let rest = next.outcome in
            let sum : position_of (take size rows) + rest.position ≤ length rows * length whole =
              sum_bound (length rows) (length (drop size rows)) (length whole) _ rest.position
                (omega arith) first next.bounded in
            record {
              outcome = record {
                after = rest.after;
                position = _;
                chunks = rest.chunks;
                current = rest.current;
                number = rest.number;
                returns =
                    step_more ops w fuel rows create m m₁ size made space m₂ rest.after _
                      rest.position (omega arith) more put rest.returns
                      (omega (arith, sum, square));
                contains = rest.contains;
                items = rest.items;
                numbered = rest.numbered;
              };
              used = λ h. next.used (omega (arith, cut));
              bounded = sum;
              single = λ e. absurd (omega arith);
            }
      ]
    where
      whole : List Bytes
      whole = flatten chunks ++ (current ++ rows)

      count : length whole ≡ length (flatten chunks) + length current + length rows
      count =
          omega
            (arith, length-append (flatten chunks) (current ++ rows), length-append current rows)

      few : IsU64 (length whole * length whole)
      few = laws.small_few k whole small

      all_fit : IsU64 (length whole)
      all_fit =
          omega (arith, once (length whole) (length whole) (omega (arith, count, some_rows)), few)

      square : IsU64 (length rows * length whole)
      square = omega (arith, few, times_mono (length rows) (length whole) (omega (arith, count)))

      position_of : List Bytes → ℕ
      position_of new = length chunks * k + v.returned (length (current ++ new))

      at_most :
          (new : List Bytes)
          → length new ≤ length rows
          → 0 < length new
          → position_of new ≤ length whole
      at_most new part some_new = omega (
        arith,
        position_bound ops v laws w limit k m₁ chunks current new number c some_new,
        count,
        part,
      )

      size : ℕ
      size = k - length current

      space : ops.available_space m₁.current_master_shard ≡ ok (AvailableSpace.fixed size)
      space = laws.available_space_law k m₁.current_master_shard current c.holds

      small_of : (new rest : List Bytes) → rows ≡ new ++ rest → v.Small k (current ++ new)
      small_of new rest e = laws.small_part k (flatten chunks) (current ++ new) rest (
          subst (v.Small k) (ap (λ d. flatten chunks ++ (current ++ d)) e ∙ simp append_assoc)
            small)

  regrouped :
      (chunks : List (List Bytes)) (current rows : List Bytes)
      → flatten (chunks ++ (current ∷ [])) ++ ([] ++ rows) ≡ flatten chunks ++ (current ++ rows)
  regrouped chunks current rows = simp (flatten-append, append_assoc, append-nil)

  -- What a call with `fuel` does when it begins with a new shard.
  abbrev Grows : ℕ → ℕ → ℕ → Type 0
  Grows before past fuel =
      (rows : List Bytes) (m : MapShard S Opts) (chunks : List (List Bytes)) (current : List Bytes)
      (number : ℕ)
      → length rows < fuel
      → 0 < length rows
      → Holding m chunks current number
      → number + past ≡ before + length chunks
      → length current ≡ k
      → number + length rows + 1 ≤ limit
      → v.Small k (flatten chunks ++ (current ++ rows))
      → Inserted before past rows (flatten chunks ++ (current ++ rows))
          (raw_insert_rows ops w fuel rows true m)

  -- The rest of the rows, once the current shard is filled.
  pub onward :
      (before past fuel : ℕ) (rows : List Bytes) (m : MapShard S Opts) (chunks : List (List Bytes))
      (current : List Bytes) (number : ℕ)
      → Grows before past fuel
      → number + past ≡ before + length chunks
      → length current < k
      → length rows < fuel + (k - length current)
      → number + length rows ≤ limit
      → v.Small k (flatten chunks ++ (current ++ rows))
      → k - length current < length rows
      → Holding m chunks (current ++ take (k - length current) rows) number
      → Inserted before past
          (drop (k - length current) rows)
          (flatten chunks ++ (current ++ rows))
          (raw_insert_rows ops w fuel (drop (k - length current) rows) true m)
  onward before past fuel rows m chunks current number grows numbers room enough fits small more
        filled =
      let size = k - length current in
      let whole : flatten chunks ++ ((current ++ take size rows) ++ drop size rows)
          ≡ flatten chunks ++ (current ++ rows) =
        ap (λ r. flatten chunks ++ r)
          (append_assoc current (take size rows) (drop size rows)
            ∙ ap (λ r. current ++ r) (take-append-drop size rows)) in
      let d = length-drop size rows in
      let t = length-take size rows in
      let a = length-append current (take size rows) in
      subst
        (λ all.
          Inserted before past (drop size rows) all
            (raw_insert_rows ops w fuel (drop size rows) true m))
        whole
        (grows (drop size rows) m chunks (current ++ take size rows) number (omega arith)
          (omega arith) filled numbers (omega arith) (omega arith)
          (subst (v.Small k) (sym whole) small))

  pub grow : (before past fuel : ℕ) → Grows before past fuel
  grow before past zero rows m chunks current number enough some_rows c numbers full fits small =
      absurd (omega arith)
  grow before past (suc fuel) rows m chunks current number enough some_rows c numbers full fits
        small =
      let nothing = laws.small_part k [] [] (flatten chunks ++ (current ++ rows)) small in
      let (m₁, made, held) =
        create_new_shard-Contains ops v laws w limit good k some_room m chunks current number c full
          (omega arith) nothing in
      let e = regrouped chunks current rows in
      let next : number + 1 + past ≡ before + length (chunks ++ (current ∷ [])) =
        omega (arith, length-append chunks (current ∷ [])) in
      let small₁ = subst (v.Small k) (sym e) small in
      subst (λ all. Inserted before past rows all (raw_insert_rows ops w (suc fuel) rows true m)) e
        (fill before past fuel rows true m m₁ (chunks ++ (current ∷ [])) [] (number + 1) made held
          next some_room some_rows small₁
          (λ m₂ more filled.
            onward before past fuel rows m₂ (chunks ++ (current ∷ [])) [] (number + 1)
              (grow before past fuel) next some_room (omega arith) (omega arith) small₁ more
              filled))
