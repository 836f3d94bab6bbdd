-- ===== src/TempShard/Turns.antt =====
-- The temporary map shards of a collection take turns.
use schema_js.Prelude.{
  ℕ, zero, suc, ◌+◌, ◌-◌, ◌%◌, ◌^◌, ◌<◌, ◌≤◌, ◌≡◌, refl, sym, ap, ◌∙◌, List, [], ◌∷◌, Option, none,
  some, length, get_elem?, arith, inl, inr, ◌==◌, Bool, true, false, if◌then◌else◌, leb, le→leb,
  lt→leb,
}
use schema_js.Prelude.Results.{Result, ok, err, panic, ◌>>=◌}
use schema_js.Prelude.Bytes.{Bytes}
use schema_js.Shard.Errors.{ShardErrors}
use schema_js.Shard.Trait.{Shard}
use schema_js.Uuid.{UuidApi}
use schema_js.MapShard.Ops.{World}
use schema_js.MapShard.Grow.{le_or_lt}
use schema_js.TempShard.Ops.{Behind, TempMapShard, set_at, insert_row}
use schema_js.TempShard.Collection.{TempCollection, get_next_shard, insert_into, insert}
use native.Mathlib.Nat.{mod-add-mod, add-mod_right, mod-eq_of_lt, mod-lt}

length-set_at : {A : Type 0} (xs : List A) (i : ℕ) (y : A) → length (set_at xs i y) ≡ length xs
length-set_at [] i y = refl
length-set_at (x ∷ xs) zero y = refl
length-set_at (x ∷ xs) (suc i) y = ap suc (length-set_at xs i y)

-- How many insertions come before the turn of an index, from a counter on, among `n` of them.
abbrev pub turns_before : ℕ → ℕ → ℕ → ℕ
turns_before counter n index =
    if leb (counter % n) index then index - counter % n else index + n - counter % n

turns_before_lem :
    (counter n index : ℕ)
    → index < n
    → (turns_before counter n index < n) × ((counter + turns_before counter n index) % n ≡ index)
turns_before_lem counter n index below =
    let r = counter % n in
    let small : r < n = mod-lt counter (omega arith) in
    elim (le_or_lt r index) [
      | inl later ↦
          let meets : r + (index - r) ≡ index = omega arith in
          rw (le→leb r index later) (
            omega arith,
            sym (mod-add-mod counter n (index - r)) ∙ ap (λ a. a % n) meets ∙ mod-eq_of_lt below,
          )
      | inr passed ↦
          let meets : r + (index + n - r) ≡ index + n = omega arith in
          rw (lt→leb r index passed) (
            omega arith,
            sym (mod-add-mod counter n (index + n - r))
                ∙ ap (λ a. a % n) meets
                ∙ add-mod_right index n
                ∙ mod-eq_of_lt below,
          )
    ]

-- What an insertion gives.
abbrev Inserted : Type 0 → Type 0 → Type 0 → Type 0
Inserted S Opts X = (TempCollection S Opts X × X) × Result ShardErrors ℕ

module _ {S Opts X Uuid : Type 0} ⦃u : UuidApi Uuid⦄ (ops : Shard S Opts Uuid)
    (w : World Uuid) where
  -- Insertions one after the other, whatever their rows and the ids that are drawn, the errors that
  -- they return included.
  pub data Insertions : ℕ → TempCollection S Opts X → TempCollection S Opts X → Type 0 where
    none_yet : (c : TempCollection S Opts X) → Insertions 0 c c
    one_more :
        (n : ℕ) (c c' c'' : TempCollection S Opts X) (x x' : X) (name_id own_id : Uuid)
        (row : Bytes) (r : Result ShardErrors ℕ)
        → insert ops w c x name_id own_id row ≡ ok ((c', x'), r)
        → Insertions n c' c''
        → Insertions (suc n) c c''

  -- What an insertion does to the counter and to the number of temporary map shards.
  abbrev Moves : TempCollection S Opts X → TempCollection S Opts X → Type 0
  Moves c c' = (c'.counter ≡ (c.counter + 1) % 2 ^ 64) × (length c'.temps ≡ length c.temps)

  abbrev collection_of :
      TempCollection S Opts X → Result ShardErrors (Inserted S Opts X) → TempCollection S Opts X
  collection_of c (ok i) = i.0.0
  collection_of c (err e) = c
  collection_of c panic = c

  insert_into-keeps :
      (c : TempCollection S Opts X) (x : X) (index : ℕ) (name_id own_id : Uuid) (row : Bytes)
      (o : Option (TempMapShard S Opts X)) (i : Inserted S Opts X)
      → insert_into ops w c x index name_id own_id row o ≡ ok i
      → (i.0.0.counter ≡ c.counter) × (length i.0.0.temps ≡ length c.temps)
  insert_into-keeps c x index name_id own_id row none i e = absurd (cc)
  insert_into-keeps c x index name_id own_id row (some t) i e =
      by_cases
        (insert_row ops w t (record { parent_shard = c.target_shard; captured = x }) name_id own_id
          row)
        e
    where
      by_cases :
          (q : Result ShardErrors
            ((TempMapShard S Opts X × Behind S Opts X) × Result ShardErrors ℕ))
          → (q >>= λ p. ok (
            (
              record c { target_shard = p.0.1.parent_shard; temps = set_at c.temps index p.0.0 },
              p.0.1.captured,
            ),
            p.1,
          ))
            ≡ ok i
          → (i.0.0.counter ≡ c.counter) × (length i.0.0.temps ≡ length c.temps)
      by_cases (ok p) h =
          let same = sym (ap (collection_of c) h) in
          (
            ap (λ k. k.counter) same,
            ap (λ k. length k.temps) same ∙ length-set_at c.temps index p.0.0,
          )
      by_cases (err e') h = absurd (cc)
      by_cases panic h = absurd (cc)

  insert-Moves :
      (c : TempCollection S Opts X) (x : X) (name_id own_id : Uuid) (row : Bytes)
      (i : Inserted S Opts X)
      → insert ops w c x name_id own_id row ≡ ok i
      → Moves c i.0.0
  unfolding insert get_next_shard
  insert-Moves c x name_id own_id row i e = by_cases (length c.temps == 0) e
    where
      next : TempCollection S Opts X
      next = record c { counter = (c.counter + 1) % 2 ^ 64 }

      chosen : Bool → Result ShardErrors (TempCollection S Opts X × ℕ)
      chosen none_there = if none_there then panic else ok (next, c.counter % length c.temps)

      by_cases :
          (none_there : Bool)
          → (chosen none_there >>= λ p.
              insert_into ops w p.0 x p.1 name_id own_id row (get_elem? p.0.temps p.1))
            ≡ ok i
          → Moves c i.0.0
      by_cases true h = absurd (cc)
      by_cases false h = insert_into-keeps next x _ name_id own_id row _ i h

  turns-Insertions :
      (d : ℕ) (c c' : TempCollection S Opts X)
      → Insertions d c c'
      → c.counter + d < 2 ^ 64
      → (c'.counter ≡ c.counter + d) × (length c'.temps ≡ length c.temps)
  turns-Insertions _ _ _ (none_yet c) small = (omega arith, refl)
  turns-Insertions _ _ _ (one_more n c m c' x x' name_id own_id row r e rest) small =
      let (moved, kept) = insert-Moves c x name_id own_id row ((m, x'), r) e in
      let at : m.counter ≡ c.counter + 1 = moved ∙ mod-eq_of_lt (omega arith) in
      let (later, same) = turns-Insertions n m c' rest (omega arith) in
      (omega (arith, later, at), same ∙ kept)

  -- Every temporary map shard comes up: before the counter wraps, there is a number of insertions,
  -- below that of the temporary map shards, after which the next one goes to the one in question,
  -- whatever was inserted in between.
  pub get_next_shard-turn :
      (c c' : TempCollection S Opts X) (index : ℕ)
      → index < length c.temps
      → c.counter + length c.temps ≤ 2 ^ 64
      → Insertions (turns_before c.counter (length c.temps) index) c c'
      → (turns_before c.counter (length c.temps) index < length c.temps)
        × (later : TempCollection S Opts X) × (get_next_shard c' ≡ ok (later, index))
  unfolding get_next_shard
  get_next_shard-turn c c' index below small run =
      let (few, meets) = turns_before_lem c.counter (length c.temps) index below in
      let (at, same) =
        turns-Insertions (turns_before c.counter (length c.temps) index) c c' run (omega arith) in
      let some_there : (length c'.temps == 0) ≡ false = ground (arith, same) in
      let place : c'.counter % length c'.temps ≡ index = rw (at, same) meets in
      (few, record c' { counter = (c'.counter + 1) % 2 ^ 64 }, rw (some_there, place) refl)
