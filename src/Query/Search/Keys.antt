-- ===== src/Query/Search/Keys.antt =====
-- The key for an index of a whole query holds every condition of it.
use schema_js.Prelude.{
  ℕ, ◌≡◌, refl, sym, ap, ap₂, subst, ◌∙◌, List, [], ◌∷◌, ◌++◌, map, Option, none, some, true,
  Bool-cases, inl, inr, All,
}
use mathlib.Core.Option.{none-ne-some}
use schema_js.Prelude.Results.{unwrap_or}
use schema_js.MapShard.Ops.{text_eq}
use schema_js.MapShard.State.{text_eq→eq}
use schema_js.KvShard.Layout.{All-front, All-back}
use schema_js.Index.Keys.{CompositeKey}
use schema_js.Primitives.Column.{Text}
use schema_js.Primitives.Value.{ValueText, to_string}
use schema_js.Query.Ops.{QueryVal, QueryOps, and, or, condition, QueryList, no_ops, more_ops}
use schema_js.Query.Search.{
  key_part, part_of, more_parts, appended, contains_text, find_condition, generate_index_key,
  collect_conditions, collect_all,
}
use schema_js.Query.Search.Meaning.{HasPart, Meets, MeetsAll}

more_parts-some :
    (p : Option (Text × Text)) (parts : Option CompositeKey) (key : CompositeKey)
    → more_parts p parts ≡ some key
    → (part : Text × Text) × (rest : CompositeKey) × (p ≡ some part)
      × (parts ≡ some rest)
      × (key ≡ part ∷ rest)
more_parts-some none parts key h = absurd (none-ne-some key h)
more_parts-some (some part) none key h = absurd (none-ne-some key h)
more_parts-some (some part) (some rest) key h =
    (part, rest, refl, refl, ap (λ o. unwrap_or o key) (sym h))

module _ {Uuid Number : Type 0} (print : ValueText Uuid Number) where
  part_of-some :
      (o : Option (QueryVal Uuid Number)) (part : Text × Text)
      → part_of print o ≡ some part
      → (cond : QueryVal Uuid Number) × (o ≡ some cond) × (part ≡ key_part print cond)
  part_of-some none part h = absurd (none-ne-some part h)
  part_of-some (some cond) part h = (cond, refl, ap (λ o. unwrap_or o part) (sym h))

  appended-some :
      (child all : Option (List (QueryVal Uuid Number))) (conditions : List (QueryVal Uuid Number))
      → appended child all ≡ some conditions
      → (first : List (QueryVal Uuid Number)) × (rest : List (QueryVal Uuid Number)) × (child
          ≡ some first)
        × (all ≡ some rest)
        × (conditions ≡ first ++ rest)
  appended-some none all conditions h = absurd (none-ne-some conditions h)
  appended-some (some first) none conditions h = absurd (none-ne-some conditions h)
  appended-some (some first) (some rest) conditions h =
      (first, rest, refl, refl, ap (λ o. unwrap_or o conditions) (sym h))

  -- The condition that is found is one of them, on the member.
  find_condition-All :
      (P : QueryVal Uuid Number → Type 0) (conditions : List (QueryVal Uuid Number)) (member : Text)
      (found : QueryVal Uuid Number)
      → All P conditions
      → find_condition conditions member ≡ some found
      → P found
  unfolding find_condition
  find_condition-All P [] member found h e = absurd (none-ne-some found e)
  find_condition-All P (cond ∷ conditions) member found h e =
      elim (Bool-cases (text_eq cond.key member)) [
        | inl same ↦ subst P (ap (λ o. unwrap_or o cond) (rw same at e)) h.0
        | inr other ↦ find_condition-All P conditions member found h.1 (rw other at e)
      ]

  find_condition-key :
      (conditions : List (QueryVal Uuid Number)) (member : Text) (found : QueryVal Uuid Number)
      → find_condition conditions member ≡ some found
      → found.key ≡ member
  unfolding find_condition
  find_condition-key [] member found e = absurd (none-ne-some found e)
  find_condition-key (cond ∷ conditions) member found e =
      elim (Bool-cases (text_eq cond.key member)) [
        | inl same ↦
            sym (ap (λ o. (unwrap_or o cond).key) (rw same at e)) ∙ text_eq→eq cond.key member same
        | inr other ↦ find_condition-key conditions member found (rw other at e)
      ]

  -- A key has the members of the index as its columns.
  pub generate_index_key-members :
      (members : List Text) (conditions : List (QueryVal Uuid Number)) (key : CompositeKey)
      → generate_index_key print members conditions ≡ some key
      → map (λ part. part.0) key ≡ members
  unfolding generate_index_key
  generate_index_key-members [] conditions key h =
      ap (λ o. map (λ part. part.0) (unwrap_or o key)) (sym h)
  generate_index_key-members (member ∷ members) conditions key h =
      let (part, rest, found, more, e) = more_parts-some _ _ key h in
      let (cond, is, same) = part_of-some (find_condition conditions member) part found in
      ap (λ k. map (λ part. part.0) k) e
      ∙ ap₂ (λ c cs. c ∷ cs) (ap (λ p. p.0) same ∙ find_condition-key conditions member cond is)
          (generate_index_key-members members conditions rest more)

  -- A row that has the parts of the key meets each condition on a member of the index.
  pub generate_index_key-HasPart :
      (text_at : ℕ → Text → Option Text) (n : ℕ) (members : List Text)
      (conditions : List (QueryVal Uuid Number)) (key : CompositeKey) (c : QueryVal Uuid Number)
      → generate_index_key print members conditions ≡ some key
      → All (HasPart print text_at n) key
      → All (λ d. c.key ≡ d.key → to_string print c.value ≡ to_string print d.value) conditions
      → contains_text c.key members ≡ true
      → HasPart print text_at n (key_part print c)
  unfolding generate_index_key
  generate_index_key-HasPart text_at n [] conditions key c h has agree inside = absurd (cc)
  generate_index_key-HasPart text_at n (member ∷ members) conditions key c h has agree inside =
      let (part, rest, found, more, e) = more_parts-some _ _ key h in
      let (cond, is, same) = part_of-some (find_condition conditions member) part found in
      let parts = subst (All (HasPart print text_at n)) e has in
      elim (Bool-cases (text_eq member c.key)) [
        | inl here ↦
            let one : c.key ≡ cond.key =
              sym (text_eq→eq member c.key here)
              ∙ sym (find_condition-key conditions member cond is) in
            let texts =
              find_condition-All
                (λ d. c.key ≡ d.key → to_string print c.value ≡ to_string print d.value) conditions
                member cond agree is in
            subst (HasPart print text_at n) (same ∙ sym (ap₂ (λ k t. (k, t)) one (texts one)))
              parts.0
        | inr there ↦
            generate_index_key-HasPart text_at n members conditions rest c more parts.1 agree
              (rw there at inside)
      ]

  -- A row that meets the conditions that were collected meets the query.
  mutual
    unfolding collect_conditions

    pub Meets-collected :
        (text_at : ℕ → Text → Option Text) (n : ℕ) (query : QueryOps Uuid Number)
        (conditions : List (QueryVal Uuid Number))
        → collect_conditions query ≡ some conditions
        → All (λ c. HasPart print text_at n (key_part print c)) conditions
        → Meets print text_at n query
    Meets-collected text_at n (condition cond) conditions e h =
        (subst (All (λ c. HasPart print text_at n (key_part print c)))
          (sym (ap (λ o. unwrap_or o conditions) e)) h).0
    Meets-collected text_at n (and ops) conditions e h =
        MeetsAll-collected text_at n ops conditions e h
    Meets-collected text_at n (or ops) conditions e h = absurd (none-ne-some conditions e)

    pub MeetsAll-collected :
        (text_at : ℕ → Text → Option Text) (n : ℕ) (ops : QueryList Uuid Number)
        (conditions : List (QueryVal Uuid Number))
        → collect_all ops ≡ some conditions
        → All (λ c. HasPart print text_at n (key_part print c)) conditions
        → MeetsAll print text_at n ops
    MeetsAll-collected text_at n no_ops conditions e h = tt
    MeetsAll-collected text_at n (more_ops op ops) conditions e h =
        let (first, rest, one, more, parts) =
          appended-some (collect_conditions op) (collect_all ops) conditions e in
        let all = subst (All (λ c. HasPart print text_at n (key_part print c))) parts h in
        (
          Meets-collected text_at n op first one (All-front _ first rest all),
          MeetsAll-collected text_at n ops rest more (All-back _ first rest all),
        )
