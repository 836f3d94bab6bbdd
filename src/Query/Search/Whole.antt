-- ===== src/Query/Search/Whole.antt =====
-- A query that one index serves, and a single condition.
use schema_js.Prelude.{
  ℕ, ◌≡◌, refl, sym, ap, subst, List, [], ◌∷◌, map, Option, none, some, true, false, Bool-cases,
  inl, inr, All, Option-cases,
}
use schema_js.Prelude.Results.{Result, ok, ◌>>=◌, unwrap_or}
use schema_js.MapShard.State.{text_eq→eq}
use schema_js.Index.Entry.{NoEntry}
use schema_js.Index.Keys.{CompositeKey}
use schema_js.Index.Hash.{IndexOps}
use schema_js.Primitives.Column.{Text}
use schema_js.Primitives.Table.{Index}
use schema_js.Primitives.Value.{ValueText, to_string}
use schema_js.Query.Ops.{QueryVal, QueryOps}
use schema_js.Query.TableShard.{TableShard}
use schema_js.Query.Search.{
  key_part, paired, with_key, contains_text, is_subset, is_only_member, to_list,
  find_index_for_conditions, get_index_for_condition, generate_index_key, find_index_for_query,
  collect_conditions, indexed, pointers,
}
use schema_js.Query.Search.Meaning.{HasPart, Meets, Agree, AgreeIn, Answers, Serves}
use schema_js.Query.Search.Keys.{
  generate_index_key-members, generate_index_key-HasPart, Meets-collected,
}
use mathlib.Core.Option.{none-ne-some}

only_member_lem :
    (members : List Text) (key : Text) → is_only_member members key ≡ true → members ≡ key ∷ []
only_member_lem [] key h = absurd (cc)
only_member_lem (member ∷ []) key h = ap (λ m. m ∷ []) (text_eq→eq member key h)
only_member_lem (member ∷ other ∷ members) key h = absurd (cc)

paired-some :
    {A B : Type 0} (a : A) (o : Option B) (found : A × B)
    → paired a o ≡ some found
    → (a ≡ found.0) × (o ≡ some found.1)
paired-some a none found e = absurd (none-ne-some found e)
paired-some a (some b) found e =
    (ap (λ o. (unwrap_or o found).0) e, ap (λ o. some (unwrap_or o found).1) e)

module _ {Uuid Number : Type 0} where
  with_key-some :
      (print : ValueText Uuid Number) (conditions : List (QueryVal Uuid Number)) (o : Option Index)
      (found : Index × CompositeKey)
      → with_key print conditions o ≡ some found
      → (o ≡ some found.0) × (generate_index_key print found.0.members conditions ≡ some found.1)
  with_key-some print conditions none found e = absurd (none-ne-some found e)
  with_key-some print conditions (some index) found e =
      let (same, made) =
        paired-some index (generate_index_key print index.members conditions) found e in
      (
        ap (λ i. some i) same,
        subst (λ i. generate_index_key print i.members conditions ≡ some found.1) same made,
      )

  subset-All :
      (conditions : List (QueryVal Uuid Number)) (members : List Text)
      → is_subset (map (λ cond. cond.key) conditions) members ≡ true
      → All (λ c. contains_text c.key members ≡ true) conditions
  subset-All [] members h = tt
  subset-All (c ∷ conditions) members h = elim (Bool-cases (contains_text c.key members)) [
    | inl inside ↦ (inside, subset-All conditions members (rw inside at h))
    | inr outside ↦ let no : false ≡ true = rw outside at h in absurd (cc)
  ]

  -- The index that is found is one of the table's, with the columns of all conditions.
  find_index_for_conditions-All :
      (P : Index → Type 0) (conditions : List (QueryVal Uuid Number)) (indexes : List Index)
      (index : Index)
      → All P indexes
      → find_index_for_conditions conditions indexes ≡ some index
      → P index × (is_subset (map (λ cond. cond.key) conditions) index.members ≡ true)
  unfolding find_index_for_conditions
  find_index_for_conditions-All P conditions [] index h e = absurd (none-ne-some index e)
  find_index_for_conditions-All P conditions (i ∷ indexes) index h e =
      elim (Bool-cases (is_subset (map (λ cond. cond.key) conditions) i.members)) [
        | inl inside ↦
            let is : i ≡ index = ap (λ o. unwrap_or o i) (rw inside at e) in
            subst (λ i. P i × (is_subset (map (λ cond. cond.key) conditions) i.members ≡ true)) is
              (h.0, inside)
        | inr outside ↦
            find_index_for_conditions-All P conditions indexes index h.1 (rw outside at e)
      ]

  pub get_index_for_condition-All :
      (P : Index → Type 0) (cond : QueryVal Uuid Number) (indexes : List Index) (index : Index)
      → All P indexes
      → get_index_for_condition cond indexes ≡ some index
      → P index × (index.members ≡ cond.key ∷ [])
  unfolding get_index_for_condition
  get_index_for_condition-All P cond [] index h e = absurd (none-ne-some index e)
  get_index_for_condition-All P cond (i ∷ indexes) index h e =
      elim (Bool-cases (is_only_member i.members cond.key)) [
        | inl only ↦
            let is : i ≡ index = ap (λ o. unwrap_or o i) (rw only at e) in
            subst (λ i. P i × (i.members ≡ cond.key ∷ [])) is
              (h.0, only_member_lem i.members cond.key only)
        | inr other ↦ get_index_for_condition-All P cond indexes index h.1 (rw other at e)
      ]

module _ {Ident Uuid Number I : Type 0} (print : ValueText Uuid Number) (index_ops : IndexOps I)
    (tbl : TableShard Ident I) (text_at : ℕ → Text → Option Text) where
  -- Rows that are returned, and meet what is asked of them.
  pub record Returns (P : ℕ → Type 0) (r : Result NoEntry (List ℕ)) : Type 0 where
    pub rows : List ℕ
    pub returns : r ≡ ok rows
    pub all_meet : All P rows

  pub rows_of :
      (P : ℕ → Type 0) (indx : I) (key : CompositeKey)
      → Answers print text_at index_ops tbl (index_ops.get indx (index_ops.to_key indx key)) key
      → ((n : ℕ) → All (HasPart print text_at n) key → P n)
      → Returns P (pointers print index_ops tbl indx key)
  rows_of P indx key a h = record {
    rows = to_list a.pointer;
    returns = ap (λ r. r >>= λ pointer. ok (to_list pointer)) a.returns;
    all_meet = each a.pointer a.rows;
  }
    where
      each :
          (o : Option ℕ)
          → All (λ n. All (HasPart print text_at n) key) (to_list o)
          → All P (to_list o)
      each none g = tt
      each (some n) g = (h n g.0, tt)

  each_condition :
      (n : ℕ) (members : List Text) (conditions : List (QueryVal Uuid Number)) (key : CompositeKey)
      (some_of : List (QueryVal Uuid Number))
      → generate_index_key print members conditions ≡ some key
      → All (HasPart print text_at n) key
      → All
          (λ c.
            All (λ d. c.key ≡ d.key → to_string print c.value ≡ to_string print d.value) conditions)
          some_of
      → All (λ c. contains_text c.key members ≡ true) some_of
      → All (λ c. HasPart print text_at n (key_part print c)) some_of
  each_condition n members conditions key [] e has agree inside = tt
  each_condition n members conditions key (c ∷ some_of) e has agree inside = (
    generate_index_key-HasPart print text_at n members conditions key c e has agree.0 inside.0,
    each_condition n members conditions key some_of e has agree.1 inside.1,
  )

  by_name :
      (index : Index) (key : CompositeKey) (serves : Serves print text_at index_ops tbl index)
      → indexed print index_ops tbl (index, key) ≡ pointers print index_ops tbl serves.indx key
  by_name index key serves = rw (indexed, serves.registered) refl

  with_conditions :
      (query : QueryOps Uuid Number) (found : Index × CompositeKey)
      → All (Serves print text_at index_ops tbl) tbl.table.indexes
      → (conditions : List (QueryVal Uuid Number)) → collect_conditions query ≡ some conditions
      → Agree print conditions
      → with_key print conditions (find_index_for_conditions conditions tbl.table.indexes)
        ≡ some found
      → Returns (λ n. Meets print text_at n query) (indexed print index_ops tbl found)
  with_conditions query found serve conditions cs agree e =
      let index = found.0 in
      let key = found.1 in
      let (at, made) =
        with_key-some print conditions (find_index_for_conditions conditions tbl.table.indexes)
          found e in
      let (serves, inside) =
        find_index_for_conditions-All (Serves print text_at index_ops tbl) conditions
          tbl.table.indexes index serve at in
      subst (Returns (λ n. Meets print text_at n query)) (sym (by_name index key serves)) (
        rows_of (λ n. Meets print text_at n query) serves.indx key
          (serves.answers key (generate_index_key-members print index.members conditions key made))
          (λ n has. Meets-collected print text_at n query conditions cs (
            each_condition n index.members conditions key conditions made has agree
              (subset-All conditions index.members inside))))

  pub whole_query :
      (query : QueryOps Uuid Number) (found : Index × CompositeKey)
      → All (Serves print text_at index_ops tbl) tbl.table.indexes
      → AgreeIn print (collect_conditions query)
      → find_index_for_query print query tbl.table.indexes ≡ some found
      → Returns (λ n. Meets print text_at n query) (indexed print index_ops tbl found)
  unfolding find_index_for_query
  whole_query query found serve agree e = elim (Option-cases (collect_conditions query)) [
    | inl none_there ↦ absurd (none-ne-some found (rw none_there at e))
    | inr (conditions, cs) ↦
        with_conditions query found serve conditions cs (subst (AgreeIn print) cs agree)
          (rw cs at e)
  ]
