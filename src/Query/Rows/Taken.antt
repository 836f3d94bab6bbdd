-- ===== src/Query/Rows/Taken.antt =====
-- What the indexes take of the entries that wait for them.
use schema_js.Prelude.{
  ℕ, ◌≡◌, refl, sym, ap, subst, ◌∙◌, List, [], ◌∷◌, ◌++◌, Option, none, some, true, false,
  Bool-cases, Option-cases, inl, inr, All,
}
use schema_js.Prelude.Results.{Result, ok, ◌>>=◌, unwrap_or}
use schema_js.MapShard.Ops.{text_eq, index_map_insert}
use schema_js.MapShard.State.{text_eq→eq}
use schema_js.Index.Types.{IndexKeyType}
use schema_js.Index.Hash.{IndexOps}
use schema_js.Primitives.Column.{Text}
use schema_js.Primitives.Table.{
  lookup, text_eq_refl, lookup-index_map_insert, lookup_other-index_map_insert,
}
use schema_js.Primitives.Value.{ValueText}
use schema_js.Query.Errors.{QueryError}
use schema_js.Query.Row.{Row}
use schema_js.Query.Rows.{Pending, push_item, insert_pending}
use schema_js.Query.Rows.Pending.{lookup-push_item}

-- The tests of two names agree.
flipped : (a b : Text) → text_eq a b ≡ false → text_eq b a ≡ false
flipped a b h = elim (Bool-cases (text_eq b a)) [
  | inl same ↦
      let here : text_eq a b ≡ true =
        subst (λ t. text_eq t b ≡ true) (text_eq→eq b a same) (text_eq_refl b) in
      absurd (cc)
  | inr differ ↦ differ
]

-- No name waits twice.
abbrev pub Distinct : Pending → Type 0
Distinct [] = Unit
Distinct ((name, items) ∷ pending) = (lookup name pending ≡ none) × Distinct pending

pub push_item-Distinct :
    (added : Text) (item : IndexKeyType × ℕ) (pending : Pending)
    → Distinct pending
    → Distinct (push_item added item pending)
unfolding push_item lookup
push_item-Distinct added item [] d = (refl, tt)
push_item-Distinct added item ((other, items) ∷ pending) (absent, d) =
    elim (Bool-cases (text_eq other added)) [
      | inl here ↦ rw here (absent, d)
      | inr elsewhere ↦ rw elsewhere (
        lookup-push_item added item other pending ∙ rw (flipped other added elsewhere) absent,
        push_item-Distinct added item pending d,
      )
    ]

abbrev pub Filled : List (IndexKeyType × ℕ) → Type 0
Filled [] = ⊥
Filled (item ∷ items) = Unit

append-Filled :
    (items : List (IndexKeyType × ℕ)) (item : IndexKeyType × ℕ) → Filled (items ++ (item ∷ []))
append-Filled [] item = tt
append-Filled (other ∷ items) item = tt

-- Every name that waits is that of an index, and has entries.
abbrev pub Served : {I : Type 0} → List (Text × I) → Pending → Type 0
Served {I} indexes pending =
    All (λ p. ((i : I) × (lookup p.0 indexes ≡ some i)) × Filled p.1) pending

pub push_item-Served :
    {I : Type 0} (indexes : List (Text × I)) (added : Text) (item : IndexKeyType × ℕ)
    (pending : Pending) (i : I)
    → lookup added indexes ≡ some i
    → Served indexes pending
    → Served indexes (push_item added item pending)
unfolding push_item
push_item-Served indexes added item [] i there s = (((i, there), tt), tt)
push_item-Served indexes added item ((other, items) ∷ pending) i there (first, s) =
    elim (Bool-cases (text_eq other added)) [
      | inl here ↦ rw here ((first.0, append-Filled items item), s)
      | inr elsewhere ↦ rw elsewhere (first, push_item-Served indexes added item pending i there s)
    ]

pub lookup-Filled :
    {I : Type 0} (indexes : List (Text × I)) (pending : Pending) (name : Text)
    (items : List (IndexKeyType × ℕ))
    → Served indexes pending
    → lookup name pending ≡ some items
    → Filled items
unfolding lookup
lookup-Filled indexes [] name items s h = absurd (cc)
lookup-Filled indexes ((other, found) ∷ pending) name items (first, s) h =
    elim (Bool-cases (text_eq other name)) [
      | inl here ↦
          let same : some found ≡ some items = rw (lookup, here) at h in
          let items_same : found ≡ items = cc in subst Filled items_same first.1
      | inr elsewhere ↦ lookup-Filled indexes pending name items s (rw (lookup, elsewhere) at h)
    ]

-- An index after it took entries, if there are any.
abbrev pub after_taking :
    {I : Type 0}
    → (I → List (IndexKeyType × ℕ) → I)
    → Option (List (IndexKeyType × ℕ))
    → Option I
    → Option I
after_taking taken none o = o
after_taking taken (some items) none = none
after_taking taken (some items) (some i) = some (taken i items)

module _ {T Uuid Number I : Type 0} (print : ValueText Uuid Number) (rows : Row T Uuid Number)
    (index_ops : IndexOps I) where
  -- Also after a value of one index is changed.
  Served-index_map_insert :
      (name : Text) (i : I) (indexes : List (Text × I)) (pending : Pending)
      → Served indexes pending
      → Served (index_map_insert name i indexes) pending
  Served-index_map_insert name i indexes [] s = tt
  Served-index_map_insert name i indexes ((other, items) ∷ pending) (((j, there), f), s) =
      let rest = Served-index_map_insert name i indexes pending s in
      elim (Bool-cases (text_eq name other)) [
        | inl same ↦ (
          (
            (
              i,
              ap (λ n. lookup n (index_map_insert name i indexes))
                    (sym (text_eq→eq name other same))
                  ∙ lookup-index_map_insert name i indexes,
            ),
            f,
          ),
          rest,
        )
        | inr differ ↦
            (((j, lookup_other-index_map_insert name other i indexes differ ∙ there), f), rest)
      ]

  -- Each index that entries wait for takes them.
  abbrev pub Accepts : (I → List (IndexKeyType × ℕ) → I) → List (Text × I) → Pending → Type 0
  Accepts taken indexes pending =
      (name : Text) (items : List (IndexKeyType × ℕ)) (i : I)
      → lookup name pending ≡ some items
      → lookup name indexes ≡ some i
      → index_ops.bulk_insert i items ≡ ok (taken i items)

  -- The entries of one index are taken: those of the others wait as before.
  Accepts-rest :
      (taken : I → List (IndexKeyType × ℕ) → I) (indexes : List (Text × I)) (name : Text)
      (items : List (IndexKeyType × ℕ)) (pending : Pending) (next : I)
      → lookup name pending ≡ none
      → Accepts taken indexes ((name, items) ∷ pending)
      → Accepts taken (index_map_insert name next indexes) pending
  unfolding lookup
  Accepts-rest taken indexes name items pending next absent accepts n its i waits there =
      elim (Bool-cases (text_eq name n)) [
        | inl same ↦
            let gone : lookup n pending ≡ none =
              ap (λ m. lookup m pending) (sym (text_eq→eq name n same)) ∙ absent in
            absurd (cc)
        | inr differ ↦
            accepts n its i (rw (lookup, differ) waits)
              (sym (lookup_other-index_map_insert name n next indexes differ) ∙ there)
      ]

  pub record Takes (taken : I → List (IndexKeyType × ℕ) → I) (indexes : List (Text × I))
      (pending : Pending) (r : Result QueryError (List (Text × I))) : Type 0 where
    pub after : List (Text × I)
    pub returns : r ≡ ok after
    pub lookups :
        (name : Text)
        → lookup name after ≡ after_taking taken (lookup name pending) (lookup name indexes)

  pub take_all :
      (taken : I → List (IndexKeyType × ℕ) → I) (indexes : List (Text × I)) (pending : Pending)
      → Accepts taken indexes pending
      → Distinct pending
      → Served indexes pending
      → Takes taken indexes pending (insert_pending print rows index_ops indexes pending)
  unfolding insert_pending lookup
  take_all taken indexes [] accepts d s = record {
    after = indexes;
    returns = refl;
    lookups = λ name. refl;
  }
  take_all taken indexes ((name, items) ∷ pending) accepts (absent, d) (((i, there), f), s) =
      let next = index_map_insert name (taken i items) indexes in
      let rest =
        take_all taken next pending
          (Accepts-rest taken indexes name items pending (taken i items) absent accepts) d
          (Served-index_map_insert name (taken i items) indexes pending s) in
      let at_name : lookup name rest.after
          ≡ after_taking taken (lookup name ((name, items) ∷ pending)) (lookup name indexes) =
        rest.lookups name
        ∙ rw
            (absent, lookup-index_map_insert name (taken i items) indexes, text_eq_refl name, there)
            refl in
      record {
        after = rest.after;
        returns =
            rw (there, ◌>>=◌, accepts name items i (rw (lookup, text_eq_refl name) refl) there)
              rest.returns;
        lookups = λ n. elim (Bool-cases (text_eq name n)) [
          | inl same ↦
              subst
                (λ m.
                  lookup m rest.after
                  ≡ after_taking taken (lookup m ((name, items) ∷ pending)) (lookup m indexes))
                (text_eq→eq name n same) at_name
          | inr differ ↦
              rest.lookups n
              ∙ rw
                  (
                    lookup_other-index_map_insert name n (taken i items) indexes differ,
                    lookup,
                    differ,
                  )
                  refl
        ];
      }

-- The entries as an index takes them: with none it stays as it is.
abbrev pub taking :
    {I : Type 0} → (I → List (IndexKeyType × ℕ) → I) → List (IndexKeyType × ℕ) → Option I → Option I
taking taken items none = none
taking taken [] (some i) = some i
taking taken (item ∷ items) (some i) = some (taken i (item ∷ items))

pub after_taking-taking :
    {I : Type 0} (taken : I → List (IndexKeyType × ℕ) → I) (indexes : List (Text × I))
    (pending : Pending) (name : Text) (o : Option I)
    → Served indexes pending
    → after_taking taken (lookup name pending) o
      ≡ taking taken (unwrap_or (lookup name pending) []) o
after_taking-taking {I = I} taken indexes pending name o s =
    elim (Option-cases (lookup name pending)) [
      | inl absent ↦ rw absent (nothing o)
      | inr (items, there) ↦
          rw there (something items o (lookup-Filled indexes pending name items s there))
    ]
  where
    nothing : (o : Option I) → o ≡ taking taken [] o
    nothing none = refl
    nothing (some i) = refl

    something :
        (items : List (IndexKeyType × ℕ)) (o : Option I)
        → Filled items
        → after_taking taken (some items) o ≡ taking taken items o
    something [] o f = absurd f
    something (item ∷ items) none f = refl
    something (item ∷ items) (some i) f = refl
