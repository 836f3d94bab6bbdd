-- ===== src/Query/Rows/Pending.antt =====
-- The entries that wait for each index.
use schema_js.Prelude.{
  ℕ, ◌≡◌, refl, sym, ap, subst, ◌∙◌, List, [], ◌∷◌, ◌++◌, Option, some, true, false, Bool-cases,
  inl, inr, if◌then◌else◌,
}
use schema_js.Prelude.Results.{unwrap_or}
use schema_js.MapShard.Ops.{text_eq}
use schema_js.MapShard.State.{text_eq→eq}
use schema_js.Index.Types.{IndexKeyType}
use schema_js.Primitives.Column.{Text}
use schema_js.Primitives.Table.{lookup, text_eq_refl}
use schema_js.Query.Rows.{Pending, push_item}

module _ (added : Text) (item : IndexKeyType × ℕ) (name : Text) where
  abbrev expected : Pending → Option (List (IndexKeyType × ℕ))
  expected pending =
      if text_eq added name
      then some (unwrap_or (lookup added pending) [] ++ (item ∷ []))
      else lookup name pending

  push_here :
      (other : Text) (items : List (IndexKeyType × ℕ)) (pending : Pending)
      → text_eq other added ≡ true
      → lookup name (push_item added item ((other, items) ∷ pending))
        ≡ expected ((other, items) ∷ pending)
  unfolding push_item lookup
  push_here other items pending here =
      let same : text_eq added name ≡ text_eq other name =
        sym (ap (λ t. text_eq t name) (text_eq→eq other added here)) in
      elim (Bool-cases (text_eq other name)) [
        | inl wanted ↦ rw (same, here, lookup, wanted) refl
        | inr unwanted ↦ rw (same, here, lookup, unwanted) refl
      ]

  -- A name that is there is not the added one, if the added one is not there.
  not_added :
      (other : Text)
      → text_eq other added ≡ false
      → text_eq other name ≡ true
      → text_eq added name ≡ false
  not_added other elsewhere wanted = elim (Bool-cases (text_eq added name)) [
    | inl e ↦
        let same : other ≡ added = text_eq→eq other name wanted ∙ sym (text_eq→eq added name e) in
        let here : text_eq other added ≡ true =
          subst (λ t. text_eq other t ≡ true) same (text_eq_refl other) in
        absurd (cc)
    | inr f ↦ f
  ]

  -- An entry that is put to an index stands behind those of this index, or is the first; the
  -- entries of every other index stay as they are.
  pub lookup-push_item :
      (pending : Pending)
      → lookup name (push_item added item pending) ≡ (
          if text_eq added name
          then some (unwrap_or (lookup added pending) [] ++ (item ∷ []))
          else lookup name pending)
  unfolding push_item lookup
  lookup-push_item [] = refl
  lookup-push_item ((other, items) ∷ pending) =
      let rest = lookup-push_item pending in
      elim (Bool-cases (text_eq other added)) [
        | inl here ↦ push_here other items pending here
        | inr elsewhere ↦ elim (Bool-cases (text_eq other name)) [
          | inl wanted ↦ rw (elsewhere, not_added other elsewhere wanted, lookup, wanted) refl
          | inr unwanted ↦ rw (elsewhere, lookup, unwanted) rest
        ]
      ]
