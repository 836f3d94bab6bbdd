-- ===== src/Index/Shard/Between.antt =====
-- An entry of a new key between the others.
use schema_js.Prelude.{◌≡◌, ◌≢◌, refl, sym, ap, subst, ◌∙◌, List, [], ◌∷◌, ◌++◌, some, All}
use schema_js.Prelude.Order.{IsOrder, reversed, dec_eq}
use schema_js.KvShard.Layout.{All-front, All-back, All-append}
use schema_js.Index.Types.{IndexKey}
use schema_js.Index.Shard.Lookup.{lookup, lookup_skip, IsDistinct}
use Prim.Native.Nat.Ordering.{lt, eq, gt}

module _ {K V : Type 0} (key : IndexKey K) (order : IsOrder key.cmp) where
  lookup_same :
      (q : K × V) (kvs : List (K × V)) (target : K)
      → key.cmp q.0 target ≡ eq
      → lookup key (q ∷ kvs) target ≡ some q.1
  lookup_same q kvs target same = rw (lookup, same) refl

  lookup_under :
      (b q : K × V) (kvs : List (K × V)) (target : K)
      → key.cmp q.0 target ≢ eq
      → lookup key (b ∷ kvs) target ≡ lookup key (b ∷ q ∷ kvs) target
  lookup_under b q kvs target different =
      ap (λ r. elim (key.cmp b.0 target) [ lt ↦ r | eq ↦ some b.1 | gt ↦ r ])
        (sym (lookup_skip key q.0 q.1 kvs target different))

  -- An entry of a new key, put between others, is found, and they are.
  pub lookup_between :
      (lo : List (K × V)) (b : K × V) (hi : List (K × V)) (target : K)
      → All (λ q. key.cmp b.0 q.0 ≢ eq) lo
      → lookup key (lo ++ (b ∷ hi)) target ≡ lookup key (b ∷ (lo ++ hi)) target
  lookup_between [] b hi target fresh = refl
  lookup_between (q ∷ lo) b hi target fresh =
      let rest = lookup_between lo b hi target fresh.1 in
      elim (dec_eq (key.cmp q.0 target)) [
        | yes same ↦
            let other : key.cmp b.0 target ≢ eq =
              subst (λ t. key.cmp b.0 t ≢ eq) (order.same_of_cmp q.0 target same) fresh.0 in
            lookup_same q (lo ++ (b ∷ hi)) target same
            ∙ sym (
                lookup_skip key b.0 b.1 (q ∷ (lo ++ hi)) target other
                ∙ lookup_same q (lo ++ hi) target same)
        | no different ↦
            lookup_skip key q.0 q.1 (lo ++ (b ∷ hi)) target different
            ∙ rest
            ∙ lookup_under b q (lo ++ hi) target different
      ]

  pub between-IsDistinct :
      (lo : List (K × V)) (b : K × V) (hi : List (K × V))
      → IsDistinct key (lo ++ hi)
      → All (λ q. key.cmp b.0 q.0 ≢ eq) (lo ++ hi)
      → IsDistinct key (lo ++ (b ∷ hi))
  between-IsDistinct [] b hi distinct fresh = (fresh, distinct)
  between-IsDistinct (q ∷ lo) b hi distinct fresh =
      let before : key.cmp q.0 b.0 ≢ eq = λ e. fresh.0 (order.cmp_flip q.0 b.0 ∙ ap reversed e) in
      (
        All-append (λ r. key.cmp q.0 r.0 ≢ eq) lo (b ∷ hi)
            (All-front (λ r. key.cmp q.0 r.0 ≢ eq) lo hi distinct.0)
            (before, All-back (λ r. key.cmp q.0 r.0 ≢ eq) lo hi distinct.0),
        between-IsDistinct lo b hi distinct.1 fresh.1,
      )
