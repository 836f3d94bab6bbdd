-- ===== src/Prelude/Order.antt =====
-- Rust's `Ord`: what a comparison promises, and the comparison of strings by their characters.
use mathlib.Core.Logic.{◌≢◌, ◌⊎◌, inl, inr}
use mathlib.Core.List.{List, [], ◌∷◌}
use mathlib.Core.Path.{◌≡◌, refl, sym, ap, subst, ◌∙◌}
use native.Mathlib.Omega.{arith}
use Prim.Native.Nat.{ℕ, compare, Ordering}
use Prim.Native.Nat.Ordering.{lt, eq, gt}

-- The other way round.
abbrev pub reversed : Ordering → Ordering
reversed lt = gt
reversed eq = eq
reversed gt = lt

pub ordering_cases : (o : Ordering) → (o ≡ lt) ⊎ (o ≡ eq) ⊎ (o ≡ gt)
ordering_cases lt = inl refl
ordering_cases eq = inr (inl refl)
ordering_cases gt = inr (inr refl)

pub dec_lt : (o : Ordering) → Dec (o ≡ lt)
dec_lt lt = yes refl
dec_lt eq = no (λ e. cc)
dec_lt gt = no (λ e. cc)

pub dec_eq : (o : Ordering) → Dec (o ≡ eq)
dec_eq lt = no (λ e. cc)
dec_eq eq = yes refl
dec_eq gt = no (λ e. cc)

-- A total order: the comparison the other way round, and in a row; equal ones are the same.
pub record IsOrder {K : Type 0} (cmp : K → K → Ordering) : Type 0 where
  pub cmp_flip : (x y : K) → cmp y x ≡ reversed (cmp x y)
  pub cmp_trans : (x y z : K) → cmp x y ≡ lt → cmp y z ≡ lt → cmp x z ≡ lt
  pub same_of_cmp : (x y : K) → cmp x y ≡ eq → x ≡ y
  pub cmp_self : (x : K) → cmp x x ≡ eq

module _ {K : Type 0} {cmp : K → K → Ordering} (order : IsOrder cmp) where
  pub gt_of_lt : (a b : K) → cmp a b ≡ lt → cmp b a ≢ lt
  gt_of_lt a b h g = cc (order.cmp_flip a b, ap reversed h)

  -- Below what is not above the other.
  pub below : (a b c : K) → cmp a b ≡ lt → cmp c b ≢ lt → cmp a c ≡ lt
  below a b c h g = by_cases (cmp b c) refl
    where
      by_cases : (o : Ordering) → cmp b c ≡ o → cmp a c ≡ lt
      by_cases lt e = order.cmp_trans a b c h e
      by_cases eq e = subst (λ k. cmp a k ≡ lt) (order.same_of_cmp b c e) h
      by_cases gt e = absurd (g (order.cmp_flip b c ∙ ap reversed e))

  -- What is not above the other is below what the other is below.
  pub not_above : (a b c : K) → cmp b a ≢ lt → cmp b c ≡ lt → cmp a c ≡ lt
  not_above a b c h g = by_cases (cmp a b) refl
    where
      by_cases : (o : Ordering) → cmp a b ≡ o → cmp a c ≡ lt
      by_cases lt e = order.cmp_trans a b c e g
      by_cases eq e = subst (λ k. cmp k c ≡ lt) (sym (order.same_of_cmp a b e)) g
      by_cases gt e = absurd (h (order.cmp_flip a b ∙ ap reversed e))

-- `String::cmp`: by the first characters that differ.
unfoldable pub text_cmp : List ℕ → List ℕ → Ordering
text_cmp [] [] = eq
text_cmp [] (d ∷ ds) = lt
text_cmp (c ∷ cs) [] = gt
text_cmp (c ∷ cs) (d ∷ ds) =
    let rest = text_cmp cs ds in elim (compare c d) [ lt ↦ lt | eq ↦ rest | gt ↦ gt ]

text_cmp_refl : (s : List ℕ) → text_cmp s s ≡ eq
unfolding text_cmp
text_cmp_refl [] = refl
text_cmp_refl (c ∷ cs) = ground (arith, text_cmp_refl cs)

eq_of_text_cmp : (s t : List ℕ) → text_cmp s t ≡ eq → s ≡ t
unfolding text_cmp
eq_of_text_cmp [] [] h = refl
eq_of_text_cmp [] (d ∷ ds) h = cc
eq_of_text_cmp (c ∷ cs) [] h = cc
eq_of_text_cmp (c ∷ cs) (d ∷ ds) h = ground (arith, eq_of_text_cmp cs ds)

text_cmp_flip : (s t : List ℕ) → text_cmp t s ≡ reversed (text_cmp s t)
unfolding text_cmp
text_cmp_flip [] [] = refl
text_cmp_flip [] (d ∷ ds) = refl
text_cmp_flip (c ∷ cs) [] = refl
text_cmp_flip (c ∷ cs) (d ∷ ds) = ground (arith, text_cmp_flip cs ds)

text_cmp_trans : (s t r : List ℕ) → text_cmp s t ≡ lt → text_cmp t r ≡ lt → text_cmp s r ≡ lt
unfolding text_cmp
text_cmp_trans [] [] r h g = cc
text_cmp_trans [] (d ∷ ds) [] h g = cc
text_cmp_trans [] (d ∷ ds) (e ∷ es) h g = refl
text_cmp_trans (c ∷ cs) [] r h g = cc
text_cmp_trans (c ∷ cs) (d ∷ ds) [] h g = cc
text_cmp_trans (c ∷ cs) (d ∷ ds) (e ∷ es) h g = ground (arith, text_cmp_trans cs ds es)

pub text_cmp-IsOrder : IsOrder text_cmp
text_cmp-IsOrder = record {
  cmp_self = text_cmp_refl;
  same_of_cmp = eq_of_text_cmp;
  cmp_flip = text_cmp_flip;
  cmp_trans = text_cmp_trans;
}
