-- ===== src/Query/Search/Sets.antt =====
-- The numbers of an intersection and of a union.
use schema_js.Prelude.{
  ℕ, ◌≡◌, sym, subst, List, [], ◌∷◌, true, false, Bool-cases, inl, inr, ◌==◌, ==_iff, All,
}
use schema_js.KvShard.Layout.{All-append}
use schema_js.Query.Search.{contains, distinct, select, intersect_indices, union_indices}

-- What holds of all numbers of a list holds of those that are chosen from it.
distinct-All : (P : ℕ → Type 0) (xs : List ℕ) → All P xs → All P (distinct xs)
distinct-All P [] h = tt
distinct-All P (x ∷ xs) h =
    let rest = distinct-All P xs h.1 in
    elim (Bool-cases (contains x (distinct xs))) [
      | inl there ↦ rw (distinct, there) rest
      | inr new ↦ rw (distinct, new) (h.0, rest)
    ]

contains-All : (P : ℕ → Type 0) (x : ℕ) (xs : List ℕ) → All P xs → contains x xs ≡ true → P x
contains-All P x [] h e = absurd (cc)
contains-All P x (y ∷ ys) h e = elim (Bool-cases (x == y)) [
  | inl same ↦ subst P (sym ((==_iff x y).0 same)) h.0
  | inr other ↦ contains-All P x ys h.1 (rw other at e)
]

both-All :
    (P Q : ℕ → Type 0) (xs ys : List ℕ)
    → All P xs
    → All Q ys
    → All (λ n. P n × Q n) (select true xs ys)
both-All P Q [] ys h g = tt
both-All P Q (x ∷ xs) ys h g =
    let rest = both-All P Q xs ys h.1 g in
    elim (Bool-cases (contains x ys)) [
      | inl there ↦ rw (select, there) ((h.0, contains-All Q x ys g there), rest)
      | inr new ↦ rw (select, new) rest
    ]

others-All : (P : ℕ → Type 0) (xs ys : List ℕ) → All P xs → All P (select false xs ys)
others-All P [] ys h = tt
others-All P (x ∷ xs) ys h =
    let rest = others-All P xs ys h.1 in
    elim (Bool-cases (contains x ys)) [
      | inl there ↦ rw (select, there) rest
      | inr new ↦ rw (select, new) (h.0, rest)
    ]

pub intersect_indices-All :
    (P Q : ℕ → Type 0) (a b : List ℕ)
    → All P a
    → All Q b
    → All (λ n. P n × Q n) (intersect_indices a b)
intersect_indices-All P Q a b h g = both-All P Q (distinct a) b (distinct-All P a h) g

pub union_indices-All :
    (P : ℕ → Type 0) (a b : List ℕ) → All P a → All P b → All P (union_indices a b)
union_indices-All P a b h g =
    All-append P (distinct a) (select false (distinct b) a) (distinct-All P a h)
      (others-All P (distinct b) a (distinct-All P b g))
