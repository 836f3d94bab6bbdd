-- ===== src/Index/Shard/Sorted.antt =====
-- Entries in the order of their keys, and the one that sinks to its place among them.
use schema_js.Prelude.{
  ℕ, zero, suc, ◌≤◌, ◌≡◌, ◌≢◌, sym, ap, subst, append-nil, ◌∙◌, List, [], ◌∷◌, ◌++◌, some, All,
  get_elem?, ◌⊎◌, inl, inr, arith,
}
use schema_js.Prelude.Order.{IsOrder, gt_of_lt, below}
use schema_js.KvShard.Layout.{All-front, All-back, All-append}
use schema_js.Index.Types.{IndexKey}
use schema_js.Index.Shard.State.{All-get_elem?}
use schema_js.Index.Shard.Order.{Sunk}
use schema_js.Prelude.Results.{unwrap_or}
use Prim.Native.Nat.Ordering.{lt}

module _ {K V : Type 0} (key : IndexKey K) where
  -- The second is not below the first.
  abbrev pub AtMost : K × V → K × V → Type 0
  AtMost p q = key.cmp q.0 p.0 ≢ lt

  abbrev pub IsSorted : List (K × V) → Type 0
  IsSorted [] = Unit {0}
  IsSorted (p ∷ ps) = All (AtMost p) ps × IsSorted ps

  module _ (order : IsOrder key.cmp) where
    IsSorted-parts :
        (xs ys : List (K × V))
        → IsSorted (xs ++ ys)
        → IsSorted xs × IsSorted ys × All (λ x. All (AtMost x) ys) xs
    IsSorted-parts [] ys h = (tt, h, tt)
    IsSorted-parts (x ∷ xs) ys h =
        let (front, back, cross) = IsSorted-parts xs ys h.1 in
        ((All-front (AtMost x) xs ys h.0, front), back, (All-back (AtMost x) xs ys h.0, cross))

    IsSorted-append :
        (xs ys : List (K × V))
        → IsSorted xs
        → IsSorted ys
        → All (λ x. All (AtMost x) ys) xs
        → IsSorted (xs ++ ys)
    IsSorted-append [] ys front back cross = back
    IsSorted-append (x ∷ xs) ys front back cross =
        (All-append (AtMost x) xs ys front.0 cross.0, IsSorted-append xs ys front.1 back cross.1)

    below-All :
        (b : K × V) (hi : List (K × V)) → All (λ h. key.cmp b.0 h.0 ≡ lt) hi → All (AtMost b) hi
    below-All b [] h = tt
    below-All b (x ∷ hi) h = (gt_of_lt order b.0 x.0 h.0, below-All b hi h.1)

    -- What is at most the last of the front is at most what is not below that.
    above_front :
        (front : List (K × V)) (p b : K × V)
        → key.cmp b.0 p.0 ≢ lt
        → All (λ x. All (AtMost x) (p ∷ [])) front
        → All (λ x. AtMost x b) front
    above_front [] p b h g = tt
    above_front (x ∷ front) p b h g =
        (λ less. h (below order b.0 x.0 p.0 less g.0.0), above_front front p b h g.1)

    zip_cross :
        (lo : List (K × V)) (b : K × V) (hi : List (K × V))
        → All (λ x. AtMost x b) lo
        → All (λ x. All (AtMost x) hi) lo
        → All (λ x. All (AtMost x) (b ∷ hi)) lo
    zip_cross [] b hi h g = tt
    zip_cross (x ∷ lo) b hi h g = ((h.0, g.0), zip_cross lo b hi h.1 g.1)

    -- Below the last that stays stand no greater ones.
    above_lo :
        (lo : List (K × V)) (b : K × V)
        → IsSorted lo
        → (lo ≡ [])
          ⊎ ((front : List (K × V)) × (p : K × V) × (lo ≡ front ++ (p ∷ []))
              × (key.cmp b.0 p.0 ≢ lt))
        → All (λ x. AtMost x b) lo
    above_lo lo b sorted (inl e) = subst (All (λ x. AtMost x b)) (sym e) tt
    above_lo lo b sorted (inr (front, p, e, h)) =
        let (_, _, cross) = IsSorted-parts front (p ∷ []) (subst IsSorted e sorted) in
        subst (All (λ x. AtMost x b)) (sym e)
          (All-append (λ x. AtMost x b) front (p ∷ []) (above_front front p b h cross) (h, tt))

    pub Sunk-IsSorted :
        (kvs : List (K × V)) (b : K × V) (all : List (K × V))
        → IsSorted kvs
        → Sunk key kvs b [] all
        → IsSorted all
    Sunk-IsSorted kvs b all sorted k =
        let (front, back, cross) = IsSorted-parts k.lo k.hi (subst IsSorted k.parts sorted) in
        let whole : all ≡ k.lo ++ (b ∷ k.hi) =
          k.whole ∙ ap (λ l. k.lo ++ (b ∷ l)) (append-nil k.hi) in
        subst IsSorted (sym whole) (
          IsSorted-append k.lo (b ∷ k.hi) front (below-All b k.hi k.above, back)
            (zip_cross k.lo b k.hi (above_lo k.lo b front k.stops) cross))

    -- Of two entries the later one is not below.
    pub sorted_at :
        (kvs : List (K × V)) (i j : ℕ) {p q : K × V}
        → IsSorted kvs
        → i ≤ j
        → get_elem? kvs i ≡ some p
        → get_elem? kvs j ≡ some q
        → AtMost p q
    sorted_at [] i j sorted le at_i at_j = absurd (cc)
    sorted_at (x ∷ kvs) zero zero sorted le at_i at_j = λ less. cc (order.cmp_self x.0, less)
    sorted_at (x ∷ kvs) zero (suc j) {q = q} sorted le at_i at_j =
        subst (λ p. AtMost p q) (ap (λ o. unwrap_or o x) at_i)
          (All-get_elem? (AtMost x) kvs j sorted.0 at_j)
    sorted_at (x ∷ kvs) (suc i) zero sorted le at_i at_j = absurd (omega arith)
    sorted_at (x ∷ kvs) (suc i) (suc j) sorted le at_i at_j =
        sorted_at kvs i j sorted.1 (omega arith) at_i at_j
