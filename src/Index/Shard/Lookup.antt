-- ===== src/Index/Shard/Lookup.antt =====
-- `binary_search`: the shards together are a finite map, of which the search gives the value.
use schema_js.Prelude.{
  ℕ, zero, suc, ◌^◌, ◌<◌, ◌≡◌, ◌≢◌, refl, sym, ap, subst, ◌∙◌, List, [], ◌∷◌, map, Option, some,
  none, length, All, get_elem?, inl, inr, arith, ltb, ltb→ge, Bool-cases,
}
use schema_js.Prelude.Order.{IsOrder, ordering_cases}
use schema_js.Prelude.Results.{Result, ok, unwrap_or}
use schema_js.Uuid.{UuidApi}
use schema_js.KvShard.Ops.{KvShard, breaking_point}
use schema_js.Index.Entry.{NoEntry}
use schema_js.Index.Types.{IndexKey, IndexValue}
use schema_js.Index.Shard.{IndexShard, raw_binary_search, search_shards, binary_search}
use schema_js.Index.Shard.State.{Indexed, All-get_elem?}
use schema_js.Index.Shard.Sorted.{IsSorted}
use schema_js.Index.Shard.Search.{IsRight, raw_binary_search-Searched}
use Prim.Native.Nat.Ordering.{lt, eq, gt}

-- A value that was found, or one of the others.
abbrev pub or_else : {V : Type 0} → Option V → Option V → Option V
or_else (some v) other = some v
or_else none other = other

or_else-none : {V : Type 0} (o : Option V) → or_else o none ≡ o
or_else-none (some v) = refl
or_else-none none = refl

abbrev pub value_of : {K V : Type 0} → Option (ℕ × K × V) → Option V
value_of (some (i, k, v)) = some v
value_of none = none

module _ {K V : Type 0} (key : IndexKey K) where
  -- The value of the first entry with the key.
  abbrev pub lookup : List (K × V) → K → Option V
  lookup [] target = none
  lookup ((k, v) ∷ kvs) target =
      let rest = lookup kvs target in
      elim (key.cmp k target) [ lt ↦ rest | eq ↦ some v | gt ↦ rest ]

  -- The value in the first list that has the key.
  abbrev pub lookup_all : List (List (K × V)) → K → Option V
  lookup_all [] target = none
  lookup_all (kvs ∷ rest) target = or_else (lookup kvs target) (lookup_all rest target)

  -- No key stands there twice.
  abbrev pub IsDistinct : List (K × V) → Type 0
  IsDistinct [] = Unit {0}
  IsDistinct (p ∷ ps) = All (λ q. key.cmp p.0 q.0 ≢ eq) ps × IsDistinct ps

  pub lookup_skip :
      (k : K) (v : V) (kvs : List (K × V)) (target : K)
      → key.cmp k target ≢ eq
      → lookup ((k, v) ∷ kvs) target ≡ lookup kvs target
  lookup_skip k v kvs target h = elim (ordering_cases (key.cmp k target)) [
    | inl less ↦ rw (lookup, less) refl
    | inr (inl same) ↦ absurd (h same)
    | inr (inr greater) ↦ rw (lookup, greater) refl
  ]

  lookup-none :
      (kvs : List (K × V)) (target : K)
      → ((j : ℕ) (p : K × V) → get_elem? kvs j ≡ some p → key.cmp p.0 target ≢ eq)
      → lookup kvs target ≡ none
  lookup-none [] target h = refl
  lookup-none ((k, v) ∷ kvs) target h =
      lookup_skip k v kvs target (h 0 (k, v) refl) ∙ lookup-none kvs target (λ j. h (suc j))

  module _ (order : IsOrder key.cmp) where
    lookup_at :
        (kvs : List (K × V)) (i : ℕ) (k : K) (v : V) (target : K)
        → IsDistinct kvs
        → get_elem? kvs i ≡ some (k, v)
        → key.cmp k target ≡ eq
        → lookup kvs target ≡ some v
    lookup_at [] i k v target distinct at h = cc
    lookup_at (p ∷ kvs) zero k v target distinct at h =
        let e : p ≡ (k, v) = ap (λ o. unwrap_or o p) at in
        ap (λ p. lookup (p ∷ kvs) target) e ∙ rw (lookup, h) refl
    lookup_at ((k', v') ∷ kvs) (suc i) k v target distinct at h =
        let other = All-get_elem? (λ q. key.cmp k' q.0 ≢ eq) kvs i distinct.0 at in
        lookup_skip k' v' kvs target
          (subst (λ t. key.cmp k' t ≢ eq) (order.same_of_cmp k target h) other)
        ∙ lookup_at kvs i k v target distinct.1 at h

    pub lookup-IsRight :
        (kvs : List (K × V)) (target : K) (found : Option (ℕ × K × V))
        → IsSorted key kvs
        → IsDistinct kvs
        → IsRight key kvs target found
        → value_of found ≡ lookup kvs target
    lookup-IsRight kvs target none sorted distinct h = sym (lookup-none kvs target (h sorted))
    lookup-IsRight kvs target (some (i, k, v)) sorted distinct h =
        sym (lookup_at kvs i k v target distinct h.0 h.1)

-- What a search gives, by the value alone.
pub record Gives {K V : Type 0} (r : Result NoEntry (Option (ℕ × K × V))) (v : Option V)
    : Type 0 where
  pub found : Option (ℕ × K × V)
  pub returns : r ≡ ok found
  pub value_found : value_of found ≡ v

module _ {Uuid K V : Type 0} ⦃u : UuidApi Uuid⦄ (key : IndexKey K) (value : IndexValue V)
    (key_size value_size capacity : ℕ) where
  -- A shard whose entries are in the order of their keys, each key once.
  pub record Slot (s : KvShard Uuid) (kvs : List (K × V)) : Type 0 where
    pub id : Uuid
    pub stores : Indexed key value key_size value_size capacity id s kvs
    pub sorted : IsSorted key kvs
    pub distinct : IsDistinct key kvs
    pub small : length kvs < 2 ^ 63

  abbrev pub Slots : List (KvShard Uuid) → List (List (K × V)) → Type 0
  Slots [] [] = Unit {0}
  Slots [] (kvs ∷ rest) = ⊥
  Slots (s ∷ shards) [] = ⊥
  Slots (s ∷ shards) (kvs ∷ rest) = Slot s kvs × Slots shards rest

  module _ (order : IsOrder key.cmp) (x : IndexShard Uuid) (same : x.key_size ≡ key_size)
      (target : K) where
    search_slot :
        (s : KvShard Uuid) (kvs : List (K × V))
        → Slot s kvs
        → Gives (raw_binary_search key value x s target) (lookup key kvs target)
    search_slot s kvs slot =
        let r =
          raw_binary_search-Searched key value order kvs x same slot.stores target slot.small in
        record {
          found = r.found;
          returns = r.returns;
          value_found =
              lookup-IsRight key order kvs target r.found slot.sorted slot.distinct r.is_right;
        }

    next_slot :
        (s : KvShard Uuid) (shards : List (KvShard Uuid)) (kvs : List (K × V))
        (rest : List (List (K × V)))
        → Gives (search_shards key value x shards target) (lookup_all key rest target)
        → (found : Option (ℕ × K × V)) → raw_binary_search key value x s target ≡ ok found
        → value_of found ≡ lookup key kvs target
        → Gives (search_shards key value x (s ∷ shards) target) (lookup_all key (kvs ∷ rest) target)
    unfolding search_shards
    next_slot s shards kvs rest others none e g = record {
      found = others.found;
      returns = rw e others.returns;
      value_found = rw (sym g) others.value_found;
    }
    next_slot s shards kvs rest others (some hit) e g = record {
      found = some hit;
      returns = rw e refl;
      value_found = ap (λ o. or_else o (lookup_all key rest target)) g;
    }

    search_slots :
        (shards : List (KvShard Uuid)) (kvss : List (List (K × V)))
        → Slots shards kvss
        → Gives (search_shards key value x shards target) (lookup_all key kvss target)
    unfolding search_shards
    search_slots [] [] h = record { found = none; returns = refl; value_found = refl }
    search_slots [] (kvs ∷ rest) h = absurd h
    search_slots (s ∷ shards) [] h = absurd h
    search_slots (s ∷ shards) (kvs ∷ rest) h =
        let first = search_slot s kvs h.0 in
        next_slot s shards kvs rest (search_slots shards rest h.1) first.found first.returns
          first.value_found

    -- The search over the current shard and the past ones, each in order with each key once, finds
    -- the value that going through their entries one by one finds; without a capacity there are no
    -- past shards.
    pub binary_search-lookup :
        (kvs : List (K × V)) (past : List (List (K × V)))
        → Slot x.shards.current_master_shard kvs
        → Slots (map (λ p. p.1) x.shards.past_master_shards) past
        → (capacity ≡ 0 → past ≡ [])
        → Gives (binary_search key value x target) (lookup_all key (kvs ∷ past) target)
    unfolding binary_search breaking_point
    binary_search-lookup kvs past slot slots none_past =
        elim (Bool-cases (ltb 0 x.shards.current_master_shard.max_capacity)) [
          | inl more ↦
              rw (binary_search, more)
                (search_slots
                  (x.shards.current_master_shard ∷ map (λ p. p.1) x.shards.past_master_shards)
                  (kvs ∷ past) (slot, slots))
          | inr unlimited ↦
              let own = slot.stores.stored.own_capacity in
              let alone = none_past (
                omega
                  (arith, own, ltb→ge 0 x.shards.current_master_shard.max_capacity unlimited)) in
              let one = search_slot x.shards.current_master_shard kvs slot in
              record {
                found = one.found;
                returns = rw (binary_search, unlimited) one.returns;
                value_found =
                    one.value_found
                    ∙ sym (or_else-none (lookup key kvs target))
                    ∙ ap (λ o. or_else (lookup key kvs target) (lookup_all key o target))
                        (sym alone);
              }
        ]
