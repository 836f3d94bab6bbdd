-- ===== src/Index/Shard/Order.antt =====
-- `keep_binary_order`: the last entry sinks below those of greater keys, and the others stay in
-- order. No fuel is needed and nothing panics.
use schema_js.Prelude.{
  ℕ, zero, suc, ◌+◌, ◌≡◌, ◌≢◌, refl, sym, ap, subst, ◌∙◌, List, [], ◌∷◌, ◌++◌, map, some, All,
  false, length, length-map, get_elem?, get_elem?-append, append_assoc, append-nil, ◌⊎◌, inl, inr,
  arith,
}
use schema_js.Prelude.Results.{Result, ok}
use schema_js.Uuid.{UuidApi}
use schema_js.KvShard.Ops.{KvShard}
use schema_js.KvShard.Layout.{Entries, All-front, All-back, All-append}
use schema_js.Index.Types.{IndexKey, IndexValue}
use schema_js.Index.Entry.{get_entry_size, NoEntry}
use schema_js.Index.Shard.{IndexShard, entry_bytes, swap_in_file, order_from, get_kv}
use schema_js.Index.Shard.State.{Fits, Indexed, get_kv-Indexed}
use schema_js.Index.Shard.Swap.{swapped, swap_in_file_lem, swapped-Entries}
use mathlib.Core.List.{map-append}
use schema_js.Prelude.Order.{ordering_cases, dec_lt}
use Prim.Native.Nat.Ordering.{lt}

-- A list that is not empty has a last element.
last_of {ℓ} :
    {A : Type ℓ} (xs : List A) (n : ℕ)
    → length xs ≡ suc n
    → (front : List A) × (x : A) × (xs ≡ front ++ (x ∷ [])) × (length front ≡ n)
last_of [] n h = absurd (omega arith)
last_of (x ∷ []) n h = ([], x, refl, omega arith)
last_of (x ∷ y ∷ ys) zero h = absurd (omega arith)
last_of (x ∷ y ∷ ys) (suc n) h =
    let (front, z, e, l) = last_of (y ∷ ys) n (omega arith) in
    (x ∷ front, z, ap (λ r. x ∷ r) e, ap suc l)

pub get_elem?-middle {ℓ} :
    {A : Type ℓ} (before : List A) (x : A) (after : List A) (i : ℕ)
    → length before ≡ i
    → get_elem? (before ++ (x ∷ after)) i ≡ some x
get_elem?-middle before x after i place =
    let e : i ≡ length before + 0 = omega arith in
    ap (get_elem? (before ++ (x ∷ after))) e ∙ get_elem?-append before (x ∷ after) 0

-- Where an entry that sinks comes to stand: above `lo`, below all of `hi`.
module _ {K V : Type 0} (key : IndexKey K) where
  pub record Sunk (before : List (K × V)) (b : K × V) (after all : List (K × V)) : Type 0 where
    pub lo : List (K × V)
    pub hi : List (K × V)
    pub parts : before ≡ lo ++ hi
    pub whole : all ≡ lo ++ (b ∷ (hi ++ after))
    pub above : All (λ h. key.cmp b.0 h.0 ≡ lt) hi
    pub stops :
        (lo ≡ [])
        ⊎ ((front : List (K × V)) × (p : K × V) × (lo ≡ front ++ (p ∷ [])) × (key.cmp b.0 p.0 ≢ lt))

  -- One more entry that it passes.
  sink_past :
      (front : List (K × V)) (p b : K × V) (after all : List (K × V))
      → key.cmp b.0 p.0 ≡ lt
      → Sunk front b (p ∷ after) all
      → Sunk (front ++ (p ∷ [])) b after all
  sink_past front p b after all less k = record {
    lo = k.lo;
    hi = k.hi ++ (p ∷ []);
    parts = ap (λ l. l ++ (p ∷ [])) k.parts ∙ append_assoc k.lo k.hi (p ∷ []);
    whole = k.whole ∙ ap (λ l. k.lo ++ (b ∷ l)) (sym (append_assoc k.hi (p ∷ []) after));
    above = All-append (λ h. key.cmp b.0 h.0 ≡ lt) k.hi (p ∷ []) k.above (less, tt);
    stops = k.stops;
  }

  -- It stays where it is.
  stay :
      (front : List (K × V)) (p b : K × V) (after : List (K × V))
      → key.cmp b.0 p.0 ≢ lt
      → Sunk (front ++ (p ∷ [])) b after ((front ++ (p ∷ [])) ++ (b ∷ after))
  stay front p b after not_less = record {
    lo = front ++ (p ∷ []);
    hi = [];
    parts = sym (append-nil (front ++ (p ∷ [])));
    whole = refl;
    above = tt;
    stops = inr (front, p, refl, not_less);
  }

-- The index shard `x` with the shard `s` as its current one.
abbrev pub with_current : {Uuid : Type 0} → IndexShard Uuid → KvShard Uuid → IndexShard Uuid
with_current x s = record x { shards = record x.shards { current_master_shard = s } }

module _ {Uuid K V : Type 0} ⦃u : UuidApi Uuid⦄ (key : IndexKey K) (value : IndexValue V)
    (key_size value_size capacity : ℕ) (id : Uuid) where
  abbrev Stores : KvShard Uuid → List (K × V) → Type 0
  Stores = Indexed key value key_size value_size capacity id

  -- What the loop leaves.
  pub record Ordered (x : IndexShard Uuid) (before : List (K × V)) (b : K × V)
      (after : List (K × V)) (r : Result NoEntry (IndexShard Uuid)) : Type 0 where
    pub shard : KvShard Uuid
    pub all : List (K × V)
    pub returns : r ≡ ok (with_current x shard)
    pub stores : Stores shard all
    pub sunk : Sunk key before b after all

  swap-Stores :
      (s : KvShard Uuid) (front : List (K × V)) (p b : K × V) (after : List (K × V))
      → Stores s (front ++ (p ∷ b ∷ after))
      → (s' : KvShard Uuid) × (swap_in_file s
            (length front + 1)
            (entry_bytes key value b)
            (entry_bytes key value p)
          ≡ ok s')
        × Stores s' (front ++ (b ∷ p ∷ after))
  swap-Stores s front p b after st =
      let f = entry_bytes key value in
      let size = get_entry_size key_size value_size in
      let split : (l : List (K × V)) → map f (front ++ l) ≡ map f front ++ map f l =
        λ l. map-append f front l in
      let stored : Entries capacity size id s (map f front ++ (f p ∷ f b ∷ map f after)) =
        subst (Entries capacity size id s) (split (p ∷ b ∷ after)) st.stored in
      let tail = All-back (Fits key value key_size value_size) front (p ∷ b ∷ after) st.fits in
      (
        swapped capacity size id s (map f front ++ (f b ∷ f p ∷ map f after)),
        ap (λ n. swap_in_file s (n + 1) (f b) (f p)) (sym (length-map f front))
            ∙ swap_in_file_lem capacity size id s (map f front) (f p) (f b) (map f after) stored,
        record {
          stored =
              subst (Entries capacity size id _) (sym (split (b ∷ p ∷ after)))
                (swapped-Entries capacity size id s (map f front) (f p) (f b) (map f after) stored);
          fits =
              All-append (Fits key value key_size value_size) front (b ∷ p ∷ after)
                (All-front (Fits key value key_size value_size) front (p ∷ b ∷ after) st.fits)
                (tail.1.0, (tail.0, tail.1.1));
        },
      )

  module _ (n : ℕ) (x : IndexShard Uuid) (b p : K × V)
      (curr : get_kv key value x (suc n) false ≡ ok (b.0, b.1, entry_bytes key value b))
      (prev : get_kv key value x n false ≡ ok (p.0, p.1, entry_bytes key value p)) where
    round_swaps :
        (s' : KvShard Uuid)
        → key.cmp b.0 p.0 ≡ lt
        → swap_in_file x.shards.current_master_shard
            (suc n)
            (entry_bytes key value b)
            (entry_bytes key value p)
          ≡ ok s'
        → order_from key value (suc n) x ≡ order_from key value n (with_current x s')
    unfolding order_from
    round_swaps s' less swaps = rw (curr, prev, less, swaps) refl

    round_stays : key.cmp b.0 p.0 ≢ lt → order_from key value (suc n) x ≡ ok x
    unfolding order_from
    round_stays not_less = elim (ordering_cases (key.cmp b.0 p.0)) [
      | inl less ↦ absurd (not_less less)
      | inr (inl same_key) ↦ rw (curr, prev, same_key) refl
      | inr (inr greater) ↦ rw (curr, prev, greater) refl
    ]

  pub order_from-Sunk :
      (n : ℕ) (x : IndexShard Uuid) (before : List (K × V)) (b : K × V) (after : List (K × V))
      → x.key_size ≡ key_size
      → Stores x.shards.current_master_shard (before ++ (b ∷ after))
      → length before ≡ n
      → Ordered x before b after (order_from key value n x)
  unfolding order_from
  order_from-Sunk zero x [] b after same st place = record {
    shard = x.shards.current_master_shard;
    all = b ∷ after;
    returns = refl;
    stores = st;
    sunk = record { lo = []; hi = []; parts = refl; whole = refl; above = tt; stops = inl refl };
  }
  order_from-Sunk zero x (p ∷ before) b after same st place = absurd (omega arith)
  order_from-Sunk (suc n) x before b after same st place =
      let (front, p, e, l) = last_of before n place in
      let two : before ++ (b ∷ after) ≡ front ++ (p ∷ b ∷ after) =
        ap (λ r. r ++ (b ∷ after)) e ∙ append_assoc front (p ∷ []) (b ∷ after) in
      let st2 : Stores x.shards.current_master_shard (front ++ (p ∷ b ∷ after)) =
        subst (Stores x.shards.current_master_shard) two st in
      let curr =
        get_kv-Indexed key value key_size value_size (before ++ (b ∷ after)) x same st (suc n)
          (get_elem?-middle before b after (suc n) place) refl in
      let prev =
        get_kv-Indexed key value key_size value_size (front ++ (p ∷ b ∷ after)) x same st2 n
          (get_elem?-middle front p (b ∷ after) n l) refl in
      let f = entry_bytes key value in
      elim (dec_lt (key.cmp b.0 p.0)) [
        | yes less ↦
            let (s', swaps, st3) = swap-Stores x.shards.current_master_shard front p b after st2 in
            let rest = order_from-Sunk n (with_current x s') front b (p ∷ after) same st3 l in
            let place' : suc n ≡ length front + 1 = omega (arith, l) in
            let swaps' =
              ap (λ i. swap_in_file x.shards.current_master_shard i (f b) (f p)) place' ∙ swaps in
            record {
              shard = rest.shard;
              all = rest.all;
              returns = round_swaps n x b p curr prev s' less swaps' ∙ rest.returns;
              stores = rest.stores;
              sunk =
                  subst (λ l. Sunk key l b after rest.all) (sym e)
                    (sink_past key front p b after rest.all less rest.sunk);
            }
        | no not_less ↦ record {
          shard = x.shards.current_master_shard;
          all = before ++ (b ∷ after);
          returns = round_stays n x b p curr prev not_less;
          stores = st;
          sunk =
              subst (λ l. Sunk key l b after (l ++ (b ∷ after))) (sym e)
                (stay key front p b after not_less);
        }
      ]
