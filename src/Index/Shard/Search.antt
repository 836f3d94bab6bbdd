-- ===== src/Index/Shard/Search.antt =====
-- `raw_binary_search`: each round halves the range, so that the fuel is enough and nothing panics.
use schema_js.Prelude.{
  ℕ, zero, suc, ◌+◌, ◌-◌, ◌/◌, ◌^◌, ◌<◌, ◌≤◌, ◌≡◌, ◌≢◌, refl, sym, ap, subst, ◌∙◌, List, Option,
  some, none, true, leb, length, length-map, get_elem?, get_elem?-lt, inl, inr, arith, Bool-cases,
  ltb, ltb→lt, lt→ltb, ltb→ge, leb→le, leb→gt, get_elem?-some,
}
use schema_js.Prelude.Order.{IsOrder, reversed, ordering_cases, below, not_above}
use schema_js.Prelude.Int.{ℤ, pos, negsuc}
use schema_js.Prelude.Results.{Result, ok}
use schema_js.Uuid.{UuidApi}
use schema_js.KvShard.Ops.{KvShard, get_last_index, last_of}
use schema_js.Index.Entry.{NoEntry}
use schema_js.Index.Types.{IndexKey, IndexValue}
use schema_js.Index.Shard.{IndexShard, entry_bytes, before, search_loop, raw_binary_search}
use schema_js.Index.Shard.State.{Indexed, kv_at-Indexed}
use schema_js.Index.Shard.Sorted.{IsSorted, sorted_at}
use Prim.Native.Nat.Ordering.{lt, eq, gt}

-- Where the range ends.
abbrev end : ℤ → ℕ
end (pos right) = suc right
end (negsuc right) = 0

end-before : (mid : ℕ) → end (before mid) ≡ mid
end-before zero = refl
end-before (suc mid) = refl

end-last_of : (n : ℕ) → n < 2 ^ 63 → end (last_of n) ≡ n
end-last_of zero h = refl
end-last_of (suc n) h = rw (lt→ltb n (2 ^ 63) (omega arith)) refl

module _ {K V : Type 0} (key : IndexKey K) (kvs : List (K × V)) (target : K) where
  -- What a search has found is there; where the entries are in order, what it does not find is not.
  abbrev pub IsRight : Option (ℕ × K × V) → Type 0
  IsRight (some (i, k, v)) = (get_elem? kvs i ≡ some (k, v)) × (key.cmp k target ≡ eq)
  IsRight none =
      IsSorted key kvs → (j : ℕ) (p : K × V) → get_elem? kvs j ≡ some p → key.cmp p.0 target ≢ eq

  pub record Searched (r : Result NoEntry (Option (ℕ × K × V))) : Type 0 where
    pub found : Option (ℕ × K × V)
    pub returns : r ≡ ok found
    pub is_right : IsRight found

  moved : {r t : Result NoEntry (Option (ℕ × K × V))} → r ≡ t → Searched t → Searched r
  moved e h = record { found = h.found; returns = e ∙ h.returns; is_right = h.is_right }

  -- The entries before `left` are below, those from `to` on above.
  record Outside (left to : ℕ) : Type 0 where
    low : (j : ℕ) (p : K × V) → get_elem? kvs j ≡ some p → j < left → key.cmp p.0 target ≡ lt
    high : (j : ℕ) (p : K × V) → get_elem? kvs j ≡ some p → to ≤ j → key.cmp p.0 target ≡ gt

  nothing : (left to : ℕ) → to ≤ left → (IsSorted key kvs → Outside left to) → IsRight none
  nothing left to over out sorted j p at e = elim (Bool-cases (ltb j left)) [
    | inl less ↦ cc ((out sorted).low j p at (ltb→lt j left less), e)
    | inr more ↦ cc ((out sorted).high j p at (omega (arith, ltb→ge j left more)), e)
  ]

  module _ (order : IsOrder key.cmp) (left mid to : ℕ) (k : K) (v : V)
      (at : get_elem? kvs mid ≡ some (k, v)) where
    go_up : IsSorted key kvs → key.cmp k target ≡ lt → Outside left to → Outside (mid + 1) to
    go_up sorted less out = record {
      low = λ j p at_j h.
          not_above order p.0 k target (sorted_at key order kvs j mid sorted (omega arith) at_j at)
            less;
      high = out.high;
    }

    go_down : IsSorted key kvs → key.cmp k target ≡ gt → Outside left to → Outside left mid
    go_down sorted greater out = record {
      low = out.low;
      high = λ j p at_j h.
          order.cmp_flip target p.0
          ∙ ap reversed (
              below order target k p.0 (order.cmp_flip k target ∙ ap reversed greater)
                (sorted_at key order kvs mid j sorted h at at_j));
    }

module _ {Uuid K V : Type 0} ⦃u : UuidApi Uuid⦄ (key : IndexKey K) (value : IndexValue V)
    (order : IsOrder key.cmp) {key_size value_size capacity : ℕ} {id : Uuid} {s : KvShard Uuid}
    (kvs : List (K × V)) (x : IndexShard Uuid) (same : x.key_size ≡ key_size)
    (st : Indexed key value key_size value_size capacity id s kvs) (target : K) where
  module _ (fuel left right : ℕ) (kv : K × V) (inside : leb left right ≡ true)
      (at : get_elem? kvs (left + (right - left) / 2) ≡ some kv) (within : suc right ≤ length kvs)
      (enough : suc right < left + suc fuel)
      (out : IsSorted key kvs → Outside key kvs target left (suc right))
      (rest : (left' : ℕ) (right' : ℤ)
        → end right' ≤ length kvs
        → left' ≤ end right'
        → end right' < left' + fuel
        → (IsSorted key kvs → Outside key kvs target left' (end right'))
        → Searched key kvs target (search_loop key value x s target fuel left' right')) where
    search_round :
        Searched key kvs target (search_loop key value x s target (suc fuel) left (pos right))
    unfolding search_loop
    search_round =
        let le = leb→le left right inside in
        let mid : ℕ = left + (right - left) / 2 in
        let read = kv_at-Indexed key value key_size value_size kvs x same st mid at in
        elim (ordering_cases (key.cmp kv.0 target)) [
          | inl less ↦ moved key kvs target (rw (search_loop, inside, read, less) refl) (
              rest (mid + 1) (pos right) within (omega (arith, le)) (omega (arith, enough, le))
                (λ sorted.
                  go_up key kvs target order left mid (suc right) kv.0 kv.1 at sorted less
                    (out sorted)))
          | inr (inl found) ↦ record {
            found = some (mid, kv.0, kv.1);
            returns = rw (search_loop, inside, read, found) refl;
            is_right = (at, found);
          }
          | inr (inr greater) ↦
              let e = end-before mid in
              moved key kvs target (rw (search_loop, inside, read, greater) refl) (
                rest left (before mid) (omega (arith, e, le, within)) (omega (arith, e, le))
                  (omega (arith, e, le, enough))
                  (λ sorted. subst (Outside key kvs target left) (sym e) (
                    go_down key kvs target order left mid (suc right) kv.0 kv.1 at sorted greater
                      (out sorted))))
        ]

  search_loop-Searched :
      (fuel left : ℕ) (right : ℤ)
      → end right ≤ length kvs
      → left ≤ end right
      → end right < left + fuel
      → (IsSorted key kvs → Outside key kvs target left (end right))
      → Searched key kvs target (search_loop key value x s target fuel left right)
  unfolding search_loop
  search_loop-Searched zero left right within proper enough out =
      absurd (omega (arith, proper, enough))
  search_loop-Searched (suc fuel) left (negsuc r) within proper enough out = record {
    found = none;
    returns = refl;
    is_right = nothing key kvs target left 0 (omega arith) out;
  }
  search_loop-Searched (suc fuel) left (pos right) within proper enough out =
      elim (Bool-cases (leb left right)) [
        | inr over ↦ record {
          found = none;
          returns = rw (search_loop, over) refl;
          is_right =
              nothing key kvs target left (suc right) (omega (arith, leb→gt left right over)) out;
        }
        | inl inside ↦
            let le = leb→le left right inside in
            let mid : ℕ = left + (right - left) / 2 in
            let mid_le : mid ≤ right = omega (arith, le) in
            let ((k, v), at) = get_elem?-some kvs mid (omega (arith, mid_le)) in
            search_round fuel left right (k, v) inside at within enough out
              (λ left' right'. search_loop-Searched fuel left' right')
      ]

  -- The search of a shard with fewer than 2 ^ 63 entries ends within its fuel without a panic,
  -- whatever their order; what it finds is at the index and has the key, and what it does not find
  -- in entries that are in order is not there.
  pub raw_binary_search-Searched :
      length kvs < 2 ^ 63 → Searched key kvs target (raw_binary_search key value x s target)
  unfolding raw_binary_search get_last_index
  raw_binary_search-Searched small =
      let entries : s.header.items_len ≡ length kvs =
        st.stored.count ∙ length-map (entry_bytes key value) kvs in
      let e = end-last_of s.header.items_len (omega (arith, entries, small)) in
      search_loop-Searched (s.header.items_len + 1) 0 (get_last_index s) (omega (arith, e, entries))
        (omega arith) (omega (arith, e))
        (λ sorted. record {
          low = λ j p at h. absurd (omega (arith, h));
          high = λ j p at h. absurd (omega (arith, h, e, entries, get_elem?-lt kvs j at));
        })
