-- ===== src/MapShard/Read.antt =====
-- Looking up an element by its global index: past shards are read newest first.
use schema_js.Prelude.{
  ℕ, suc, ◌+◌, ◌-◌, ◌/◌, ◌%◌, ◌<◌, ◌≤◌, ◌≡◌, sym, ap, ◌∙◌, List, [], ◌∷◌, ◌++◌, false, some, map,
  length, get_elem?, get_elem?-append, get_elem?-append_lt, get_elem?-lt, flatten, append_assoc,
  append-nil, arith, ◌==◌, inl, inr,
}
use schema_js.Prelude.Results.{ok}
use schema_js.Prelude.Bytes.{Bytes}
use schema_js.Shard.Trait.{Shard}
use schema_js.Shard.Laws.{ShardView, ShardLaws}
use schema_js.Uuid.{UuidApi}
use schema_js.MapShard.Ops.{MapShard, World, element_of, get_element}
use schema_js.MapShard.State.{Pasts, Contains, Pasts-lengths}
use schema_js.MapShard.Grow.{le_or_lt}
use native.Mathlib.Nat.{div-eq_of_lt, div-eq-sub-div, mod-eq_of_lt, mod-eq-sub-mod}
use mathlib.Core.List.{reverse, reverse-cons}

==_pos : (n : ℕ) → 0 < n → (n == 0) ≡ false
==_pos n h = ground arith

module _ {S Opts Uuid : Type 0} ⦃u : UuidApi Uuid⦄ (ops : Shard S Opts Uuid) (v : ShardView S Opts)
    (laws : ShardLaws ops v) (w : World Uuid) (limit k : ℕ) (some_room : 0 < k) where
  -- Full shards, in any order, with their chunks.
  abbrev Full : List S → List (List Bytes) → Type 0
  Full [] [] = Unit
  Full [] (c ∷ cs) = ⊥
  Full (s ∷ ss) [] = ⊥
  Full (s ∷ ss) (c ∷ cs) = (v.Holds k s c × (length c ≡ k)) × Full ss cs

  Full-append :
      (ss : List S) (cs : List (List Bytes)) (s : S) (c : List Bytes)
      → Full ss cs
      → v.Holds k s c
      → length c ≡ k
      → Full (ss ++ (s ∷ [])) (cs ++ (c ∷ []))
  Full-append [] [] s c f h e = ((h, e), tt)
  Full-append [] (d ∷ ds) s c f h e = absurd f
  Full-append (t ∷ ts) [] s c f h e = absurd f
  Full-append (t ∷ ts) (d ∷ ds) s c f h e = (f.0, Full-append ts ds s c f.1 h e)

  Pasts→Full :
      (ps : List (List ℕ × S)) (cs : List (List Bytes))
      → Pasts ops v w limit k ps cs
      → Full (reverse (map (λ p. p.1) ps)) (reverse cs)
  Pasts→Full [] [] past = tt
  Pasts→Full [] (c ∷ cs) past = absurd past
  Pasts→Full (p ∷ ps) [] past = absurd past
  Pasts→Full (p ∷ ps) (c ∷ cs) past =
      rw (reverse-cons p.1 (map (λ q. q.1) ps), reverse-cons c cs)
        (Full-append (reverse (map (λ q. q.1) ps)) (reverse cs) p.1 c (Pasts→Full ps cs past.1)
          past.0.0 past.0.1)

  -- Quotient and remainder by the capacity find the shard and the place in it.
  element_of-Full :
      (ss : List S) (cs : List (List Bytes)) (s : S) (current : List Bytes) (index : ℕ) (x : Bytes)
      → Full ss cs
      → v.Holds k s current
      → get_elem? (flatten cs ++ current) index ≡ some x
      → element_of ops (get_elem? (ss ++ (s ∷ [])) (index / k)) (index % k) ≡ ok x
  element_of-Full [] (c ∷ cs) s current index x f h e = absurd f
  element_of-Full (t ∷ ts) [] s current index x f h e = absurd f
  element_of-Full [] [] s current index x f h e =
      let inside = laws.within k s current h in
      let small = get_elem?-lt current index e in
      let below : index < k = omega arith in
      rw (div-eq_of_lt below, mod-eq_of_lt below) (laws.read_item_law k s current index x h e)
  element_of-Full (t ∷ ts) (c ∷ cs) s current index x f h e = elim (le_or_lt k index) [
    | inl past ↦
        let there : get_elem? (flatten cs ++ current) (index - k) ≡ some x =
          sym (get_elem?-append c (flatten cs ++ current) (index - k))
          ∙ ap (get_elem? (c ++ (flatten cs ++ current))) (omega (arith, f.0.1))
          ∙ ap (λ l. get_elem? l index) (sym (append_assoc c (flatten cs) current))
          ∙ e in
        let next : index / k ≡ suc ((index - k) / k) =
          div-eq-sub-div some_room past ∙ omega arith in
        rw (next, mod-eq-sub-mod past) (element_of-Full ts cs s current (index - k) x f.1 h there)
    | inr below ↦
        rw (div-eq_of_lt below, mod-eq_of_lt below)
          (laws.read_item_law k t c index x f.0.0 (
            sym (get_elem?-append_lt c (flatten cs ++ current) index (omega (arith, f.0.1)))
            ∙ ap (λ l. get_elem? l index) (sym (append_assoc c (flatten cs) current))
            ∙ e))
  ]

  -- An element is looked up in the past shards from the newest to the oldest, then in the current one.
  pub get_element-reversed :
      (m : MapShard S Opts) (chunks : List (List Bytes)) (current : List Bytes) (number index : ℕ)
      (x : Bytes)
      → Contains ops v w limit k m chunks current number
      → get_elem? (flatten (reverse chunks) ++ current) index ≡ some x
      → get_element ops m index ≡ ok x
  unfolding get_element
  get_element-reversed m chunks current number index x c e =
      rw
        (
          laws.breaking_point_law k m.current_master_shard current c.holds,
          get_element,
          ==_pos k some_room,
        )
        (element_of-Full (reverse (map (λ p. p.1) m.past_master_shards)) (reverse chunks)
          m.current_master_shard current index x (Pasts→Full m.past_master_shards chunks c.past)
          c.holds e)

  -- With at most one past shard that is the order of insertion: each row is found at its index.
  pub get_element-in_order :
      (m : MapShard S Opts) (chunks : List (List Bytes)) (current : List Bytes) (number index : ℕ)
      (x : Bytes)
      → Contains ops v w limit k m chunks current number
      → length chunks ≤ 1
      → get_elem? (flatten chunks ++ current) index ≡ some x
      → get_element ops m index ≡ ok x
  get_element-in_order m [] current number index x c few e =
      get_element-reversed m [] current number index x c e
  get_element-in_order m (a ∷ []) current number index x c few e =
      get_element-reversed m (a ∷ []) current number index x c e
  get_element-in_order m (a ∷ b ∷ cs) current number index x c few e = absurd (omega arith)

  -- With two past shards the answers for the first two shards are exchanged: an index in the first
  -- one is answered with the row of the second one, and the other way round.
  pub get_element-exchanged :
      (m : MapShard S Opts) (a b current : List Bytes) (number index : ℕ) (x y : Bytes)
      → Contains ops v w limit k m (a ∷ b ∷ []) current number
      → get_elem? a index ≡ some x
      → get_elem? b index ≡ some y
      → (get_elem? (flatten (a ∷ b ∷ []) ++ current) index ≡ some x)
        × (get_element ops m index ≡ ok y)
        × (get_element ops m (k + index) ≡ ok x)
  get_element-exchanged m a b current number index x y c at_a at_b =
      let pa = get_elem?-lt a index at_a in
      let pb = get_elem?-lt b index at_b in
      let long : length b ≡ k =
        (Pasts-lengths ops v w limit k m.past_master_shards (a ∷ b ∷ []) c.past).1.0 in
      let whole : (p q : List Bytes) → flatten (p ∷ q ∷ []) ++ current ≡ p ++ (q ++ current) =
        λ p q. simp (append_assoc, append-nil) in
      (
        ap (λ l. get_elem? l index) (whole a b)
            ∙ get_elem?-append_lt a (b ++ current) index pa
            ∙ at_a,
        get_element-reversed m (a ∷ b ∷ []) current number index y c (
            ap (λ l. get_elem? l index) (whole b a)
            ∙ get_elem?-append_lt b (a ++ current) index pb
            ∙ at_b),
        get_element-reversed m (a ∷ b ∷ []) current number (k + index) x c (
            ap (λ l. get_elem? l (k + index)) (whole b a)
            ∙ ap (get_elem? (b ++ (a ++ current))) (omega (arith, long))
            ∙ get_elem?-append b (a ++ current) index
            ∙ get_elem?-append_lt a current index pa
            ∙ at_a),
      )
