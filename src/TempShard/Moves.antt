-- ===== src/TempShard/Moves.antt =====
-- Moving the rows of a temporary shard into the map shard, one by one.
use schema_js.Prelude.{
  ℕ, zero, suc, ◌+◌, ◌*◌, ◌<◌, ◌≤◌, ◌≡◌, refl, sym, ap, subst, ◌∙◌, List, [], ◌∷◌, ◌++◌, length,
  length-append, flatten, length-flatten, get_elem?, get_elem?-append, append_assoc, append-nil,
  ap₂, arith,
}
use schema_js.Prelude.Int.{ℤ, pos, negsuc, suc_ℤ}
use schema_js.Prelude.Results.{Result, ok, ◌>>=◌}
use schema_js.Prelude.Bytes.{Bytes}
use schema_js.Shard.Errors.{ShardErrors}
use schema_js.Shard.Trait.{Shard}
use schema_js.Shard.Laws.{ShardView, ShardLaws}
use schema_js.Uuid.{UuidApi}
use schema_js.MapShard.Ops.{MapShard, World, insert_rows}
use schema_js.MapShard.State.{IsGood, Contains, Pasts-lengths}
use schema_js.MapShard.Insert.{insert_row-position}
use schema_js.TempShard.Ops.{DataWithIndex, range_end, reconcile_items}
use native.Mathlib.Nat.{le_of_mul-le-mul_right}

pub range_end_lem : (x : ℤ) (n : ℕ) → suc_ℤ x ≡ pos n → range_end x ≡ n
range_end_lem (pos m) n h = cc
range_end_lem (negsuc zero) n h = cc
range_end_lem (negsuc (suc m)) n h = absurd (cc)

-- What the callback is told of rows that are numbered from `start` on.
abbrev pub reports : ℕ → List Bytes → List DataWithIndex
reports start [] = []
reports start (row ∷ rows) = record { payload = row; index = start } ∷ reports (suc start) rows

more_than : (c d k a b : ℕ) → 0 < k → c * k + suc a ≡ d * k + b + 1 → b ≤ k → c ≤ d + 1
more_than c d k a b some_room total within =
    let e : (d + 1) * k ≡ d * k + k = omega arith in
    le_of_mul-le-mul_right {m = c} {n = d + 1} {k = k} (omega (arith, total, within, e)) some_room

module _ {S Opts Uuid : Type 0} ⦃u : UuidApi Uuid⦄ (ops : Shard S Opts Uuid) (v : ShardView S Opts)
    (w : World Uuid) (limit k : ℕ) where
  -- What a map shard becomes that held `old` and takes the rows, of the number `number`.
  pub record Gained (old rows : List Bytes) (number : ℕ) (after : MapShard S Opts) : Type 0 where
    pub chunks : List (List Bytes)
    pub current : List Bytes
    pub last_number : ℕ
    pub contains : Contains ops v w limit k after chunks current last_number
    pub items : flatten chunks ++ current ≡ old ++ rows
    pub few : last_number ≤ number + length rows

  pub Gained-then :
      (old rows more : List Bytes) (number : ℕ) (m m' : MapShard S Opts)
      (g : Gained old rows number m)
      → Gained (flatten g.chunks ++ g.current) more g.last_number m'
      → Gained old (rows ++ more) number m'
  Gained-then old rows more number m m' g h = record {
    chunks = h.chunks;
    current = h.current;
    last_number = h.last_number;
    contains = h.contains;
    items = h.items ∙ ap (λ l. l ++ more) g.items ∙ append_assoc old rows more;
    few = omega (arith, g.few, h.few, length-append rows more);
  }

  pub Gained-none :
      (m : MapShard S Opts) (chunks : List (List Bytes)) (current : List Bytes) (number : ℕ)
      → Contains ops v w limit k m chunks current number
      → Gained (flatten chunks ++ current) [] number m
  Gained-none m chunks current number c = record {
    chunks = chunks;
    current = current;
    last_number = number;
    contains = c;
    items = sym (append-nil (flatten chunks ++ current));
    few = omega arith;
  }

module _ {S Opts Uuid : Type 0} ⦃u : UuidApi Uuid⦄ (ops : Shard S Opts Uuid) (v : ShardView S Opts)
    (laws : ShardLaws ops v) (w : World Uuid) (limit : ℕ) (good : IsGood w limit) (k : ℕ)
    (some_room : 0 < k) (counted : (n : ℕ) → v.returned (suc n) ≡ n) where
  record Taken (old : List Bytes) (row : Bytes) (number : ℕ)
      (r : Result ShardErrors (MapShard S Opts × ℕ)) : Type 0 where
    after : MapShard S Opts
    position : ℕ
    returns : r ≡ ok (after, position)
    place : position ≡ length old
    gained : Gained ops v w limit k old (row ∷ []) number after

  -- One row takes at most one more shard, and the position that is returned is its number.
  take_row :
      (row : Bytes) (m : MapShard S Opts) (chunks : List (List Bytes)) (current : List Bytes)
      (number : ℕ)
      → Contains ops v w limit k m chunks current number
      → number + 2 ≤ limit
      → v.Small k ((flatten chunks ++ current) ++ (row ∷ []))
      → Taken (flatten chunks ++ current) row number (insert_rows ops w (row ∷ []) m)
  take_row row m chunks current number c fits small =
      let whole = append_assoc (flatten chunks) current (row ∷ []) in
      let (o, front, ends, at) =
        insert_row-position ops v laws w limit good k some_room row m chunks current number c fits
          (subst (v.Small k) whole small) in
      let before =
        length-flatten k chunks
          (Pasts-lengths ops v w limit k m.past_master_shards chunks c.past) in
      let behind =
        length-flatten k o.chunks
          (Pasts-lengths ops v w limit k o.after.past_master_shards o.chunks o.contains.past) in
      let total : length o.chunks * k + suc (length front)
          ≡ length chunks * k + length current + 1 =
        omega (
          arith,
          before,
          behind,
          ap length ends,
          ap length o.items,
          length-append front (row ∷ []),
          length-append (flatten o.chunks) o.current,
          length-append (flatten chunks) (current ++ (row ∷ [])),
          length-append current (row ∷ []),
        ) in
      let size : length (front ++ (row ∷ [])) ≡ suc (length front) =
        omega (arith, length-append front (row ∷ [])) in
      let one_more =
        more_than (length o.chunks) (length chunks) k (length front) (length current) some_room
          total (laws.within k m.current_master_shard current c.holds) in
      record {
        after = o.after;
        position = o.position;
        returns = o.returns;
        place =
            at
            ∙ ap (λ l. length o.chunks * k + v.returned (length l)) ends
            ∙ ap (λ n. length o.chunks * k + v.returned n) size
            ∙ ap (λ n. length o.chunks * k + n) (counted (length front))
            ∙ omega (arith, total, before, length-append (flatten chunks) current);
        gained = record {
          chunks = o.chunks;
          current = o.current;
          last_number = o.number;
          contains = o.contains;
          items = o.items ∙ sym whole;
          few = omega (arith, o.numbered, one_more);
        };
      }

  pub record Moved (old rows : List Bytes) (number : ℕ)
      (r : Result ShardErrors (MapShard S Opts × List DataWithIndex)) : Type 0 where
    pub after : MapShard S Opts
    pub returns : r ≡ ok (after, reports (length old) rows)
    pub gained : Gained ops v w limit k old rows number after

  -- The loop over the items that are left of a shard.
  pub move_rows :
      (j : ℕ) (s : S) (done rest : List Bytes) (m : MapShard S Opts) (chunks : List (List Bytes))
      (current : List Bytes) (number index : ℕ)
      → v.Holds j s (done ++ rest)
      → length done ≡ index
      → Contains ops v w limit k m chunks current number
      → number + length rest + 1 ≤ limit
      → v.Small k ((flatten chunks ++ current) ++ rest)
      → Moved
          (flatten chunks ++ current)
          rest
          number
          (reconcile_items ops w (length rest) index s m)
  unfolding reconcile_items
  move_rows j s done [] m chunks current number index held at c fits small = record {
    after = m;
    returns = refl;
    gained = Gained-none ops v w limit k m chunks current number c;
  }
  move_rows j s done (x ∷ rest) m chunks current number index held at c fits small =
      let old = flatten chunks ++ current in
      let read = laws.read_item_law j s (done ++ (x ∷ rest)) index x held (
        ap (get_elem? (done ++ (x ∷ rest))) (omega (arith, at))
        ∙ get_elem?-append done (x ∷ rest) 0) in
      let shifted : (old ++ (x ∷ [])) ++ rest ≡ old ++ (x ∷ rest) =
        append_assoc old (x ∷ []) rest in
      let all_small = subst (v.Small k) (sym shifted) small in
      let t =
        take_row x m chunks current number c (omega arith)
          (laws.small_part k [] (old ++ (x ∷ [])) rest all_small) in
      let g = t.gained in
      let next =
        move_rows j s (done ++ (x ∷ [])) rest t.after g.chunks g.current g.last_number (index + 1)
          (subst (v.Holds j s) (sym (append_assoc done (x ∷ []) rest)) held)
          (omega (arith, at, length-append done (x ∷ []))) g.contains (omega (arith, g.few))
          (subst (v.Small k) (ap (λ l. l ++ rest) (sym g.items)) all_small) in
      let following : length (flatten g.chunks ++ g.current) ≡ suc (length old) =
        omega (arith, ap length g.items, length-append old (x ∷ [])) in
      record {
        after = next.after;
        returns =
            rw (read, ◌>>=◌, t.returns, ◌>>=◌, next.returns)
              (ap₂ (λ a b. ok (next.after, record { payload = x; index = a } ∷ reports b rest))
                t.place following);
        gained =
            Gained-then ops v w limit k old (x ∷ []) rest number t.after next.after g next.gained;
      }
