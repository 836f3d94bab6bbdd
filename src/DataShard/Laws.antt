-- ===== src/DataShard/Laws.antt =====
-- Data shards keep the promises that a map shard asks of its shards.
use schema_js.Prelude.{
  sym, ◌<◌, ltb, lt→ltb, le→ltb, ℕ, zero, suc, ◌+◌, ◌*◌, ◌-◌, ◌≤◌, ◌≡◌, refl, ap, subst, ◌∙◌, List,
  ◌++◌, some, length, length-append, flatten, flatten-append, arith, le→leb,
}
use schema_js.Prelude.Int.{pos, suc_ℤ, as_u64}
use schema_js.Prelude.Results.{ok, unwrap_or}
use schema_js.Prelude.Bytes.{Bytes, IsU64}
use schema_js.Shard.Errors.{AvailableSpace}
use schema_js.Shard.Laws.{ShardView, ShardLaws, few_part}
use schema_js.Uuid.{UuidApi}
use schema_js.DataShard.Config.{DataShardConfig}
use schema_js.DataShard.Header.{header_has_space, header_available_space}
use schema_js.DataShard.Ops.{has_space, DataShard, insert_item, available_space, shard_ops}
use schema_js.DataShard.Layout.{Stored, Stored-length, last_index, data_start}
use schema_js.DataShard.Read.{read_item_from_index-Stored}
use schema_js.DataShard.Insert.{insert_item-Stored}
use schema_js.DataShard.Open.{
  capacity_of, front_of, fresh_shard, fresh_shard-Stored, open_shard_new,
}

-- The file of a shard of capacity `k` with the items stays below the limit of the machine, and so does
-- the square of their number.
abbrev pub SmallData : ℕ → List Bytes → Type 0
SmallData k items =
    IsU64 (data_start k + length (flatten items)) × IsU64 (length items * length items)

small_law :
    (k : ℕ) (front items back : List Bytes)
    → SmallData k (front ++ (items ++ back))
    → SmallData k items
small_law k front items back h = (
  omega (
    arith,
    h.0,
    ap length (flatten-append front (items ++ back)),
    length-append (flatten front) (flatten (items ++ back)),
    ap length (flatten-append items back),
    length-append (flatten items) (flatten back),
  ),
  few_part front items back h.1,
)

tests_agree : (used free k : ℕ) → used + free ≡ k → ltb 0 free ≡ ltb used k
tests_agree used zero k e = sym (le→ltb used k (omega arith))
tests_agree used (suc n) k e = lt→ltb 0 (suc n) (omega arith) ∙ sym (lt→ltb used k (omega arith))

module _ {Uuid : Type 0} where
  -- A data shard of capacity `k` stores the items.
  pub record HoldsData (k : ℕ) (s : DataShard Uuid) (items : List Bytes) : Type 0 where
    pub front : Bytes
    pub free : ℕ
    pub total : length items + free ≡ k
    pub stored : Stored front free s items

  -- How data shards are described.
  abbrev pub data_view : ShardView (DataShard Uuid) DataShardConfig
  data_view = record {
    Holds = HoldsData;
    Small = SmallData;
    capacity = capacity_of;
    Suits = λ opts. Unit;
    returned = λ n. as_u64 (last_index n);
  }

  available :
      (s : DataShard Uuid) (used free : ℕ)
      → s.header.max_offsets ≡ used + free
      → s.header.last_offset_index ≡ last_index used
      → available_space s ≡ ok (AvailableSpace.fixed free)
  unfolding available_space header_available_space
  available s zero free e h = rw (h, e) (ap (λ n. ok (AvailableSpace.fixed n)) (omega arith))
  available s (suc n) free e h =
      rw (h, e, le→leb (n + 1) (suc n + free) (omega arith))
        (ap (λ n. ok (AvailableSpace.fixed n)) (omega arith))

  spaced :
      (s : DataShard Uuid) (used free : ℕ)
      → s.header.max_offsets ≡ used + free
      → s.header.last_offset_index ≡ last_index used
      → 0 < used + free
      → has_space s ≡ ltb 0 free
  unfolding has_space header_has_space
  spaced s zero free e h some_slots = rw h (sym (lt→ltb 0 free (omega arith)))
  spaced s (suc n) zero e h some_slots = rw (h, e, le→ltb (n + 1) (suc n + 0) (omega arith)) refl
  spaced s (suc n) (suc m) e h some_slots =
      rw (h, e, lt→ltb (n + 1) (suc n + suc m) (omega arith), lt→ltb 0 (suc m) (omega arith)) refl

  -- A shard of a capacity above 0 has space exactly when it holds fewer items than that.
  pub has_space-HoldsData :
      (k : ℕ) (s : DataShard Uuid) (items : List Bytes)
      → HoldsData k s items
      → 0 < k
      → has_space s ≡ ltb (length items) k
  has_space-HoldsData k s items h some_slots =
      spaced s (length items) h.free h.stored.capacity h.stored.last (omega (arith, h.total))
      ∙ tests_agree (length items) h.free k h.total

  insert_law :
      (k : ℕ) (s : DataShard Uuid) (items new : List Bytes)
      → HoldsData k s items
      → length items + length new ≤ k
      → SmallData k (items ++ new)
      → HoldsData k (insert_item s new).0 (items ++ new)
        × ((insert_item s new).1 ≡ ok (as_u64 (last_index (length (items ++ new)))))
  insert_law k s items new h fits small =
      let rest = k - (length items + length new) in
      let split : h.free ≡ length new + rest = omega (arith, h.total) in
      let st : Stored h.front (length new + rest) s items =
        subst (λ n. Stored h.front n s items) split h.stored in
      let size = Stored-length items st in
      let bytes : IsU64 (length s.data_handler.file.bytes + length (flatten new)) = omega (
        arith,
        small.0,
        ap length (flatten-append items new),
        length-append (flatten items) (flatten new),
      ) in
      let (after, result) = insert_item-Stored items new rest st bytes in
      (
        record {
          front = h.front;
          free = rest;
          total = omega (arith, length-append items new);
          stored = after;
        },
        result,
      )

  after_last :
      (n : ℕ) (s : DataShard Uuid)
      → s.header.last_offset_index ≡ last_index n
      → suc_ℤ s.header.last_offset_index ≡ pos n
  after_last zero s e = rw e refl
  after_last (suc n) s e = rw e (ap pos (omega arith))

  path_law : (s : DataShard Uuid) (new : List Bytes) → (insert_item s new).0.path ≡ s.path
  unfolding insert_item
  path_law s new = refl

  -- Data shards implement the interface that the map shard relies on.
  pub data_laws : ⦃u : UuidApi Uuid⦄ → ShardLaws shard_ops data_view
  data_laws = record {
    within = λ k s items h. omega (arith, h.total);
    breaking_point_law = λ k s items h. ap some (h.stored.capacity ∙ h.total);
    get_last_index_law = λ k s items h. after_last (length items) s h.stored.last;
    available_space_law = λ k s items h.
        available s (length items) h.free h.stored.capacity h.stored.last
        ∙ ap (λ n. ok (AvailableSpace.fixed n)) (omega (arith, h.total));
    insert_item_law = insert_law;
    get_path_law = path_law;
    read_item_law = λ k s items index x h e. read_item_from_index-Stored items index h.stored e;
    open_shard_law = λ path opts given id suits small room. (
      fresh_shard path (capacity_of opts) (unwrap_or given id),
      open_shard_new path opts given id,
      record {
        front = front_of (capacity_of opts) (unwrap_or given id);
        free = capacity_of opts;
        total = omega arith;
        stored =
            fresh_shard-Stored path (capacity_of opts) (unwrap_or given id)
              (omega (arith, small.0));
      },
      refl,
    );
    small_part = small_law;
    small_few = λ k items small. small.1;
    returned_law = λ n. omega arith;
  }
