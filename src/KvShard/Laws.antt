-- ===== src/KvShard/Laws.antt =====
-- Key-value shards of a capacity keep the promises that a map shard asks of its shards.
use schema_js.Prelude.{
  sym, Option, ℕ, zero, suc, ◌+◌, ◌*◌, ◌-◌, ◌^◌, ◌<◌, ◌≤◌, ◌≡◌, refl, ap, subst, List, [], ◌++◌,
  some, All, length, length-append, lt→ltb, le→leb, ◌==◌, false, arith,
}
use schema_js.Prelude.Int.{pos, suc_ℤ}
use schema_js.Prelude.Results.{ok, unwrap_or}
use schema_js.Prelude.Bytes.{Bytes, IsU64}
use schema_js.Shard.Errors.{AvailableSpace}
use schema_js.Shard.Laws.{ShardView, ShardLaws, few_part}
use schema_js.Storage.File.{Platform}
use schema_js.Storage.Handler.{FileName}
use schema_js.Uuid.{UuidApi}
use schema_js.KvShard.Ops.{
  KvShard, KvShardConfig, shard_ops, last_of, get_last_index, available_space, breaking_point,
  insert_item, open_shard,
}
use schema_js.KvShard.Layout.{Entries, All-front, All-back, file_fits-same, file_fits_below}
use schema_js.KvShard.Insert.{insert_item-Entries}
use schema_js.KvShard.Read.{read_item_from_index-Entries}
use schema_js.KvShard.Open.{open_shard_new}

-- The entries have the size, a capacity in 63 bits is read as it is, and the size of their file and the
-- square of their number have 64 bits.
abbrev pub Fitting : ℕ → ℕ → List Bytes → Type 0
Fitting size k items =
    All (λ item. length item ≡ size) items
    × (k < 2 ^ 63)
    × IsU64 (40 + length items * size)
    × IsU64 (length items * length items)

after_last : (n : ℕ) → n < 2 ^ 63 → suc_ℤ (last_of n) ≡ pos n
after_last zero h = refl
after_last (suc n) h = rw (lt→ltb n (2 ^ 63) (omega arith)) (ap pos (omega arith))

module _ {Uuid : Type 0} ⦃u : UuidApi Uuid⦄ (size : ℕ) where
  -- A shard with the entries, of a capacity `k` above 0 that they do not pass.
  pub record HoldsEntries (k : ℕ) (s : KvShard Uuid) (items : List Bytes) : Type 0 where
    pub id : Uuid
    pub entries : Entries k size id s items
    pub some_room : 0 < k
    pub few : length items ≤ k
    pub small : k < 2 ^ 63

  -- How key-value shards with entries of the size are described.
  abbrev pub kv_view : ShardView (KvShard Uuid) KvShardConfig
  kv_view = record {
    Holds = HoldsEntries;
    Small = Fitting size;
    capacity = λ opts. unwrap_or opts.max_capacity 0;
    Suits = λ opts. (opts.value_size ≡ size) × IsU64 size;
    returned = λ n. n;
  }

  point :
      (k : ℕ) (s : KvShard Uuid) (items : List Bytes)
      → HoldsEntries k s items
      → breaking_point s ≡ some k
  unfolding breaking_point
  point k s items h = rw (h.entries.own_capacity, lt→ltb 0 k h.some_room) refl

  last :
      (k : ℕ) (s : KvShard Uuid) (items : List Bytes)
      → HoldsEntries k s items
      → suc_ℤ (get_last_index s) ≡ pos (length items)
  unfolding get_last_index
  last k s items h = rw h.entries.count (after_last (length items) (omega (arith, h.few, h.small)))

  space :
      (k : ℕ) (s : KvShard Uuid) (items : List Bytes)
      → HoldsEntries k s items
      → available_space s ≡ ok (AvailableSpace.fixed (k - length items))
  unfolding available_space get_last_index
  space k s items h =
      let limited : (k == 0) ≡ false = ground (arith, h.some_room) in
      rw (h.entries.own_capacity, limited, last k s items h, le→leb (length items) k h.few) refl

  insert :
      (k : ℕ) (s : KvShard Uuid) (items new : List Bytes)
      → HoldsEntries k s items
      → length items + length new ≤ k
      → Fitting size k (items ++ new)
      → HoldsEntries k (insert_item s new).0 (items ++ new)
        × ((insert_item s new).1 ≡ ok (length (items ++ new)))
  insert k s items new h fits small =
      let (after, result) =
        insert_item-Entries k size h.id s items new h.entries
          (All-back (λ item. length item ≡ size) items new small.0) (omega (arith, fits, h.small))
          (file_fits-same (length items + length new) (length (items ++ new)) size
            (sym (length-append items new)) small.2) in
      (
        record {
          id = h.id;
          entries = after;
          some_room = h.some_room;
          few = omega (arith, length-append items new, fits);
          small = h.small;
        },
        result,
      )

  same_path : (s : KvShard Uuid) (new : List Bytes) → (insert_item s new).0.path ≡ s.path
  unfolding insert_item
  same_path s new = refl

  opening :
      (path : FileName) (opts : KvShardConfig) (given : Option Uuid) (id : Uuid)
      → (opts.value_size ≡ size) × IsU64 size
      → Fitting size (unwrap_or opts.max_capacity 0) []
      → 0 < unwrap_or opts.max_capacity 0
      → (s : KvShard Uuid) × (open_shard Platform.posix path [] opts given id ≡ ok s)
        × HoldsEntries (unwrap_or opts.max_capacity 0) s []
        × (s.path ≡ path)
  opening path opts given id (own, fits) small room =
      let (s, opened, held, at) =
        open_shard_new path opts given id (omega (arith, small.1)) (subst IsU64 (sym own) fits) in
      (
        s,
        opened,
        record {
          id = unwrap_or given id;
          entries =
              subst (λ n. Entries (unwrap_or opts.max_capacity 0) n (unwrap_or given id) s []) own
                held;
          some_room = room;
          few = omega arith;
          small = small.1;
        },
        at,
      )

  -- Key-value shards with entries of one size implement the interface of bounded shards: reading and
  -- inserting up to the capacity, the space that is left, the last index, and opening a new file.
  pub kv_laws : ShardLaws shard_ops kv_view
  kv_laws = record {
    within = λ k s items h. h.few;
    breaking_point_law = point;
    get_last_index_law = last;
    available_space_law = space;
    insert_item_law = insert;
    get_path_law = same_path;
    read_item_law = λ k s items index x h e. read_item_from_index-Entries items index x h.entries e;
    open_shard_law = opening;
    small_part = λ k front items back small. (
      All-front (λ item. length item ≡ size) items back
          (All-back (λ item. length item ≡ size) front (items ++ back) small.0),
      small.1,
      file_fits_below (length (front ++ (items ++ back))) size (length items) small.2
          (omega (arith, length-append front (items ++ back), length-append items back)),
      few_part front items back small.3,
    );
    small_few = λ k items small. small.3;
    returned_law = λ n. omega arith;
  }
