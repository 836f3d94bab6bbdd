-- ===== src/Index/Shard.antt =====
-- crates/index/src/data/index_shard.rs: `IndexShard`, entries of keys and values in a map shard of
-- key-value shards.
pub mod State
pub mod Swap
pub mod Order
pub mod Sorted
pub mod Search
pub mod Lookup
pub mod Between
pub mod Room
pub mod Insert
use schema_js.Prelude.{
  ℕ, zero, suc, ◌+◌, ◌-◌, ◌/◌, List, [], ◌∷◌, ◌++◌, map, Bool, true, false, Option, none, some, leb,
  if◌then◌else◌,
}
use schema_js.Prelude.Int.{ℤ, pos, negsuc}
use schema_js.Prelude.Results.{Result, ok, err, panic, ◌>>=◌, unwrap, unwrap_or}
use schema_js.Prelude.Bytes.{Bytes}
use schema_js.Storage.File.{File}
use schema_js.Storage.Handler.{FileName, DataHandler, operate}
use schema_js.Shard.Errors.{ShardErrors}
use schema_js.Uuid.{UuidApi}
use schema_js.KvShard.Ops.{
  KvShard, KvShardConfig, shard_ops, swap_elements, get_last_index, read_item_from_index,
  breaking_point,
}
use schema_js.MapShard.Ops.{MapShard, World, insert_rows, get_element, get_element_from_master}
use schema_js.MapShard.Open.{new_map_shard}
use schema_js.Index.Unit.{IndexDataUnit, into_bytes}
use schema_js.Index.Entry.{IndexEntry, NoEntry, get_entry_size, build_entry, build_entry_from_vec}
use schema_js.Index.Types.{IndexKey, IndexValue}
use Prim.Native.Nat.{Ordering}
use Prim.Native.Nat.Ordering.{lt, eq, gt}

pub record IndexShard (Uuid : Type 0) : Type 0 where
  pub shards : MapShard (KvShard Uuid) KvShardConfig
  pub binary_order : Bool
  pub key_size : ℕ
  pub value_size : ℕ

-- `match get_el`: an error is `None`.
abbrev pub or_no_entry : Result ShardErrors Bytes → Result NoEntry Bytes
or_no_entry (ok el) = ok el
or_no_entry (err e) = err NoEntry.no_entry
or_no_entry panic = panic

-- `indx`
abbrev pub index_prefix : List ℕ → List ℕ
index_prefix name = (105 ∷ 110 ∷ 100 ∷ 120 ∷ []) ++ (name ++ (95 ∷ []))

module _ {Uuid : Type 0} ⦃u : UuidApi Uuid⦄ where
  unfoldable pub get_entry : IndexShard Uuid → ℕ → Bool → Result NoEntry IndexEntry
  get_entry x index global =
      (or_no_entry (
          if global
          then get_element shard_ops x.shards index
          else get_element_from_master shard_ops x.shards index)
        >>= λ el. build_entry_from_vec x.key_size el)

  abbrev pub get_entry_from_shard : KvShard Uuid → ℕ → Result ShardErrors Bytes
  get_entry_from_shard shard index = read_item_from_index shard index

  -- The file of the current shard with its entries `i` and `i - 1` exchanged.
  unfoldable pub swap_in_file : KvShard Uuid → ℕ → Bytes → Bytes → Result NoEntry (KvShard Uuid)
  swap_in_file shard i curr prev =
      let swap : Unit {0} → File → (Unit {0} × File) × Result NoEntry (Unit {0}) = λ s f.
        elim (swap_elements shard f i curr prev) [
          | ok f' ↦ ((s, f'), ok tt)
          | err _ ↦ ((s, f), panic)
          | panic ↦ ((s, f), panic)
        ] in
      let ((_, handler), done) = operate swap tt shard.data_handler in
      (done >>= λ _. ok (record shard { data_handler = handler }))

-- `mid.saturating_sub(1)` of a signed number from 0 on.
abbrev pub before : ℕ → ℤ
before zero = negsuc 0
before (suc mid) = pos mid

module _ {K V : Type 0} (key : IndexKey K) (value : IndexValue V) where
  abbrev pub build_kv : IndexEntry → Result NoEntry (K × V × Bytes)
  build_kv (key_unit, val_unit, el) = do
    k ← key.from_unit key_unit
    v ← value.from_unit val_unit
    ok (k, v, el)

  -- An entry as the shard stores it.
  abbrev pub entry_bytes : K × V → Bytes
  entry_bytes (k, v) = into_bytes (build_entry (key.into_vec k) (value.into_vec v))

module _ {Uuid : Type 0} ⦃u : UuidApi Uuid⦄ (w : World Uuid) where
  -- `IndexShard::new`, on the names in the folder and with the id that is drawn.
  unfoldable pub new_index_shard :
      List FileName
      → List ℕ
      → ℕ
      → ℕ
      → Option ℕ
      → Option Bool
      → Uuid
      → Result NoEntry (IndexShard Uuid)
  new_index_shard names index_name key_size value_size max_capacity binary_order id =
      (unwrap (
          new_map_shard shard_ops w
            (record {
              value_size = get_entry_size key_size value_size;
              max_capacity = max_capacity;
            })
            names (index_prefix index_name) id)
        >>= λ m. ok (record {
          shards = m;
          binary_order = unwrap_or binary_order false;
          key_size = key_size;
          value_size = value_size;
        }))

module _ {Uuid K V : Type 0} ⦃u : UuidApi Uuid⦄ (key : IndexKey K) (value : IndexValue V) where
  unfoldable pub get_kv : IndexShard Uuid → ℕ → Bool → Result NoEntry (K × V × Bytes)
  get_kv x index global = get_entry x index global >>= build_kv key value

  -- One round of `keep_binary_order` at the index `i` with the entry before it.
  abbrev pub order_step :
      IndexShard Uuid → ℕ → (K × V × Bytes) → (K × V × Bytes) → Result NoEntry (IndexShard Uuid)
  order_step x i (_, _, curr) (_, _, prev) =
      (swap_in_file x.shards.current_master_shard i curr prev >>= λ shard.
      ok (record x { shards = record x.shards { current_master_shard = shard } }))

  -- The loop of `keep_binary_order` while `i > 0`.
  unfoldable pub order_from : ℕ → IndexShard Uuid → Result NoEntry (IndexShard Uuid)
  order_from zero x = ok x
  order_from (suc i) x = do
    curr ← unwrap (get_kv x (suc i) false)
    prev ← unwrap (get_kv x i false)
    elim (key.cmp curr.0 prev.0) [
      | lt ↦ order_step x (suc i) curr prev >>= order_from i
      | eq ↦ ok x
      | gt ↦ ok x
    ]

  abbrev pub order_last : ℤ → IndexShard Uuid → Result NoEntry (IndexShard Uuid)
  order_last (pos i) x = order_from i x
  order_last (negsuc i) x = ok x

  unfoldable pub keep_binary_order : IndexShard Uuid → Result NoEntry (IndexShard Uuid)
  keep_binary_order x = order_last (get_last_index x.shards.current_master_shard) x

  -- The entry at an index of a shard, unwrapped.
  unfoldable pub kv_at : IndexShard Uuid → KvShard Uuid → ℕ → Result NoEntry (K × V × Bytes)
  kv_at x shard mid = do
    entry ← unwrap (get_entry_from_shard shard mid)
    units ← unwrap (build_entry_from_vec x.key_size entry)
    build_kv key value units

  -- The loop `while left <= right`, on fuel.
  unfoldable pub search_loop :
      IndexShard Uuid → KvShard Uuid → K → ℕ → ℕ → ℤ → Result NoEntry (Option (ℕ × K × V))
  search_loop x shard target zero left right = panic
  search_loop x shard target (suc fuel) left (negsuc r) = ok none
  search_loop x shard target (suc fuel) left (pos right) = elim (leb left right) [
    | false ↦ ok none
    | true ↦
        let mid = left + (right - left) / 2 in
        (kv_at x shard mid >>= λ kv. elim (key.cmp kv.0 target) [
          | lt ↦ search_loop x shard target fuel (mid + 1) (pos right)
          | eq ↦ ok (some (mid, kv.0, kv.1))
          | gt ↦ search_loop x shard target fuel left (before mid)
        ])
  ]

  -- Each round leaves a shorter range, so that one round more than there are entries is enough.
  unfoldable pub raw_binary_search :
      IndexShard Uuid → KvShard Uuid → K → Result NoEntry (Option (ℕ × K × V))
  raw_binary_search x shard target =
      search_loop x shard target (shard.header.items_len + 1) 0 (get_last_index shard)

  -- The loop over the shards: the first one in which the key is found.
  unfoldable pub search_shards :
      IndexShard Uuid → List (KvShard Uuid) → K → Result NoEntry (Option (ℕ × K × V))
  search_shards x [] target = ok none
  search_shards x (shard ∷ shards) target =
      (raw_binary_search x shard target >>= λ found. elim found [
        | some hit ↦ ok (some hit)
        | none ↦ search_shards x shards target
      ])

  unfoldable pub binary_search : IndexShard Uuid → K → Result NoEntry (Option (ℕ × K × V))
  binary_search x target = elim (breaking_point x.shards.current_master_shard) [
    | none ↦ raw_binary_search x x.shards.current_master_shard target
    | some _ ↦
        search_shards x (x.shards.current_master_shard ∷ map (λ p. p.1) x.shards.past_master_shards)
          target
  ]

  abbrev pub order_if : Bool → IndexShard Uuid → Result NoEntry (IndexShard Uuid)
  order_if true x = keep_binary_order x
  order_if false x = ok x

  module _ (w : World Uuid) where
    unfoldable pub raw_insert : IndexShard Uuid → List (K × V) → Result NoEntry (IndexShard Uuid)
    raw_insert x rows =
        (unwrap (insert_rows shard_ops w (map (entry_bytes key value) rows) x.shards)
          >>= λ inserted. order_if x.binary_order (record x { shards = inserted.0 }))

    abbrev pub insert : IndexShard Uuid → K → V → Result NoEntry (IndexShard Uuid)
    insert x k v = raw_insert x ((k, v) ∷ [])
