-- ===== src/KvShard/Ops.antt =====
-- crates/data/src/shard/shards/kv/shard.rs: `KvShard` and its `Shard` implementation, with util.rs
-- and config.rs.
use schema_js.Prelude.{
  ℕ, zero, suc, ◌+◌, ◌*◌, List, Bool, true, false, Option, none, some, length, flatten, ltb, ◌==◌,
  if◌then◌else◌,
}
use schema_js.Prelude.Int.{ℤ, negsuc, as_u64, as_i64, suc_ℤ, leb_ℤ}
use schema_js.Prelude.Results.{
  Result, ok, err, panic, ◌>>=◌, ok_or, checked_sub, in_usize, unwrap_or,
}
use schema_js.Prelude.Bytes.{Bytes}
use schema_js.Storage.File.{File, Platform, write_all, write_at}
use schema_js.Storage.Handler.{DataHandler, FileName, new_from_path, read_pointer, operate}
use schema_js.Shard.Errors.{ShardErrors, AvailableSpace}
use schema_js.Shard.Trait.{Shard}
use schema_js.Uuid.{UuidApi}
use schema_js.KvShard.Header.{KvShardHeader, header_size, increment_len, new_from_file}

pub record KvShardConfig : Type 0 where
  pub value_size : ℕ
  pub max_capacity : Option ℕ

pub record KvShard (Uuid : Type 0) : Type 0 where
  pub path : FileName
  pub data_handler : DataHandler
  pub header : KvShardHeader Uuid
  pub value_size : ℕ
  pub max_capacity : ℕ
  pub id : Uuid

unfoldable pub get_element_offset : {E : Type 0} → ℕ → ℕ → Result E ℕ
get_element_offset index value_size =
    (in_usize (index * value_size) >>= λ length. in_usize (header_size + length))

abbrev pub last_of : ℕ → ℤ
last_of zero = negsuc 0
last_of (suc n) = as_i64 n

abbrev pub insert_result : Result ShardErrors ℕ → Result ShardErrors ℕ
insert_result (ok new_len) = ok new_len
insert_result (err e) = err ShardErrors.error_adding_entry
insert_result panic = panic

module _ {Uuid : Type 0} where
  unfoldable pub get_element : {E : Type 0} → KvShard Uuid → ℕ → Result E (Option Bytes)
  get_element s index =
      (get_element_offset index s.value_size >>= λ offset.
      ok (read_pointer s.data_handler offset s.value_size))

  -- `first_element` goes to the place before `i`; before the first place there is none.
  unfoldable pub swap_elements : KvShard Uuid → File → ℕ → Bytes → Bytes → Result ShardErrors File
  swap_elements s f i first_element second_element = do
    upper ← get_element_offset i s.value_size
    before ← checked_sub i 1
    lower ← get_element_offset before s.value_size
    ok (write_at (write_at f second_element upper) first_element lower)

  unfoldable pub get_last_index : KvShard Uuid → ℤ
  get_last_index s = last_of s.header.items_len

  unfoldable pub has_space : KvShard Uuid → Bool
  has_space s =
      if s.max_capacity == 0
      then true
      else (if leb_ℤ (as_i64 s.max_capacity) (suc_ℤ (get_last_index s)) then false else true)

  unfoldable pub breaking_point : KvShard Uuid → Option ℕ
  breaking_point s = if ltb 0 s.max_capacity then some s.max_capacity else none

  unfoldable pub read_item_from_index : KvShard Uuid → ℕ → Result ShardErrors Bytes
  read_item_from_index s index =
      (get_element s index >>= λ element. ok_or element ShardErrors.unknown_entry)

  unfoldable pub available_space : KvShard Uuid → Result ShardErrors AvailableSpace
  available_space s =
      if s.max_capacity == 0
      then ok AvailableSpace.unlimited
      else (checked_sub s.max_capacity (as_u64 (suc_ℤ (get_last_index s))) >>= λ space.
          ok (AvailableSpace.fixed space))

  -- The closure that `insert_item` hands to `operate`.
  abbrev pub append_items :
      List Bytes → KvShardHeader Uuid → File → (KvShardHeader Uuid × File) × Result ShardErrors ℕ
  append_items items h f = increment_len h (some (length items)) (write_all f (flatten items))

  abbrev pub with_parts :
      KvShard Uuid
      → (KvShardHeader Uuid × DataHandler) × Result ShardErrors ℕ
      → KvShard Uuid × Result ShardErrors ℕ
  with_parts s ((h, d), r) = (record s { header = h; data_handler = d }, insert_result r)

  unfoldable pub insert_item : KvShard Uuid → List Bytes → KvShard Uuid × Result ShardErrors ℕ
  insert_item s items = with_parts s (operate (append_items items) s.header s.data_handler)

  -- The shard of a header that was read or made.
  abbrev pub with_header : FileName → KvShardHeader Uuid × DataHandler → KvShard Uuid
  with_header path (h, d) = record {
    path = path;
    data_handler = d;
    header = h;
    value_size = h.value_size;
    max_capacity = unwrap_or h.max_capacity 0;
    id = h.id;
  }

  module _ ⦃u : UuidApi Uuid⦄ where
    -- `new`
    unfoldable pub open_shard :
        Platform
        → FileName
        → Bytes
        → KvShardConfig
        → Option Uuid
        → Uuid
        → Result ShardErrors (KvShard Uuid)
    open_shard platform path contents opts uuid drawn =
        (new_from_file (new_from_path platform path contents) uuid (some 0) opts.max_capacity
            opts.value_size drawn
          >>= λ p. ok (with_header path p))

    abbrev pub shard_ops : Shard (KvShard Uuid) KvShardConfig Uuid
    shard_ops = record {
      open_shard = open_shard;
      has_space = has_space;
      breaking_point = breaking_point;
      get_path = λ s. s.path;
      get_last_index = get_last_index;
      read_item_from_index = read_item_from_index;
      available_space = available_space;
      insert_item = insert_item;
    }
