-- ===== src/DataShard/Ops.antt =====
-- crates/data/src/shard/shards/data_shard/shard.rs: `DataShard` and its `Shard` implementation.
use schema_js.Prelude.{
  ℕ, ◌+◌, List, [], ◌∷◌, Bool, Option, some, length, flatten, leb, ◌==◌, if◌then◌else◌,
}
use schema_js.Prelude.Int.{ℤ, as_u64}
use schema_js.Prelude.Results.{Result, ok, err, panic, ◌>>=◌, ok_or, checked_sub}
use schema_js.Prelude.Bytes.{Bytes}
use schema_js.Storage.File.{File, Platform, file_len, write_all}
use schema_js.Storage.Handler.{DataHandler, FileName, new_from_path, len, read_pointer, operate}
use schema_js.Shard.Errors.{ShardErrors, AvailableSpace}
use schema_js.Shard.Trait.{Shard}
use schema_js.Uuid.{UuidApi}
use schema_js.DataShard.Config.{DataShardConfig}
use schema_js.DataShard.Header.{
  DataShardHeader, u64_size, header_has_space, header_available_space, get_offset_pos_by_index,
  get_offset_value_from_offset_header, add_next_offset, new_from_file,
}

pub record DataShard (Uuid : Type 0) : Type 0 where
  pub path : FileName
  pub header : DataShardHeader Uuid
  pub data_handler : DataHandler
  pub id : Uuid

-- The kinds of `std::io::Error` that `insert_item` tells apart.
pub data IoErrorKind : Type 0 where
  out_of_memory other : IoErrorKind

abbrev pub insert_result : Result IoErrorKind ℤ → Result ShardErrors ℕ
insert_result (ok offset) = ok (as_u64 offset)
insert_result (err IoErrorKind.out_of_memory) = err ShardErrors.out_of_positions
insert_result (err IoErrorKind.other) = err ShardErrors.flushing_error
insert_result panic = panic

-- `end_reading`: nothing to look up behind the last slot.
abbrev pub end_reading : DataHandler → ℕ → ℕ → Option ℕ
end_reading d max_offset_positions next_offset_pos =
    if max_offset_positions == next_offset_pos
    then some 0
    else get_offset_value_from_offset_header d next_offset_pos

-- `read_up_to`: 0 stands for a slot that is not used yet.
abbrev pub read_up_to : DataHandler → ℕ → ℕ
read_up_to d end_pos = if end_pos == 0 then len d else end_pos

module _ {Uuid : Type 0} where
  -- What `read_item` does once the item's own offset is known.
  abbrev pub read_from : DataShard Uuid → ℕ → ℕ → Result ShardErrors Bytes
  read_from s offset_position start_pos =
      let next_offset_pos = offset_position + u64_size in
      if leb next_offset_pos s.header.max_offset_positions
      then (do
        end_pos ←
            ok_or (end_reading s.data_handler s.header.max_offset_positions next_offset_pos)
              ShardErrors.unknown_offset
        length_read ← checked_sub (read_up_to s.data_handler end_pos) start_pos
        ok_or (read_pointer s.data_handler start_pos length_read)
            ShardErrors.error_reading_byte_range)
      else panic

  unfoldable pub read_item : DataShard Uuid → ℕ → Result ShardErrors Bytes
  read_item s offset_position = do
    start_pos ←
        ok_or (get_offset_value_from_offset_header s.data_handler offset_position)
          ShardErrors.unknown_offset
    read_from s offset_position start_pos

  unfoldable pub read_item_from_index : DataShard Uuid → ℕ → Result ShardErrors Bytes
  read_item_from_index s index = do
    pos_in_header ← ok_or (get_offset_pos_by_index s.header index) ShardErrors.unknown_offset
    read_item s pos_in_header

  -- The loop `for item in data`, one offset for each item.
  unfoldable pub add_offsets :
      List Bytes
      → ℕ
      → DataShardHeader Uuid × File
      → (DataShardHeader Uuid × File) × Result IoErrorKind (Unit {0})
  add_offsets [] curr_offset p = (p, ok tt)
  add_offsets (item ∷ items) curr_offset (h, f) =
      let next = add_next_offset h curr_offset f in
      elim next.1 [
        | ok _ ↦ add_offsets items (curr_offset + length item) next.0
        | err _ ↦ (next.0, err IoErrorKind.out_of_memory)
        | panic ↦ (next.0, panic)
      ]

  abbrev pub last_index_of :
      (DataShardHeader Uuid × File) × Result IoErrorKind (Unit {0})
      → (DataShardHeader Uuid × File) × Result IoErrorKind ℤ
  last_index_of ((h, f), r) = ((h, f), r >>= λ _. ok h.last_offset_index)

  -- The closure that `insert_item` hands to `operate`.
  unfoldable pub insert_callback :
      List Bytes
      → DataShardHeader Uuid
      → File
      → (DataShardHeader Uuid × File) × Result IoErrorKind ℤ
  insert_callback items h f =
      last_index_of (add_offsets items (file_len f) (h, write_all f (flatten items)))

  abbrev pub with_parts :
      DataShard Uuid
      → (DataShardHeader Uuid × DataHandler) × Result IoErrorKind ℤ
      → DataShard Uuid × Result ShardErrors ℕ
  with_parts s ((h, d), r) = (record s { header = h; data_handler = d }, insert_result r)

  unfoldable pub insert_item : DataShard Uuid → List Bytes → DataShard Uuid × Result ShardErrors ℕ
  insert_item s items = with_parts s (operate (insert_callback items) s.header s.data_handler)

  abbrev pub get_last_index : DataShard Uuid → ℤ
  get_last_index s = s.header.last_offset_index

  unfoldable pub has_space : DataShard Uuid → Bool
  has_space s = header_has_space s.header

  unfoldable pub available_space : DataShard Uuid → Result ShardErrors AvailableSpace
  available_space s = header_available_space s.header >>= λ n. ok (AvailableSpace.fixed n)

  module _ ⦃u : UuidApi Uuid⦄ where
    -- `new`: opens the file at the path, which exists already or is created empty.
    unfoldable pub open_shard :
        Platform
        → FileName
        → Bytes
        → DataShardConfig
        → Option Uuid
        → Uuid
        → Result ShardErrors (DataShard Uuid)
    open_shard platform path contents opts uuid drawn = do
      (h, d) ← new_from_file (new_from_path platform path contents) opts.max_offsets uuid drawn
      ok (record { path = path; header = h; data_handler = d; id = h.id })

    abbrev pub shard_ops : Shard (DataShard Uuid) DataShardConfig Uuid
    shard_ops = record {
      open_shard = open_shard;
      has_space = has_space;
      breaking_point = λ s. some s.header.max_offsets;
      get_path = λ s. s.path;
      get_last_index = get_last_index;
      read_item_from_index = read_item_from_index;
      available_space = available_space;
      insert_item = insert_item;
    }
