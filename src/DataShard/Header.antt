-- ===== src/DataShard/Header.antt =====
-- crates/data/src/shard/shards/data_shard/shard_header.rs: the header of a data shard. The file
-- starts with `max_offsets` (u64), `last_offset_index` (i64), the id (16 bytes) and the table of
-- `max_offsets` offsets (u64 each). The handler that the source's header points to is an argument.
use schema_js.Prelude.{
  ℕ, ◌+◌, ◌*◌, ◌++◌, Bool, true, Option, none, some, replicate, ltb, ◌==◌, if◌then◌else◌, length,
}
use schema_js.Prelude.Int.{ℤ, pos, negsuc, is_minus_one, suc_ℤ, as_u64}
use schema_js.Prelude.Results.{Result, ok, err, panic, ◌>>=◌, expect_some, unwrap_or, checked_sub}
use schema_js.Prelude.Bytes.{Bytes, to_le_bytes, from_le_bytes, i64_to_le_bytes, i64_from_le_bytes}
use schema_js.Storage.File.{File, file_len, write_all, write_at}
use schema_js.Storage.Handler.{DataHandler, get_bytes, read_pointer, operate}
use schema_js.Shard.Errors.{ShardErrors}
use schema_js.Uuid.{UuidApi}

abbrev pub u64_size : ℕ
u64_size = 8

abbrev pub i64_size : ℕ
i64_size = 8

abbrev pub uuid_byte_len : ℕ
uuid_byte_len = 16

abbrev pub default_max_offsets : ℕ
default_max_offsets = 100

pub record DataShardHeader (Uuid : Type 0) : Type 0 where
  pub max_offsets : ℕ
  pub last_offset_index : ℤ
  pub max_offset_positions : ℕ
  pub id : Uuid

unfoldable pub calculate_offset_pos : ℕ → ℕ
calculate_offset_pos index = u64_size + i64_size + uuid_byte_len + index * u64_size

unfoldable pub get_offset_value_from_offset_header : DataHandler → ℕ → Option ℕ
get_offset_value_from_offset_header h offset = elim (read_pointer h offset u64_size) [
  | none ↦ none
  | some bytes ↦ if length bytes == 8 then some (from_le_bytes bytes) else none
]

module _ {Uuid : Type 0} where
  -- `drawn` is what `Uuid::new_v4` returns, if it is called.
  unfoldable pub new_header : ℕ → Option Uuid → Uuid → DataShardHeader Uuid
  new_header max_offsets uuid drawn = record {
    max_offsets = max_offsets;
    last_offset_index = negsuc 0;
    max_offset_positions = calculate_offset_pos max_offsets;
    id = unwrap_or uuid drawn;
  }

  unfoldable pub header_has_space : DataShardHeader Uuid → Bool
  header_has_space h =
      if is_minus_one h.last_offset_index
      then true
      else ltb (as_u64 (suc_ℤ h.last_offset_index)) h.max_offsets

  unfoldable pub header_available_space : DataShardHeader Uuid → Result ShardErrors ℕ
  header_available_space h =
      if is_minus_one h.last_offset_index
      then ok h.max_offsets
      else checked_sub h.max_offsets (as_u64 h.last_offset_index + 1)

  unfoldable pub get_next_available_index : DataShardHeader Uuid → Option ℕ
  get_next_available_index h =
      if header_has_space h
      then (if is_minus_one h.last_offset_index
          then some 0
          else some (as_u64 h.last_offset_index + 1))
      else none

  unfoldable pub get_offset_pos_by_index : DataShardHeader Uuid → ℕ → Option ℕ
  get_offset_pos_by_index h index =
      if ltb (calculate_offset_pos index) h.max_offset_positions
      then some (calculate_offset_pos index)
      else none

  -- The two lookups that `add_next_offset` makes: the next free slot and its place in the file.
  abbrev pub next_slot : DataShardHeader Uuid → Option (ℕ × ℕ)
  next_slot h = elim (get_next_available_index h) [
    | none ↦ none
    | some index ↦ elim (get_offset_pos_by_index h index) [
      | none ↦ none
      | some at ↦ some (index, at)
    ]
  ]

  abbrev pub write_slot :
      DataShardHeader Uuid
      → ℕ
      → File
      → Option (ℕ × ℕ)
      → (DataShardHeader Uuid × File) × Result ShardErrors (Unit {0})
  write_slot h value f none = ((h, f), err ShardErrors.out_of_positions)
  write_slot h value f (some (index, at)) =
      ((record h { last_offset_index = pos index }, write_at f (to_le_bytes value) at), ok tt)

  -- The header and the file are changed; the new index is written to the header only.
  unfoldable pub add_next_offset :
      DataShardHeader Uuid
      → ℕ
      → File
      → (DataShardHeader Uuid × File) × Result ShardErrors (Unit {0})
  add_next_offset h value f = write_slot h value f (next_slot h)

  module _ ⦃u : UuidApi Uuid⦄ where
    abbrev pub header_buffer : DataShardHeader Uuid → Bytes
    header_buffer h =
        to_le_bytes h.max_offsets
        ++ (i64_to_le_bytes h.last_offset_index
            ++ (u.to_bytes_le h.id ++ replicate (h.max_offsets * u64_size) 0))

    unfoldable pub initialize_empty_file :
        DataShardHeader Uuid
        → DataHandler
        → (DataShardHeader Uuid × DataHandler) × Result ShardErrors (Unit {0})
    initialize_empty_file h d = operate (λ s f. ((s, write_all f (header_buffer s)), ok tt)) h d

    unfoldable pub read_header :
        DataShardHeader Uuid → DataHandler → Result ShardErrors (DataShardHeader Uuid)
    read_header h d = do
      max_offset_bytes ← expect_some (get_bytes d 0 u64_size)
      let max_offsets = from_le_bytes max_offset_bytes
      last_offset_index_bytes ← expect_some (read_pointer d u64_size i64_size)
      id_bytes ← expect_some (read_pointer d (u64_size + i64_size) uuid_byte_len)
      ok (record h {
        max_offsets = max_offsets;
        last_offset_index = i64_from_le_bytes last_offset_index_bytes;
        max_offset_positions = calculate_offset_pos max_offsets;
        id = u.from_bytes_le id_bytes;
      })

    abbrev created :
        (DataShardHeader Uuid × DataHandler) × Result ShardErrors (Unit {0})
        → Result ShardErrors (DataShardHeader Uuid × DataHandler)
    created (p, ok _) = ok p
    created (p, err e) = panic
    created (p, panic) = panic

    unfoldable pub new_from_file :
        DataHandler
        → Option ℕ
        → Option Uuid
        → Uuid
        → Result ShardErrors (DataShardHeader Uuid × DataHandler)
    new_from_file d max_offsets uuid drawn =
        let header = new_header (unwrap_or max_offsets default_max_offsets) uuid drawn in
        if file_len d.file == 0
        then created (initialize_empty_file header d)
        else (read_header header d >>= λ h. ok (h, d))
