-- ===== src/DataShard/Open.antt =====
-- Opening a data shard: a new file gets an empty table; an existing one gives its items back, but
-- not their number.
use schema_js.Prelude.{
  ℕ, zero, suc, ◌+◌, ◌*◌, ◌≡◌, refl, sym, ap, ap₂, ◌∙◌, [], ◌++◌, Option, some, length,
  length-append, length-replicate, replicate, replicate-add, append_assoc, append-nil, arith,
}
use schema_js.Prelude.Int.{negsuc}
use schema_js.Prelude.Results.{ok, unwrap_or}
use schema_js.Prelude.Bytes.{
  Bytes, IsU64, to_le_bytes, length-to_le_bytes, i64_to_le_bytes, length-i64_to_le_bytes,
  from_le_bytes-to_le_bytes, to_le_bytes_zero, i64_minus_one,
}
use schema_js.Storage.File.{Platform, write_all}
use schema_js.Storage.Handler.{
  DataHandler, FileName, new_from_path, operate, IsSynced, read_pointer, read_pointer-append,
}
use schema_js.Uuid.{UuidApi}
use schema_js.DataShard.Config.{DataShardConfig}
use schema_js.DataShard.Header.{
  DataShardHeader, default_max_offsets, calculate_offset_pos, header_buffer, new_header,
  initialize_empty_file, read_header, new_from_file,
}
use schema_js.DataShard.Ops.{DataShard, open_shard}
use schema_js.DataShard.Layout.{table_bytes, data_start, with_table, Stored, length-with_table}

abbrev TableOfZeros : ℕ → Type 0
TableOfZeros n = table_bytes (replicate n 0) ≡ replicate (n * 8) 0

table_bytes-zeros : (n : ℕ) → TableOfZeros n
table_bytes-zeros zero = refl
table_bytes-zeros (suc n) =
    let e : suc n * 8 ≡ 8 + n * 8 = omega arith in
    rw e (
      ap₂ (λ (a b : Bytes). a ++ b) to_le_bytes_zero (table_bytes-zeros n)
      ∙ sym (replicate-add {A = ℕ} 8 (n * 8) 0))

-- The capacity that a configuration asks for.
abbrev pub capacity_of : DataShardConfig → ℕ
capacity_of opts = unwrap_or opts.max_offsets default_max_offsets

module _ {Uuid : Type 0} ⦃u : UuidApi Uuid⦄ where
  -- The first 32 bytes of the file of a shard; the index in them is never updated.
  abbrev pub front_of : ℕ → Uuid → Bytes
  front_of max_offsets id =
      to_le_bytes max_offsets ++ (i64_to_le_bytes (negsuc 0) ++ u.to_bytes_le id)

  pub length-front_of : (max_offsets : ℕ) (id : Uuid) → length (front_of max_offsets id) ≡ 32
  length-front_of max_offsets id = omega (
    arith,
    length-append (to_le_bytes max_offsets) (i64_to_le_bytes (negsuc 0) ++ u.to_bytes_le id),
    length-append (i64_to_le_bytes (negsuc 0)) (u.to_bytes_le id),
    length-to_le_bytes max_offsets,
    length-i64_to_le_bytes (negsuc 0),
    u.length-to_bytes_le id,
  )

  new_file :
      (max_offsets : ℕ) (id : Uuid) (positions : ℕ)
      → header_buffer (record {
        max_offsets = max_offsets;
        last_offset_index = negsuc 0;
        max_offset_positions = positions;
        id = id;
      })
        ≡ with_table (front_of max_offsets id) (replicate max_offsets 0) []
  new_file max_offsets id positions =
      rw (table_bytes-zeros max_offsets) (simp (append_assoc, append-nil))

  -- What `new` makes at a path where nothing is.
  abbrev pub fresh_shard : FileName → ℕ → Uuid → DataShard Uuid
  fresh_shard path max_offsets id =
      let header : DataShardHeader Uuid = record {
        max_offsets = max_offsets;
        last_offset_index = negsuc 0;
        max_offset_positions = data_start max_offsets;
        id = id;
      } in
      record {
        path = path;
        header = header;
        data_handler = record {
          path = path;
          map_len = length (header_buffer header);
          file = record { platform = Platform.posix; bytes = header_buffer header };
        };
        id = id;
      }

  pub open_shard_new :
      (path : FileName) (opts : DataShardConfig) (uuid : Option Uuid) (drawn : Uuid)
      → open_shard Platform.posix path [] opts uuid drawn
        ≡ ok (fresh_shard path (capacity_of opts) (unwrap_or uuid drawn))
  unfolding open_shard new_from_file new_from_path initialize_empty_file operate write_all
      new_header calculate_offset_pos
  open_shard_new path opts uuid drawn = refl

  pub fresh_shard-Stored :
      (path : FileName) (max_offsets : ℕ) (id : Uuid)
      → IsU64 (data_start max_offsets)
      → Stored (front_of max_offsets id) max_offsets (fresh_shard path max_offsets id) []
  fresh_shard-Stored path max_offsets id fits = record {
    front_len = length-front_of max_offsets id;
    capacity = omega arith;
    positions = omega arith;
    last = refl;
    layout = new_file max_offsets id (data_start max_offsets);
    synced = refl;
    on_posix = refl;
    small = omega (arith, fits, size);
  }
    where
      size :
          length (fresh_shard path max_offsets id).data_handler.file.bytes ≡ data_start max_offsets
      size =
          ap length (new_file max_offsets id (data_start max_offsets))
          ∙ length-with_table (front_of max_offsets id) (replicate max_offsets 0) []
              (length-front_of max_offsets id)
          ∙ omega (arith, length-replicate {A = ℕ} max_offsets 0)

  -- Reading the header of a file that starts with one.
  pub read_header_lem :
      (h : DataShardHeader Uuid) (d : DataHandler) (max_offsets : ℕ) (id : Uuid) (rest : Bytes)
      → IsSynced d
      → IsU64 max_offsets
      → d.file.bytes ≡ front_of max_offsets id ++ rest
      → read_header h d
        ≡ ok (record {
          max_offsets = max_offsets;
          last_offset_index = negsuc 0;
          max_offset_positions = data_start max_offsets;
          id = id;
        })
  unfolding read_header read_pointer calculate_offset_pos
  read_header_lem h d max_offsets id rest synced fits e =
      let a = to_le_bytes max_offsets in
      let b = i64_to_le_bytes (negsuc 0) in
      let c = u.to_bytes_le id in
      let ab = length-append a b in
      let first : read_pointer d 0 8 ≡ some a =
        read_pointer-append d [] a (b ++ (c ++ rest)) 0 8 synced (e ∙ simp append_assoc) refl
          (length-to_le_bytes max_offsets) in
      let second : read_pointer d 8 8 ≡ some b =
        read_pointer-append d a b (c ++ rest) 8 8 synced (e ∙ simp append_assoc)
          (length-to_le_bytes max_offsets) (length-i64_to_le_bytes (negsuc 0)) in
      let third : read_pointer d 16 16 ≡ some c =
        read_pointer-append d (a ++ b) c rest 16 16 synced (e ∙ simp append_assoc)
          (omega (arith, length-to_le_bytes max_offsets, length-i64_to_le_bytes (negsuc 0)))
          (u.length-to_bytes_le id) in
      rw (
        first,
        second,
        third,
        i64_minus_one,
        from_le_bytes-to_le_bytes max_offsets fits,
        u.from_bytes_le-to_bytes_le id,
      )
