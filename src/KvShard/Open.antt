-- ===== src/KvShard/Open.antt =====
-- Opening a key-value shard: a new file, and the file of one that was in use.
use schema_js.Prelude.{
  ℕ, ◌<◌, ◌≡◌, refl, ap, ◌∙◌, List, [], ◌++◌, Option, some, length, length-append, flatten,
  append_assoc, ◌==◌, false, arith,
}
use schema_js.Prelude.Results.{ok, unwrap_or}
use schema_js.Prelude.Bytes.{
  Bytes, IsU64, to_le_bytes, length-to_le_bytes, from_le_bytes-to_le_bytes,
}
use schema_js.Storage.File.{Platform, write_all}
use schema_js.Storage.Handler.{
  DataHandler, FileName, IsSynced, new_from_path, operate, read_pointer, read_pointer-append,
}
use schema_js.Uuid.{UuidApi}
use schema_js.KvShard.Header.{
  KvShardHeader, header_bytes, initialize_empty_file, read_header, new_header, new_from_file,
}
use schema_js.KvShard.Ops.{KvShard, KvShardConfig, open_shard, with_header}
use schema_js.KvShard.Layout.{Entries, length-header_bytes}

==_pos : (n : ℕ) → 0 < n → (n == 0) ≡ false
==_pos n h = ground arith

module _ {Uuid : Type 0} ⦃u : UuidApi Uuid⦄ where
  -- A new file holds no entries; a configuration without a capacity is written as 0.
  pub open_shard_new :
      (path : FileName) (opts : KvShardConfig) (uuid : Option Uuid) (drawn : Uuid)
      → IsU64 (unwrap_or opts.max_capacity 0)
      → IsU64 opts.value_size
      → (s : KvShard Uuid) × (open_shard Platform.posix path [] opts uuid drawn ≡ ok s)
        × Entries (unwrap_or opts.max_capacity 0) opts.value_size (unwrap_or uuid drawn) s []
        × (s.path ≡ path)
  unfolding open_shard new_from_file new_from_path initialize_empty_file operate write_all
  open_shard_new path opts uuid drawn capacity_fits size_fits = (
    _,
    refl,
    record {
      sizes = tt;
      count = refl;
      own_size = refl;
      own_capacity = refl;
      layout = refl;
      synced = refl;
      on_posix = refl;
      capacity_fits = capacity_fits;
      count_fits = omega arith;
      size_fits = size_fits;
      file_fits = omega arith;
    },
    refl,
  )

  -- The header is read back from a file that starts with it.
  read_header_lem :
      (h : KvShardHeader Uuid) (d : DataHandler) (capacity count size : ℕ) (id : Uuid)
      (rest : Bytes)
      → IsSynced d
      → IsU64 capacity
      → IsU64 count
      → IsU64 size
      → d.file.bytes ≡ header_bytes capacity count size id rest
      → read_header h d
        ≡ ok
            (record { max_capacity = some capacity; items_len = count; value_size = size; id = id })
  unfolding read_header read_pointer
  read_header_lem h d capacity count size id rest synced fits_a fits_b fits_c e =
      let a = to_le_bytes capacity in
      let b = to_le_bytes count in
      let c = to_le_bytes size in
      let i = u.to_bytes_le id in
      let ab = length-append a b in
      let abc = length-append (a ++ b) c in
      let la = length-to_le_bytes capacity in
      let lb = length-to_le_bytes count in
      let lc = length-to_le_bytes size in
      let first : read_pointer d 0 8 ≡ some a =
        read_pointer-append d [] a (b ++ (c ++ (i ++ rest))) 0 8 synced e refl la in
      let second : read_pointer d 8 8 ≡ some b =
        read_pointer-append d a b (c ++ (i ++ rest)) 8 8 synced e la lb in
      let third : read_pointer d 16 8 ≡ some c =
        read_pointer-append d (a ++ b) c (i ++ rest) 16 8 synced (e ∙ simp append_assoc)
          (omega arith) lc in
      let fourth : read_pointer d 24 16 ≡ some i =
        read_pointer-append d ((a ++ b) ++ c) i rest 24 16 synced (e ∙ simp append_assoc)
          (omega arith) (u.length-to_bytes_le id) in
      rw (
        first,
        second,
        third,
        fourth,
        from_le_bytes-to_le_bytes capacity fits_a,
        from_le_bytes-to_le_bytes count fits_b,
        from_le_bytes-to_le_bytes size fits_c,
        u.from_bytes_le-to_bytes_le id,
      )

  -- The file of a shard in use, opened again with whatever configuration and id, is a shard that
  -- stores the same entries under its own capacity, entry size and id.
  pub open_shard-Entries :
      {capacity size : ℕ} {id : Uuid} {s : KvShard Uuid} (items : List Bytes) (path : FileName)
      (opts : KvShardConfig) (uuid : Option Uuid) (drawn : Uuid)
      → Entries capacity size id s items
      → (t : KvShard Uuid) × (open_shard Platform.posix path s.data_handler.file.bytes opts uuid
            drawn
          ≡ ok t)
        × Entries capacity size id t items
        × (t.id ≡ id)
  unfolding open_shard new_from_file new_from_path
  open_shard-Entries {capacity} {size} {id} {s} items path opts uuid drawn st =
      let contents = s.data_handler.file.bytes in
      let d = new_from_path Platform.posix path contents in
      let whole = length-header_bytes capacity (length items) size id (flatten items) in
      let some_bytes : 0 < length contents = omega (arith, ap length st.layout, whole) in
      (
        with_header path (
          record {
            max_capacity = some capacity;
            items_len = length items;
            value_size = size;
            id = id;
          },
          d,
        ),
        rw
            (
              ==_pos (length contents) some_bytes,
              read_header_lem (new_header 0 opts.max_capacity opts.value_size uuid drawn) d capacity
                  (length items) size id (flatten items) refl st.capacity_fits st.count_fits
                  st.size_fits st.layout,
            )
            refl,
        record {
          sizes = st.sizes;
          count = refl;
          own_size = refl;
          own_capacity = refl;
          layout = st.layout;
          synced = refl;
          on_posix = refl;
          capacity_fits = st.capacity_fits;
          count_fits = st.count_fits;
          size_fits = st.size_fits;
          file_fits = st.file_fits;
        },
        refl,
      )
