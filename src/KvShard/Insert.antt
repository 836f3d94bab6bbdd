-- ===== src/KvShard/Insert.antt =====
-- Inserting into a key-value shard: the entries follow those that are there, and the header counts
-- them.
use schema_js.Prelude.{
  ℕ, ◌+◌, ◌*◌, ◌^◌, ◌≡◌, refl, sym, ap, ◌∙◌, List, ◌++◌, All, length, length-append, flatten,
  flatten-append, append_assoc, lt→ltb, overwrite, overwrite-append, arith,
}
use schema_js.Prelude.Results.{ok}
use schema_js.Prelude.Bytes.{Bytes, IsU64, to_le_bytes, length-to_le_bytes}
use schema_js.Storage.File.{File, Platform, write_all, write_at, write_at_on}
use schema_js.Storage.Handler.{operate, remap}
use schema_js.Uuid.{UuidApi}
use schema_js.KvShard.Header.{header_bytes, increment_len}
use schema_js.KvShard.Ops.{KvShard, insert_item}
use schema_js.KvShard.Layout.{Entries, All-append, file_fits-same}

module _ {Uuid : Type 0} ⦃u : UuidApi Uuid⦄ (capacity size : ℕ) (id : Uuid) (s : KvShard Uuid) where
  -- The new number of entries takes the place of the old one, behind the capacity.
  written :
      (items new : List Bytes) (count : ℕ)
      → overwrite 0
          (header_bytes capacity (length items) size id (flatten items) ++ flatten new)
          8
          (to_le_bytes count)
        ≡ header_bytes capacity count size id (flatten (items ++ new))
  written items new count =
      let c = to_le_bytes capacity in
      let n = to_le_bytes (length items) in
      let after : Bytes =
        to_le_bytes size ++ (u.to_bytes_le id ++ (flatten items ++ flatten new)) in
      let cut : header_bytes capacity (length items) size id (flatten items) ++ flatten new
          ≡ c ++ (n ++ after) =
        simp append_assoc in
      ap (λ b. overwrite 0 b 8 (to_le_bytes count)) cut
      ∙ overwrite-append 0 c n after (to_le_bytes count) 8 (length-to_le_bytes capacity)
          (length-to_le_bytes count ∙ sym (length-to_le_bytes (length items)))
      ∙ ap (λ b. header_bytes capacity count size id b) (sym (flatten-append items new))

  -- The file after an insertion.
  abbrev stored_file : List Bytes → File
  stored_file all = record {
    platform = Platform.posix;
    bytes = header_bytes capacity (length all) size id (flatten all);
  }

  abbrev pub stored_shard : List Bytes → KvShard Uuid
  stored_shard all = record s {
    header = record s.header { items_len = length all };
    data_handler = remap s.data_handler (stored_file all);
  }

  file_form :
      (items new : List Bytes)
      → Entries capacity size id s items
      → write_at
          (write_all s.data_handler.file (flatten new))
          (to_le_bytes (length (items ++ new)))
          8
        ≡ stored_file (items ++ new)
  unfolding write_at write_all
  file_form items new st = λ i. record { platform = st.on_posix i; bytes = bytes_form i }
    where
      bytes_form :
          write_at_on s.data_handler.file.platform
            (s.data_handler.file.bytes ++ flatten new)
            8
            (to_le_bytes (length (items ++ new)))
          ≡ header_bytes capacity (length (items ++ new)) size id (flatten (items ++ new))
      bytes_form = rw (st.on_posix, st.layout) (written items new (length (items ++ new)))

  insert_item_lem :
      (items new : List Bytes)
      → Entries capacity size id s items
      → IsU64 (length (items ++ new))
      → insert_item s new ≡ (stored_shard (items ++ new), ok (length (items ++ new)))
  unfolding insert_item operate increment_len
  insert_item_lem items new st fits =
      let total : s.header.items_len + length new ≡ length (items ++ new) =
        omega (arith, st.count, length-append items new) in
      rw (total, lt→ltb (length (items ++ new)) (2 ^ 64) fits, file_form items new st) refl

  -- Entries of the right size are stored behind those that are there, and the new number of entries
  -- is returned, if it and the size of the file have 64 bits; the capacity is not looked at.
  pub insert_item-Entries :
      (items new : List Bytes)
      → Entries capacity size id s items
      → All (λ item. length item ≡ size) new
      → IsU64 (length items + length new)
      → IsU64 (40 + (length items + length new) * size)
      → Entries capacity size id (insert_item s new).0 (items ++ new)
        × ((insert_item s new).1 ≡ ok (length (items ++ new)))
  insert_item-Entries items new st sizes fits room =
      let inside : IsU64 (length (items ++ new)) = omega (arith, length-append items new, fits) in
      rw (insert_item_lem items new st inside) (
        record {
          sizes = All-append (λ item. length item ≡ size) items new st.sizes sizes;
          count = refl;
          own_size = st.own_size;
          own_capacity = st.own_capacity;
          layout = refl;
          synced = refl;
          on_posix = refl;
          capacity_fits = st.capacity_fits;
          count_fits = inside;
          size_fits = st.size_fits;
          file_fits =
              file_fits-same (length (items ++ new)) (length items + length new) size
                (length-append items new) room;
        },
        refl,
      )
