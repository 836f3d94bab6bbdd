-- ===== src/DataShard/Insert.antt =====
-- Inserting into a data shard: the items are stored behind those that it has.
use schema_js.Prelude.{
  ℕ, ◌+◌, ◌≡◌, refl, sym, ap, ap₂, ◌∙◌, List, ◌++◌, length, length-append, replicate, flatten,
  flatten-append, append_assoc, arith,
}
use schema_js.Prelude.Int.{as_u64}
use schema_js.Prelude.Results.{ok}
use schema_js.Prelude.Bytes.{Bytes, IsU64}
use schema_js.Storage.File.{File, file_len, write_all}
use schema_js.Storage.Handler.{operate, settle, remap}
use schema_js.DataShard.Ops.{
  DataShard, add_offsets, insert_callback, last_index_of, insert_item, with_parts,
}
use schema_js.DataShard.Layout.{
  offsets_of, last_index, data_start, with_table, Stored, length-offsets_of, offsets_of-append,
  length-slots, Stored-length, length-with_table,
}
use schema_js.DataShard.Loop.{file_with, header_at, add_offsets_lem}

module _ {Uuid : Type 0} {front : Bytes} {s : DataShard Uuid} (items : List Bytes) where
  -- The header and the file of a shard, in the form that the loop's lemmas speak of.
  header_form :
      {free : ℕ} → Stored front free s items → s.header ≡ header_at s.header (length items)
  header_form st = λ i. record s.header { last_offset_index = st.last i }

  file_form :
      (free : ℕ) (added : Bytes)
      → Stored front free s items
      → write_all s.data_handler.file added
        ≡ file_with front
            (offsets_of (data_start (length items + free)) items ++ replicate free 0)
            (flatten items ++ added)
  unfolding write_all
  file_form free added st = λ i. record { platform = st.on_posix i; bytes = longer i }
    where
      longer :
          s.data_handler.file.bytes ++ added
          ≡ with_table front
              (offsets_of (data_start (length items + free)) items ++ replicate free 0)
              (flatten items ++ added)
      longer = rw st.layout (simp append_assoc)

  module _ (new : List Bytes) (rest : ℕ) (st : Stored front (length new + rest) s items) where
    abbrev stored_slots : List ℕ
    stored_slots =
        offsets_of (data_start (length items + (length new + rest))) (items ++ new)
        ++ replicate rest 0

    -- The file that `insert_item` leaves.
    abbrev stored_file : File
    stored_file = file_with front stored_slots (flatten (items ++ new))

    abbrev free_before : ℕ
    free_before = length new + rest

    abbrev start : ℕ
    start = data_start (length items + free_before)

    abbrev before : List ℕ
    before = offsets_of start items

    body : flatten items ++ flatten new ≡ flatten (items ++ new)
    body = sym (flatten-append items new)

    slots :
        before ++ (offsets_of (start + length (flatten items)) new ++ replicate rest 0)
        ≡ stored_slots
    slots = rw (
      offsets_of-append start items new,
      append_assoc before (offsets_of (start + length (flatten items)) new) (replicate rest 0),
    )

    count : length before + length new ≡ length (items ++ new)
    count = omega (arith, length-offsets_of start items, length-append items new)

    loop :
        add_offsets new
          (file_len s.data_handler.file)
          (s.header, write_all s.data_handler.file (flatten new))
        ≡ ((header_at s.header (length (items ++ new)), stored_file), ok tt)
    loop =
        let same : length items ≡ length before = sym (length-offsets_of start items) in
        ap₂ (λ h f. add_offsets new (file_len s.data_handler.file) (h, f))
          (header_form st ∙ ap (header_at s.header) same) (file_form free_before (flatten new) st)
        ∙ ap
            (λ (from : ℕ). add_offsets new from (
              header_at s.header (length before),
              file_with front (before ++ replicate free_before 0) (flatten items ++ flatten new),
            ))
            (Stored-length items st)
        ∙ add_offsets_lem s.header front st.front_len (flatten items ++ flatten new) new before rest
            (start + length (flatten items)) (omega (arith, st.capacity, same))
            (st.positions ∙ ap data_start (sym st.capacity))
        ∙ ap₂ (λ (n : ℕ) (f : File). ((header_at s.header n, f), ok tt)) count
            (ap₂ (file_with front) slots body)

    insert_callback_lem : insert_callback new s.header s.data_handler.file ≡ (
      (header_at s.header (length (items ++ new)), stored_file),
      ok (last_index (length (items ++ new))),
    )
    unfolding insert_callback
    insert_callback_lem = ap last_index_of loop

    -- The shard that `insert_item` leaves.
    abbrev pub stored_shard : DataShard Uuid
    stored_shard = record s {
      header = header_at s.header (length (items ++ new));
      data_handler = remap s.data_handler stored_file;
    }

    pub insert_item_lem :
        insert_item s new ≡ (stored_shard, ok (as_u64 (last_index (length (items ++ new)))))
    unfolding insert_item operate
    insert_item_lem = ap (λ q. with_parts s (settle s.data_handler q)) insert_callback_lem

    pub stored_shard-Stored :
        IsU64 (length s.data_handler.file.bytes + length (flatten new))
        → Stored front rest stored_shard (items ++ new)
    stored_shard-Stored fits = record {
      front_len = st.front_len;
      capacity = st.capacity ∙ total;
      positions = st.positions ∙ ap data_start total;
      last = refl;
      layout =
          ap
            (λ (n : ℕ).
              with_table front (offsets_of (data_start n) (items ++ new) ++ replicate rest 0)
                (flatten (items ++ new)))
            total;
      synced = refl;
      on_posix = refl;
      small = omega (arith, fits, grown);
    }
      where
        total : length items + free_before ≡ length (items ++ new) + rest
        total = omega (arith, length-append items new)

        grown : length stored_file.bytes ≡ length s.data_handler.file.bytes + length (flatten new)
        grown = omega (
          arith,
          Stored-length items st,
          length-with_table front stored_slots (flatten (items ++ new)) st.front_len,
          length-slots start (items ++ new) rest,
          length-append items new,
          ap length (flatten-append items new),
          length-append (flatten items) (flatten new),
        )

  -- What fits is stored behind the items that are there, and the index of the last one is returned.
  pub insert_item-Stored :
      (new : List Bytes) (rest : ℕ)
      → Stored front (length new + rest) s items
      → IsU64 (length s.data_handler.file.bytes + length (flatten new))
      → Stored front rest (insert_item s new).0 (items ++ new)
        × ((insert_item s new).1 ≡ ok (as_u64 (last_index (length (items ++ new)))))
  insert_item-Stored new rest st fits =
      rw (insert_item_lem new rest st) (stored_shard-Stored new rest st fits, refl)
