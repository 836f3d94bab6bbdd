-- ===== src/DataShard/Unused.antt =====
-- Reading a data shard at an index that no item has: refused past the capacity; below it the slot
-- is 0, which is taken for an offset.
use schema_js.Prelude.{
  ℕ, zero, suc, ◌+◌, ◌<◌, ◌≤◌, ◌≡◌, refl, sym, ap, ◌∙◌, ◌-◌, List, [], ◌∷◌, ◌++◌, some, length,
  replicate, replicate-add, flatten, append_assoc, append-nil, arith, le→ltb, lt→ltb,
}
use schema_js.Prelude.Results.{ok, err, ◌>>=◌}
use schema_js.Prelude.Bytes.{Bytes}
use schema_js.Storage.Handler.{read_pointer, read_pointer-append}
use schema_js.Shard.Errors.{ShardErrors}
use schema_js.DataShard.Header.{
  calculate_offset_pos, get_offset_pos_by_index, get_offset_value_from_offset_header,
}
use schema_js.DataShard.Ops.{DataShard, end_reading, read_item, read_item_from_index}
use schema_js.DataShard.Layout.{offsets_of, data_start, with_table, Stored, read_slot, length-slots}
use schema_js.DataShard.Read.{end_reading_last, end_reading_before, read_up_to_end, read_from-eq_ok}

module _ {Uuid : Type 0} {front : Bytes} {free : ℕ} {s : DataShard Uuid} where
  -- An index at or past the capacity is refused.
  pub read_item_from_index-past_capacity :
      (items : List Bytes) (index : ℕ)
      → Stored front free s items
      → length items + free ≤ index
      → read_item_from_index s index ≡ err ShardErrors.unknown_offset
  unfolding read_item_from_index get_offset_pos_by_index calculate_offset_pos
  read_item_from_index-past_capacity items index st h =
      rw (le→ltb (data_start index) s.header.max_offset_positions (omega (arith, st.positions)))

  -- The slot of an index that no item has yet.
  free_slot :
      (items : List Bytes) (skipped rest : ℕ)
      → Stored front free s items
      → skipped + suc rest ≡ free
      → get_offset_value_from_offset_header s.data_handler (data_start (length items + skipped))
        ≡ some 0
  free_slot items skipped rest st h =
      let base = data_start (length items + free) in
      let before : List ℕ = offsets_of base items ++ replicate skipped 0 in
      let zeros : replicate free 0 ≡ replicate skipped 0 ++ (0 ∷ replicate rest 0) =
        ap (λ n. replicate {A = ℕ} n 0) (sym h) ∙ replicate-add {A = ℕ} skipped (suc rest) 0 in
      let regrouped : offsets_of base items ++ replicate free 0 ≡ before ++ (0 ∷ replicate rest 0) =
        rw zeros (
          sym
            (append_assoc (offsets_of base items) (replicate skipped 0) (0 ∷ replicate rest 0))) in
      rw (← length-slots base items skipped) (
        read_slot s.data_handler front before 0 (replicate rest 0) (flatten items) st.synced
          st.front_len (omega arith)
          (st.layout ∙ ap (λ t. with_table front t (flatten items)) regrouped))

  unused_end :
      (items : List Bytes) (skipped rest : ℕ)
      → Stored front free s items
      → skipped + suc rest ≡ free
      → end_reading s.data_handler s.header.max_offset_positions
          (data_start (length items + skipped) + 8)
        ≡ some 0
  unused_end items skipped zero st h =
      end_reading_last s.data_handler _ _ (omega (arith, st.positions))
  unused_end items skipped (suc rest) st h =
      let e : data_start (length items + skipped) + 8 ≡ data_start (length items + (skipped + 1)) =
        omega arith in
      end_reading_before s.data_handler _ _ (omega (arith, st.positions))
      ∙ rw e (free_slot items (skipped + 1) rest st (omega arith))

  whole_file :
      (items : List Bytes)
      → Stored front free s items
      → read_pointer s.data_handler 0 s.data_handler.map_len ≡ some s.data_handler.file.bytes
  whole_file items st =
      read_pointer-append s.data_handler [] s.data_handler.file.bytes [] 0 s.data_handler.map_len
        st.synced (sym (append-nil s.data_handler.file.bytes)) refl (sym st.synced)

  -- Below the capacity an index that no item has is answered with the whole file.
  pub read_item_from_index-unused :
      (items : List Bytes) (index : ℕ)
      → Stored front free s items
      → length items ≤ index
      → index < length items + free
      → read_item_from_index s index ≡ ok s.data_handler.file.bytes
  unfolding read_item_from_index read_item get_offset_pos_by_index calculate_offset_pos
  read_item_from_index-unused items index st low high =
      let skipped : ℕ = index - length items in
      let rest : ℕ = length items + free - index - 1 in
      let whole : skipped + suc rest ≡ free = omega arith in
      let place : length items + skipped ≡ index = omega arith in
      rw
        (
          lt→ltb (data_start index) s.header.max_offset_positions (omega (arith, st.positions)),
          ◌>>=◌,
          ← place,
          free_slot items skipped rest st whole,
        )
        (read_from-eq_ok s (data_start (length items + skipped)) 0 0 s.data_handler.map_len
          s.data_handler.file.bytes (omega (arith, st.positions))
          (unused_end items skipped rest st whole) (read_up_to_end s.data_handler ∙ omega arith)
          (whole_file items st))
