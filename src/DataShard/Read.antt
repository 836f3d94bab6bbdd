-- ===== src/DataShard/Read.antt =====
-- Reading from a data shard: every stored item comes back, and nothing else does.
use schema_js.Prelude.{
  ℕ, zero, suc, ◌+◌, ◌<◌, ◌≤◌, ◌≡◌, refl, sym, ap, subst, ◌∙◌, ◌-◌, List, [], ◌∷◌, ◌++◌, some,
  length, length-append, replicate, flatten, flatten-append, append_assoc, get_elem?, split_at,
  arith, lt→ltb, le→leb,
}
use schema_js.Prelude.Results.{ok, ◌>>=◌}
use schema_js.Prelude.Bytes.{Bytes, IsU64}
use schema_js.Storage.Handler.{DataHandler, read_pointer, read_pointer-append, len}
use schema_js.DataShard.Header.{
  calculate_offset_pos, get_offset_pos_by_index, get_offset_value_from_offset_header,
}
use schema_js.DataShard.Ops.{
  DataShard, end_reading, read_up_to, read_from, read_item, read_item_from_index,
}
use schema_js.DataShard.Layout.{
  offsets_of, table_bytes, data_start, with_table, Stored, length-offsets_of, offsets_of-append,
  length-table_bytes, read_slot, Stored-length, length-slots,
}

pub end_reading_last :
    (d : DataHandler) (max next : ℕ) → max ≡ next → end_reading d max next ≡ some 0
end_reading_last d max next e = ground arith

pub end_reading_before :
    (d : DataHandler) (max next : ℕ)
    → next < max
    → end_reading d max next ≡ get_offset_value_from_offset_header d next
end_reading_before d max next h = ground arith

pub read_up_to_end : (d : DataHandler) → read_up_to d 0 ≡ d.map_len
unfolding len
read_up_to_end d = refl

read_up_to_offset : (d : DataHandler) (e : ℕ) → 0 < e → read_up_to d e ≡ e
read_up_to_offset d e h = ground arith

-- The steps of `read_item`, once each of its lookups is known.
pub read_from-eq_ok :
    {Uuid : Type 0} (s : DataShard Uuid) (offset_position start end_pos count : ℕ) (item : Bytes)
    → offset_position + 8 ≤ s.header.max_offset_positions
    → end_reading s.data_handler s.header.max_offset_positions (offset_position + 8) ≡ some end_pos
    → read_up_to s.data_handler end_pos ≡ start + count
    → read_pointer s.data_handler start count ≡ some item
    → read_from s offset_position start ≡ ok item
read_from-eq_ok s offset_position start end_pos count item h found ends read =
    let difference : start + count - start ≡ count = omega arith in
    rw (le→leb _ _ h, found, ends, le→leb start (start + count) (omega arith), difference, read)

module _ {Uuid : Type 0} {front : Bytes} {free : ℕ} {s : DataShard Uuid} where
  module _ (pre : List Bytes) (x : Bytes) (post : List Bytes)
      (st : Stored front free s (pre ++ (x ∷ post))) where
    abbrev base : ℕ
    base = data_start (length (pre ++ (x ∷ post)) + free)

    abbrev start : ℕ
    start = base + length (flatten pre)

    -- The slots behind the item's own.
    abbrev later : List ℕ
    later = offsets_of (start + length x) post ++ replicate free 0

    slots :
        offsets_of base (pre ++ (x ∷ post)) ++ replicate free 0
        ≡ offsets_of base pre ++ (start ∷ later)
    slots =
        rw (offsets_of-append base pre (x ∷ post))
          (append_assoc (offsets_of base pre) (offsets_of start (x ∷ post)) (replicate free 0))

    bytes :
        s.data_handler.file.bytes
        ≡ with_table front (offsets_of base pre ++ (start ∷ later)) (flatten (pre ++ (x ∷ post)))
    bytes = st.layout ∙ ap (λ t. with_table front t (flatten (pre ++ (x ∷ post)))) slots

    total : length s.data_handler.file.bytes ≡ start + length x + length (flatten post)
    total = omega (
      arith,
      Stored-length (pre ++ (x ∷ post)) st,
      ap length (flatten-append pre (x ∷ post)),
      length-append (flatten pre) (x ++ flatten post),
      length-append x (flatten post),
    )

    -- The item's own slot.
    own_slot :
        get_offset_value_from_offset_header s.data_handler (data_start (length pre)) ≡ some start
    own_slot = rw (← length-offsets_of base pre) (
        read_slot s.data_handler front (offsets_of base pre) start later
          (flatten (pre ++ (x ∷ post))) st.synced st.front_len (omega (arith, total, st.small))
          bytes)

    -- The slot behind the item's own, if the table has one.
    next_slot :
        (v : ℕ) (after : List ℕ)
        → later ≡ v ∷ after
        → IsU64 v
        → get_offset_value_from_offset_header s.data_handler (data_start (length pre) + 8) ≡ some v
    next_slot v after e fits =
        let l = length-append (offsets_of base pre) (start ∷ []) in
        let at : data_start (length pre) + 8
            ≡ data_start (length (offsets_of base pre ++ (start ∷ []))) =
          omega (arith, l, length-offsets_of base pre) in
        let regrouped : offsets_of base pre ++ (start ∷ later)
            ≡ (offsets_of base pre ++ (start ∷ [])) ++ (v ∷ after) =
          rw e (sym (append_assoc (offsets_of base pre) (start ∷ []) (v ∷ after))) in
        rw at (
          read_slot s.data_handler front (offsets_of base pre ++ (start ∷ [])) v after
            (flatten (pre ++ (x ∷ post))) st.synced st.front_len fits
            (bytes ∙ ap (λ t. with_table front t (flatten (pre ++ (x ∷ post)))) regrouped))

    -- Where the item ends, as the next slot, or the end of the table or of the file, tells it.
    abbrev EndsWell : Type 0
    EndsWell =
        (e : ℕ) × (end_reading s.data_handler s.header.max_offset_positions
            (data_start (length pre) + 8)
          ≡ some e)
        × (read_up_to s.data_handler e ≡ start + length x)

module _ {Uuid : Type 0} {front : Bytes} {s : DataShard Uuid} where
  end_place_last :
      (free : ℕ) (pre : List Bytes) (x : Bytes) (st : Stored front free s (pre ++ (x ∷ [])))
      → EndsWell pre x [] st
  end_place_last zero pre x st =
      let l = length-append pre (x ∷ []) in
      let m = total pre x [] st in
      (
        0,
        end_reading_last s.data_handler _ _ (omega (arith, st.positions)),
        read_up_to_end s.data_handler ∙ omega (arith, st.synced),
      )
  end_place_last (suc free) pre x st =
      let l = length-append pre (x ∷ []) in
      let m = total pre x [] st in
      (
        0,
        end_reading_before s.data_handler _ _ (omega (arith, st.positions))
            ∙ next_slot pre x [] st 0 (replicate free 0) refl (omega arith),
        read_up_to_end s.data_handler ∙ omega (arith, st.synced),
      )

  end_place :
      (free : ℕ) (pre : List Bytes) (x : Bytes) (post : List Bytes)
      (st : Stored front free s (pre ++ (x ∷ post)))
      → EndsWell pre x post st
  end_place free pre x [] st = end_place_last free pre x st
  end_place free pre x (y ∷ post) st =
      let l = length-append pre (x ∷ y ∷ post) in
      let m = total pre x (y ∷ post) st in
      let v = start pre x (y ∷ post) st + length x in
      (
        v,
        end_reading_before s.data_handler _ _ (omega (arith, st.positions))
            ∙ next_slot pre x (y ∷ post) st v _ refl (omega (arith, st.small)),
        read_up_to_offset s.data_handler v (omega arith),
      )

module _ {Uuid : Type 0} {front : Bytes} {free : ℕ} {s : DataShard Uuid} where
  module _ (pre : List Bytes) (x : Bytes) (post : List Bytes)
      (st : Stored front free s (pre ++ (x ∷ post))) where
    read_bytes : read_pointer s.data_handler (start pre x post st) (length x) ≡ some x
    read_bytes =
        let slots' = offsets_of (base pre x post st) (pre ++ (x ∷ post)) ++ replicate free 0 in
        let f = length-append front (table_bytes slots' ++ flatten pre) in
        read_pointer-append s.data_handler (front ++ (table_bytes slots' ++ flatten pre)) x
          (flatten post) (start pre x post st) (length x) st.synced
          (st.layout ∙ simp (flatten-append pre (x ∷ post), append_assoc))
          (omega (
            arith,
            length-append front (table_bytes slots' ++ flatten pre),
            length-append (table_bytes slots') (flatten pre),
            length-table_bytes slots',
            length-slots (base pre x post st) (pre ++ (x ∷ post)) free,
            st.front_len,
          ))
          refl

    read_item-split : read_item s (data_start (length pre)) ≡ ok x
    unfolding read_item
    read_item-split =
        let (e, found, ends) = end_place free pre x post st in
        let l = length-append pre (x ∷ post) in
        rw (own_slot pre x post st, ◌>>=◌)
          (read_from-eq_ok s (data_start (length pre)) (start pre x post st) e (length x) x
            (omega (arith, st.positions)) found ends read_bytes)

  -- A stored item is read back by its index.
  pub read_item_from_index-Stored :
      (items : List Bytes) (index : ℕ) {x : Bytes}
      → Stored front free s items
      → get_elem? items index ≡ some x
      → read_item_from_index s index ≡ ok x
  unfolding read_item_from_index get_offset_pos_by_index calculate_offset_pos
  read_item_from_index-Stored items index {x} st h =
      let sp = split_at items index h in
      let st' : Stored front free s (sp.before ++ (x ∷ sp.after)) =
        subst (Stored front free s) sp.joined st in
      let l = length-append sp.before (x ∷ sp.after) in
      let inside : data_start index < s.header.max_offset_positions =
        omega (arith, st'.positions, sp.place) in
      rw (lt→ltb (data_start index) s.header.max_offset_positions inside, ◌>>=◌, ← sp.place)
        (read_item-split sp.before x sp.after st')
