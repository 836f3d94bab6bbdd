-- ===== src/KvShard/Read.antt =====
-- Reading entries of a key-value shard.
use schema_js.Prelude.{
  ℕ, ◌+◌, ◌*◌, ◌<◌, ◌≤◌, ◌≡◌, refl, sym, ap, subst, ◌∙◌, List, ◌∷◌, ◌++◌, some, none, All, length,
  length-append, flatten, flatten-append, append_assoc, get_elem?, split_at, lt→leb, arith,
  get_range, leb, Bool-cases, inl, inr,
}
use schema_js.Prelude.Results.{ok, err, ◌>>=◌}
use schema_js.Prelude.Bytes.{Bytes, IsU64}
use schema_js.Storage.Handler.{mapped-IsSynced, get_bytes, read_pointer, read_pointer-append}
use schema_js.Shard.Errors.{ShardErrors}
use schema_js.Uuid.{UuidApi}
use schema_js.KvShard.Ops.{KvShard, get_element, read_item_from_index}
use schema_js.KvShard.Layout.{
  Entries, front_of, mul_mono, get_element_offset_lem, file_fits_below, header_bytes-append,
  length-front_of, length-header_bytes, length-flatten-sizes, All-front, All-back,
}

range_past : (xs : Bytes) (from to : ℕ) → length xs < to → get_range xs from to ≡ none
range_past xs from to h = elim (Bool-cases (leb from to)) [
  | inl ordered ↦ rw (ordered, lt→leb to (length xs) h) refl
  | inr reversed ↦ rw reversed refl
]

module _ {Uuid : Type 0} ⦃u : UuidApi Uuid⦄ {capacity size : ℕ} {id : Uuid} {s : KvShard Uuid} where
  -- An index of an entry reads exactly that entry.
  pub read_item_from_index-Entries :
      (items : List Bytes) (index : ℕ) (x : Bytes)
      → Entries capacity size id s items
      → get_elem? items index ≡ some x
      → read_item_from_index s index ≡ ok x
  unfolding read_item_from_index get_element
  read_item_from_index-Entries items index x st e =
      let sp = split_at items index e in
      let front = front_of capacity (length items) size id in
      let sizes = subst (All (λ item. length item ≡ size)) sp.joined st.sizes in
      let here : length x ≡ size =
        (All-back (λ item. length item ≡ size) sp.before (x ∷ sp.after) sizes).0 in
      let whole : s.data_handler.file.bytes
          ≡ (front ++ flatten sp.before) ++ (x ++ flatten sp.after) =
        st.layout
        ∙ header_bytes-append capacity (length items) size id (flatten items)
        ∙ ap (λ l. front ++ flatten l) sp.joined
        ∙ ap (λ l. front ++ l) (flatten-append sp.before (x ∷ sp.after))
        ∙ sym (append_assoc front (flatten sp.before) (x ++ flatten sp.after)) in
      let start : length (front ++ flatten sp.before) ≡ 40 + index * size =
        length-append front (flatten sp.before)
        ∙ ap (λ n. length front + n)
            (length-flatten-sizes size sp.before
                (All-front (λ item. length item ≡ size) sp.before (x ∷ sp.after) sizes)
              ∙ ap (λ n. n * size) sp.place)
        ∙ ap (λ n. n + index * size) (length-front_of capacity (length items) size id) in
      let below : index ≤ length items =
        omega (arith, ap length sp.joined, sp.place, length-append sp.before (x ∷ sp.after)) in
      rw
        (
          st.own_size,
          get_element_offset_lem {E = ShardErrors} index size
              (file_fits_below (length items) size index st.file_fits below),
          ◌>>=◌,
          read_pointer-append s.data_handler (front ++ flatten sp.before) x (flatten sp.after)
              (40 + index * size) size st.synced whole start here,
        )
        refl

  -- An index at or past the number of entries is refused, if the entries are not empty and the
  -- place behind the entry that the index stands for has 64 bits.
  pub read_item_from_index-past :
      (items : List Bytes) (index : ℕ)
      → Entries capacity size id s items
      → 0 < size
      → length items ≤ index
      → IsU64 (40 + index * size + size)
      → read_item_from_index s index ≡ err ShardErrors.unknown_entry
  unfolding read_item_from_index get_element read_pointer get_bytes
  read_item_from_index-past items index st some_size past word =
      let m = mul_mono (length items) index size past in
      let n = length-flatten-sizes size items st.sizes in
      let whole = length-header_bytes capacity (length items) size id (flatten items) in
      let short : length s.data_handler.file.bytes < 40 + index * size + size =
        omega (arith, ap length st.layout, whole, m, n, some_size) in
      rw
        (
          st.own_size,
          get_element_offset_lem {E = ShardErrors} index size (omega arith),
          ◌>>=◌,
          mapped-IsSynced s.data_handler st.synced,
          range_past s.data_handler.file.bytes (40 + index * size) (40 + index * size + size) short,
        )
        refl
