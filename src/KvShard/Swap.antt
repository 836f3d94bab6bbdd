-- ===== src/KvShard/Swap.antt =====
-- Exchanging two neighbouring entries of a key-value shard in its file.
use schema_js.Prelude.{
  ℕ, ◌+◌, ◌*◌, ◌-◌, ◌≡◌, refl, sym, ap, ◌∙◌, List, [], ◌∷◌, ◌++◌, All, length, length-append,
  flatten, flatten-append, append_assoc, le→leb, overwrite, overwrite-append, arith,
}
use schema_js.Prelude.Results.{ok, ◌>>=◌}
use schema_js.Prelude.Bytes.{Bytes, IsU64}
use schema_js.Storage.File.{File, Platform, write_at}
use schema_js.Shard.Errors.{ShardErrors}
use schema_js.Uuid.{UuidApi}
use schema_js.KvShard.Header.{header_bytes}
use schema_js.KvShard.Ops.{KvShard, swap_elements}
use schema_js.KvShard.Layout.{
  get_element_offset_lem, file_fits_below, front_of, header_bytes-append, length-front_of,
  length-flatten-sizes, All-append,
}

-- Entries of one size.
abbrev pub Sized : ℕ → List Bytes → Type 0
Sized size items = All (λ item. length item ≡ size) items

module _ {Uuid : Type 0} ⦃u : UuidApi Uuid⦄ (capacity count size : ℕ) (id : Uuid) where
  -- The bytes of a shard that stores the entries.
  abbrev pub file_of : List Bytes → File
  file_of items = record {
    platform = Platform.posix;
    bytes = header_bytes capacity count size id (flatten items);
  }

  -- A write of an entry at its offset changes that entry.
  write_entry :
      (before : List Bytes) (x new : Bytes) (after : List Bytes) (index : ℕ)
      → Sized size before
      → length x ≡ size
      → length new ≡ size
      → length before ≡ index
      → write_at (file_of (before ++ (x ∷ after))) new (40 + index * size)
        ≡ file_of (before ++ (new ∷ after))
  unfolding write_at
  write_entry before x new after index sizes at_x at_new place =
      let front = front_of capacity count size id in
      let whole : (e : Bytes)
          → header_bytes capacity count size id (flatten (before ++ (e ∷ after)))
            ≡ (front ++ flatten before) ++ (e ++ flatten after) =
        λ e.
          header_bytes-append capacity count size id (flatten (before ++ (e ∷ after)))
          ∙ ap (λ l. front ++ l) (flatten-append before (e ∷ after))
          ∙ sym (append_assoc front (flatten before) (e ++ flatten after)) in
      let start : length (front ++ flatten before) ≡ 40 + index * size =
        length-append front (flatten before)
        ∙ ap (λ n. length front + n)
            (length-flatten-sizes size before sizes ∙ ap (λ n. n * size) place)
        ∙ ap (λ n. n + index * size) (length-front_of capacity count size id) in
      ap (λ (b : Bytes). record { platform = Platform.posix; bytes = b })
        (ap (λ b. overwrite 0 b (40 + index * size) new) (whole x)
          ∙ overwrite-append 0 (front ++ flatten before) x (flatten after) new (40 + index * size)
              start (at_new ∙ sym at_x)
          ∙ sym (whole new))

  -- If its offset has 64 bits, the entry at the index becomes the second one and the entry before it
  -- the first one; the other entries and the header stay as they are.
  pub swap_elements_lem :
      (s : KvShard Uuid) (before : List Bytes) (x y : Bytes) (after : List Bytes)
      (first second : Bytes)
      → s.value_size ≡ size
      → Sized size before
      → length x ≡ size
      → length y ≡ size
      → length first ≡ size
      → length second ≡ size
      → IsU64 (40 + (length before + 1) * size)
      → swap_elements s (file_of (before ++ (x ∷ y ∷ after))) (length before + 1) first second
        ≡ ok (file_of (before ++ (first ∷ second ∷ after)))
  unfolding swap_elements
  swap_elements_lem s before x y after first second own sizes at_x at_y at_first at_second room =
      let joined : (e f : Bytes) → before ++ (e ∷ f ∷ after) ≡ (before ++ (e ∷ [])) ++ (f ∷ after) =
        λ e f. simp append_assoc in
      let one : length (before ++ (x ∷ [])) ≡ length before + 1 = length-append before (x ∷ []) in
      let back : length before + 1 - 1 ≡ length before = omega arith in
      let upper : write_at (file_of (before ++ (x ∷ y ∷ after))) second
            (40 + (length before + 1) * size)
          ≡ file_of (before ++ (x ∷ second ∷ after)) =
        ap (λ l. write_at (file_of l) second (40 + (length before + 1) * size)) (joined x y)
        ∙ write_entry (before ++ (x ∷ [])) y second after (length before + 1)
            (All-append (λ item. length item ≡ size) before (x ∷ []) sizes (at_x, tt)) at_y
            at_second one
        ∙ ap file_of (sym (joined x second)) in
      let lower =
        write_entry before x first (second ∷ after) (length before) sizes at_x at_first refl in
      let below : IsU64 (40 + length before * size) =
        file_fits_below (length before + 1) size (length before) room (omega arith) in
      rw
        (
          own,
          get_element_offset_lem {E = ShardErrors} (length before + 1) size room,
          ◌>>=◌,
          le→leb 1 (length before + 1) (omega arith),
          back,
          get_element_offset_lem {E = ShardErrors} (length before) size below,
          upper,
          lower,
        )
        refl
