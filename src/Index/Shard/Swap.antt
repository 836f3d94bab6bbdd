-- ===== src/Index/Shard/Swap.antt =====
-- Exchanging two neighbours of the current shard in its file.
use schema_js.Prelude.{
  ℕ, ◌+◌, ◌*◌, ◌≡◌, refl, sym, ap, ◌∙◌, List, ◌∷◌, ◌++◌, length, length-append, arith,
}
use schema_js.Prelude.Results.{ok}
use schema_js.Prelude.Bytes.{Bytes, IsU64}
use schema_js.Storage.Handler.{operate, remap}
use schema_js.Uuid.{UuidApi}
use schema_js.KvShard.Ops.{KvShard, swap_elements}
use schema_js.KvShard.Layout.{
  Entries, All-front, All-back, All-append, file_fits-same, file_fits_below,
}
use schema_js.KvShard.Swap.{file_of, swap_elements_lem}
use schema_js.Index.Shard.{swap_in_file}

module _ {Uuid : Type 0} ⦃u : UuidApi Uuid⦄ (capacity size : ℕ) (id : Uuid) (s : KvShard Uuid) where
  abbrev pub swapped : List Bytes → KvShard Uuid
  swapped items = record s {
    data_handler = remap s.data_handler (file_of capacity (length items) size id items);
  }

  module _ (before : List Bytes) (x y : Bytes) (after : List Bytes)
      (st : Entries capacity size id s (before ++ (x ∷ y ∷ after))) where
    abbrev old : List Bytes
    old = before ++ (x ∷ y ∷ after)

    abbrev new : List Bytes
    new = before ++ (y ∷ x ∷ after)

    same_count : length old ≡ length new
    same_count =
        omega (arith, length-append before (x ∷ y ∷ after), length-append before (y ∷ x ∷ after))

    file_is : s.data_handler.file ≡ file_of capacity (length old) size id old
    file_is = λ i. record { platform = st.on_posix i; bytes = st.layout i }

    pub swap_in_file_lem : swap_in_file s (length before + 1) y x ≡ ok (swapped new)
    unfolding swap_in_file operate
    swap_in_file_lem =
        let parts = All-back (λ item. length item ≡ size) before (x ∷ y ∷ after) st.sizes in
        let fronts = All-front (λ item. length item ≡ size) before (x ∷ y ∷ after) st.sizes in
        let below : IsU64 (40 + (length before + 1) * size) =
          file_fits_below (length old) size (length before + 1) st.file_fits
            (omega (arith, length-append before (x ∷ y ∷ after))) in
        let done : swap_elements s s.data_handler.file (length before + 1) y x
            ≡ ok (file_of capacity (length old) size id new) =
          ap (λ f. swap_elements s f (length before + 1) y x) file_is
          ∙ swap_elements_lem capacity (length old) size id s before x y after y x st.own_size
              fronts parts.0 parts.1.0 parts.1.0 parts.0 below in
        rw (done, same_count) refl

    pub swapped-Entries : Entries capacity size id (swapped new) new
    swapped-Entries =
        let parts = All-back (λ item. length item ≡ size) before (x ∷ y ∷ after) st.sizes in
        let fronts = All-front (λ item. length item ≡ size) before (x ∷ y ∷ after) st.sizes in
        record {
          sizes =
              All-append (λ item. length item ≡ size) before (y ∷ x ∷ after) fronts
                (parts.1.0, (parts.0, parts.1.1));
          count = st.count ∙ same_count;
          own_size = st.own_size;
          own_capacity = st.own_capacity;
          layout = refl;
          synced = refl;
          on_posix = refl;
          capacity_fits = st.capacity_fits;
          count_fits = omega (arith, st.count_fits, same_count);
          size_fits = st.size_fits;
          file_fits = file_fits-same (length new) (length old) size (sym same_count) st.file_fits;
        }
