-- ===== src/DataShard/Loop.antt =====
-- crates/data/src/shard/shards/data_shard: the loop of `insert_item` and `add_next_offset` on a POSIX file.
use schema_js.Prelude.{
  ℕ, zero, suc, ◌+◌, ◌<◌, ◌≡◌, sym, ap, ap₂, ◌∙◌, List, [], ◌∷◌, ◌++◌, none, some, length,
  length-append, take, replicate, append_assoc, overwrite, overwrite-append, arith,
}
use schema_js.Prelude.Int.{pos}
use schema_js.Prelude.Results.{ok, err}
use schema_js.Prelude.Bytes.{Bytes, to_le_bytes, length-to_le_bytes}
use schema_js.Storage.File.{File, Platform, write_at}
use schema_js.Shard.Errors.{ShardErrors}
use schema_js.DataShard.Header.{
  DataShardHeader, calculate_offset_pos, header_has_space, get_next_available_index,
  get_offset_pos_by_index, add_next_offset, next_slot,
}
use schema_js.DataShard.Ops.{IoErrorKind, add_offsets}
use schema_js.DataShard.Layout.{
  offsets_of, table_bytes, last_index, data_start, with_table, with_table-slot, length-front_table,
}

-- A POSIX file with a header, a table and a body.
abbrev pub file_with : Bytes → List ℕ → Bytes → File
file_with front slots body = record {
  platform = Platform.posix;
  bytes = with_table front slots body;
}

-- A header with `used` slots taken.
abbrev pub header_at : {Uuid : Type 0} → DataShardHeader Uuid → ℕ → DataShardHeader Uuid
header_at h used = record h { last_offset_index = last_index used }

-- One round of the loop.
add_offsets_ok :
    {Uuid : Type 0} (item : Bytes) (items : List Bytes) (start : ℕ) (h : DataShardHeader Uuid)
    (f : File) {p : DataShardHeader Uuid × File}
    → add_next_offset h start f ≡ (p, ok tt)
    → add_offsets (item ∷ items) start (h, f) ≡ add_offsets items (start + length item) p
unfolding add_offsets
add_offsets_ok item items start h f e =
    rw (e, add_offsets) (ap (λ q. add_offsets items (start + length item) q.0) e)

add_offsets_err :
    {Uuid : Type 0} (item : Bytes) (items : List Bytes) (start : ℕ) (h : DataShardHeader Uuid)
    (f : File) {p : DataShardHeader Uuid × File} {e : ShardErrors}
    → add_next_offset h start f ≡ (p, err e)
    → add_offsets (item ∷ items) start (h, f) ≡ (p, err IoErrorKind.out_of_memory)
unfolding add_offsets
add_offsets_err item items start h f e =
    rw (e, add_offsets) (ap (λ q. (q.0, err IoErrorKind.out_of_memory)) e)

module _ {Uuid : Type 0} (h : DataShardHeader Uuid) where
  next_slot_lem :
      (used : ℕ)
      → used < h.max_offsets
      → h.max_offset_positions ≡ data_start h.max_offsets
      → next_slot (header_at h used) ≡ some (used, data_start used)
  unfolding get_next_available_index header_has_space get_offset_pos_by_index calculate_offset_pos
  next_slot_lem zero room p = ground arith
  next_slot_lem (suc n) room p = ground arith

  next_slot_full :
      (used : ℕ) → 0 < used → used ≡ h.max_offsets → next_slot (header_at h used) ≡ none
  unfolding get_next_available_index header_has_space
  next_slot_full zero some_slot e = absurd (omega arith)
  next_slot_full (suc n) some_slot e = ground arith

  refused :
      (used v : ℕ) (f : File)
      → 0 < used
      → used ≡ h.max_offsets
      → add_next_offset (header_at h used) v f
        ≡ ((header_at h used, f), err ShardErrors.out_of_positions)
  unfolding add_next_offset
  refused used v f some_slot e = rw (next_slot_full used some_slot e)

  module _ (front : Bytes) (front_len : length front ≡ 32) (body : Bytes) where
    -- One offset goes into the first free slot.
    add_next_offset_lem :
        (before : List ℕ) (rest v : ℕ)
        → h.max_offsets ≡ length before + suc rest
        → h.max_offset_positions ≡ data_start h.max_offsets
        → add_next_offset
            (header_at h (length before))
            v
            (file_with front (before ++ replicate (suc rest) 0) body)
          ≡ (
            (
              record h { last_offset_index = pos (length before) },
              file_with front (before ++ (v ∷ replicate rest 0)) body,
            ),
            ok tt,
          )
    unfolding add_next_offset write_at
    add_next_offset_lem before rest v m p =
        let written : overwrite 0 (with_table front (before ++ replicate (suc rest) 0) body)
              (data_start (length before)) (to_le_bytes v)
            ≡ with_table front (before ++ (v ∷ replicate rest 0)) body =
          rw
            (
              with_table-slot front before 0 (replicate rest 0) body,
              with_table-slot front before v (replicate rest 0) body,
            )
            (overwrite-append 0 (front ++ table_bytes before) (to_le_bytes 0)
              (table_bytes (replicate rest 0) ++ body) (to_le_bytes v) (data_start (length before))
              (length-front_table front before front_len)
              (length-to_le_bytes v ∙ sym (length-to_le_bytes 0))) in
        rw (next_slot_lem (length before) (omega arith) p) (rw written)

    -- One offset for each item, while there are slots.
    pub add_offsets_lem :
        (items : List Bytes) (before : List ℕ) (rest start : ℕ)
        → h.max_offsets ≡ length before + (length items + rest)
        → h.max_offset_positions ≡ data_start h.max_offsets
        → add_offsets items start (
          header_at h (length before),
          file_with front (before ++ replicate (length items + rest) 0) body,
        )
          ≡ (
            (
              header_at h (length before + length items),
              file_with front (before ++ (offsets_of start items ++ replicate rest 0)) body,
            ),
            ok tt,
          )
    unfolding add_offsets
    add_offsets_lem [] before rest start m p =
        let e : length before + 0 ≡ length before = omega arith in
        let r : 0 + rest ≡ rest = omega arith in rw (e, r)
    add_offsets_lem (x ∷ xs) before rest start m p =
        let more : length (x ∷ xs) + rest ≡ suc (length xs + rest) = omega arith in
        let grown : length (before ++ (start ∷ [])) ≡ suc (length before) =
          length-append before (start ∷ []) ∙ omega arith in
        let final : length before + length (x ∷ xs) ≡ length (before ++ (start ∷ [])) + length xs =
          omega arith in
        rw more (
          add_offsets_ok x xs start _ _
            (add_next_offset_lem before (length xs + rest) start (omega arith) p)
          ∙ ap₂
              (λ (n : ℕ) (slots : List ℕ).
                add_offsets xs (start + length x) (header_at h n, file_with front slots body))
              (sym grown) (sym (append_assoc before (start ∷ []) (replicate (length xs + rest) 0)))
          ∙ add_offsets_lem xs (before ++ (start ∷ [])) rest (start + length x) (omega arith) p
          ∙ rw (
            final,
            append_assoc before (start ∷ []) (offsets_of (start + length x) xs ++ replicate rest 0),
          ))

    -- With more items than slots the loop fills the table and then gives up.
    pub add_offsets_full :
        (items : List Bytes) (before : List ℕ) (free start : ℕ)
        → free < length items
        → h.max_offsets ≡ length before + free
        → h.max_offset_positions ≡ data_start h.max_offsets
        → 0 < length before + free
        → add_offsets items start
            (header_at h (length before), file_with front (before ++ replicate free 0) body)
          ≡ (
            (
              header_at h h.max_offsets,
              file_with front (before ++ offsets_of start (take free items)) body,
            ),
            err IoErrorKind.out_of_memory,
          )
    add_offsets_full [] before free start few m p some_slot = absurd (omega arith)
    add_offsets_full (x ∷ xs) before zero start few m p some_slot =
        add_offsets_err x xs start _ _ (refused (length before) _ _ (omega arith) (omega arith))
        ∙ ap
            (λ n.
              ((header_at h n, file_with front (before ++ []) body), err IoErrorKind.out_of_memory))
            (omega arith)
    add_offsets_full (x ∷ xs) before (suc free) start few m p some_slot =
        let grown : length (before ++ (start ∷ [])) ≡ suc (length before) =
          length-append before (start ∷ []) ∙ omega arith in
        add_offsets_ok x xs start _ _ (add_next_offset_lem before free start m p)
        ∙ ap₂
            (λ (n : ℕ) (slots : List ℕ).
              add_offsets xs (start + length x) (header_at h n, file_with front slots body))
            (sym grown) (sym (append_assoc before (start ∷ []) (replicate free 0)))
        ∙ add_offsets_full xs (before ++ (start ∷ [])) free (start + length x) (omega arith)
            (omega arith) p (omega arith)
        ∙ rw (append_assoc before (start ∷ []) (offsets_of (start + length x) (take free xs)))
