-- ===== src/Index/Unit.antt =====
-- crates/index/src/data/index_data_unit.rs and errors.rs: data behind its length.
use schema_js.Prelude.{
  ℕ, ◌+◌, ◌^◌, ◌≡◌, refl, ap, ◌∙◌, [], ◌++◌, Option, none, some, length, length-append, ltb, lt→ltb,
  append_assoc, get_range, get_range-append, if◌then◌else◌, arith,
}
use schema_js.Prelude.Results.{Result, ok, panic, ◌>>=◌, expect_some, ok_or}
use schema_js.Prelude.Bytes.{
  Bytes, IsU64, to_le_bytes, from_le_bytes, length-to_le_bytes, from_le_bytes-to_le_bytes,
}
use schema_js.Storage.Handler.{DataHandler, IsSynced, read_pointer, read_pointer-append}
use schema_js.DataShard.Header.{u64_size}

pub data IndexError : Type 0 where
  unrecognized_item_size invalid_item : IndexError

pub record IndexDataUnit : Type 0 where
  pub item_size : ℕ
  pub payload : Bytes

abbrev pub new_unit : Bytes → IndexDataUnit
new_unit payload = record { item_size = length payload; payload = payload }

abbrev pub unit_header_size : ℕ
unit_header_size = u64_size

-- A sum of `usize`, which panics past 64 bits.
abbrev pub checked_add : {E : Type 0} → ℕ → ℕ → Result E ℕ
checked_add a b = if ltb (a + b) (2 ^ 64) then ok (a + b) else panic

-- `TryFrom<&[u8]>`
unfoldable pub try_from : Bytes → Result IndexError IndexDataUnit
try_from bytes = do
  size ← ok_or (get_range bytes 0 u64_size) IndexError.unrecognized_item_size
  end ← checked_add u64_size (from_le_bytes size)
  payload ← ok_or (get_range bytes u64_size end) IndexError.invalid_item
  ok (record { item_size = from_le_bytes size; payload = payload })

abbrev read_sized : ℕ → DataHandler → Option Bytes → Result IndexError (Option IndexDataUnit)
read_sized offset d none = ok none
read_sized offset d (some size) =
    (expect_some (read_pointer d (offset + u64_size) (from_le_bytes size)) >>= λ payload.
    ok (some (record { item_size = from_le_bytes size; payload = payload })))

unfoldable pub from_data_handler : ℕ → DataHandler → Result IndexError (Option IndexDataUnit)
from_data_handler offset d = read_sized offset d (read_pointer d offset u64_size)

-- `Into<Vec<u8>>`
unfoldable pub into_bytes : IndexDataUnit → Bytes
into_bytes unit = to_le_bytes unit.item_size ++ unit.payload

pub length-into_bytes :
    (payload : Bytes) → length (into_bytes (new_unit payload)) ≡ 8 + length payload
unfolding into_bytes
length-into_bytes payload =
    length-append (to_le_bytes (length payload)) payload
    ∙ ap (λ n. n + length payload) (length-to_le_bytes (length payload))

-- A unit is read back from the front of its bytes, whatever follows them.
pub try_from-into_bytes :
    (payload rest : Bytes)
    → IsU64 (8 + length payload)
    → try_from (into_bytes (new_unit payload) ++ rest) ≡ ok (new_unit payload)
unfolding try_from into_bytes
try_from-into_bytes payload rest fits =
    let size = to_le_bytes (length payload) in
    let whole : (size ++ payload) ++ rest ≡ size ++ (payload ++ rest) =
      append_assoc size payload rest in
    let first : get_range (size ++ (payload ++ rest)) 0 8 ≡ some size =
      get_range-append [] size (payload ++ rest) 0 8 refl
        (omega (arith, length-to_le_bytes (length payload))) in
    let second : get_range (size ++ (payload ++ rest)) 8 (8 + length payload) ≡ some payload =
      get_range-append size payload rest 8 (8 + length payload)
        (length-to_le_bytes (length payload)) refl in
    rw
      (
        whole,
        first,
        from_le_bytes-to_le_bytes (length payload) (omega (arith, fits)),
        lt→ltb (8 + length payload) (2 ^ 64) fits,
        second,
      )
      refl

-- A unit that stands somewhere in a file is read back at its offset.
pub from_data_handler-into_bytes :
    (d : DataHandler) (front payload back : Bytes)
    → IsSynced d
    → IsU64 (length payload)
    → d.file.bytes ≡ front ++ (into_bytes (new_unit payload) ++ back)
    → from_data_handler (length front) d ≡ ok (some (new_unit payload))
unfolding from_data_handler into_bytes
from_data_handler-into_bytes d front payload back synced fits e =
    let size = to_le_bytes (length payload) in
    let first : read_pointer d (length front) 8 ≡ some size =
      read_pointer-append d front size (payload ++ back) (length front) 8 synced
        (e ∙ simp append_assoc) refl (length-to_le_bytes (length payload)) in
    let second : read_pointer d (length front + 8) (length payload) ≡ some payload =
      read_pointer-append d (front ++ size) payload back (length front + 8) (length payload) synced
        (e ∙ simp append_assoc)
        (length-append front size
          ∙ ap (λ n. length front + n) (length-to_le_bytes (length payload)))
        refl in
    rw (first, from_le_bytes-to_le_bytes (length payload) fits, second) refl
