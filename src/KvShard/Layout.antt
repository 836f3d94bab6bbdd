-- ===== src/KvShard/Layout.antt =====
-- The file of a key-value shard: 40 bytes of header, then entries of one size.
use schema_js.Prelude.{
  ℕ, ◌+◌, ◌*◌, ◌≡◌, ◌≤◌, refl, sym, ap, subst, List, [], ◌∷◌, ◌++◌, All, length, length-append,
  flatten, append_assoc, arith,
}
use schema_js.Prelude.Bytes.{Bytes, IsU64, to_le_bytes, length-to_le_bytes}
use schema_js.Storage.File.{Platform}
use schema_js.Storage.Handler.{IsSynced}
use schema_js.Uuid.{UuidApi}
use schema_js.KvShard.Header.{header_bytes}
use schema_js.Prelude.Results.{ok, in_usize_lem}
use schema_js.KvShard.Ops.{KvShard, get_element_offset}

pub mul_mono : (a b s : ℕ) → a ≤ b → a * s ≤ b * s
mul_mono a b s h = grind arith

-- An offset of 64 bits.
pub get_element_offset_lem :
    {E : Type 0} (index size : ℕ)
    → IsU64 (40 + index * size)
    → get_element_offset {E = E} index size ≡ ok (40 + index * size)
unfolding get_element_offset
get_element_offset_lem {E = E} index size h =
    rw
      (
        in_usize_lem {E = E} (index * size) (omega arith),
        in_usize_lem {E = E} (40 + index * size) h,
      )
      refl

-- The offset of an earlier entry.
pub file_fits_below :
    (count size index : ℕ) → IsU64 (40 + count * size) → index ≤ count → IsU64 (40 + index * size)
file_fits_below count size index h below = omega (arith, h, mul_mono index count size below)

-- Numbers of entries that are the same.
pub file_fits-same : (m n size : ℕ) → m ≡ n → IsU64 (40 + n * size) → IsU64 (40 + m * size)
file_fits-same m n size e h = subst (λ k. IsU64 (40 + k * size)) (sym e) h

module _ {Uuid : Type 0} ⦃u : UuidApi Uuid⦄ where
  -- The shard is open on a file with the entries, each of `size` bytes, behind a header with the
  -- capacity (0 for none), their number, their size and the id.
  pub record Entries (capacity size : ℕ) (id : Uuid) (s : KvShard Uuid) (items : List Bytes)
      : Type 0 where
    pub sizes : All (λ item. length item ≡ size) items
    pub count : s.header.items_len ≡ length items
    pub own_size : s.value_size ≡ size
    pub own_capacity : s.max_capacity ≡ capacity
    pub layout :
        s.data_handler.file.bytes ≡ header_bytes capacity (length items) size id (flatten items)
    pub synced : IsSynced s.data_handler
    pub on_posix : s.data_handler.file.platform ≡ Platform.posix
    pub capacity_fits : IsU64 capacity
    pub count_fits : IsU64 (length items)
    pub size_fits : IsU64 size
    pub file_fits : IsU64 (40 + length items * size)

  abbrev pub front_of : ℕ → ℕ → ℕ → Uuid → Bytes
  front_of capacity count size id =
      to_le_bytes capacity ++ (to_le_bytes count ++ (to_le_bytes size ++ u.to_bytes_le id))

  pub header_bytes-append :
      (capacity count size : ℕ) (id : Uuid) (rest : Bytes)
      → header_bytes capacity count size id rest ≡ front_of capacity count size id ++ rest
  header_bytes-append capacity count size id rest = simp append_assoc

  pub length-front_of :
      (capacity count size : ℕ) (id : Uuid) → length (front_of capacity count size id) ≡ 40
  length-front_of capacity count size id = omega (
    arith,
    length-append (to_le_bytes capacity)
        (to_le_bytes count ++ (to_le_bytes size ++ u.to_bytes_le id)),
    length-append (to_le_bytes count) (to_le_bytes size ++ u.to_bytes_le id),
    length-append (to_le_bytes size) (u.to_bytes_le id),
    length-to_le_bytes capacity,
    length-to_le_bytes count,
    length-to_le_bytes size,
    u.length-to_bytes_le id,
  )

  pub length-header_bytes :
      (capacity count size : ℕ) (id : Uuid) (rest : Bytes)
      → length (header_bytes capacity count size id rest) ≡ 40 + length rest
  length-header_bytes capacity count size id rest = omega (
    arith,
    ap length (header_bytes-append capacity count size id rest),
    length-append (front_of capacity count size id) rest,
    length-front_of capacity count size id,
  )

pub length-flatten-sizes :
    (size : ℕ) (items : List Bytes)
    → All (λ item. length item ≡ size) items
    → length (flatten items) ≡ length items * size
length-flatten-sizes size [] h = omega arith
length-flatten-sizes size (x ∷ xs) h =
    omega (arith, length-append x (flatten xs), length-flatten-sizes size xs h.1, h.0)

-- Parts of a list that has a property throughout.
pub All-back {ℓ κ} : {A : Type ℓ} (P : A → Type κ) (xs ys : List A) → All P (xs ++ ys) → All P ys
All-back P [] ys h = h
All-back P (x ∷ xs) ys h = All-back P xs ys h.1

pub All-front {ℓ κ} : {A : Type ℓ} (P : A → Type κ) (xs ys : List A) → All P (xs ++ ys) → All P xs
All-front P [] ys h = tt
All-front P (x ∷ xs) ys h = (h.0, All-front P xs ys h.1)

pub All-append {ℓ κ} :
    {A : Type ℓ} (P : A → Type κ) (xs ys : List A) → All P xs → All P ys → All P (xs ++ ys)
All-append P [] ys h g = g
All-append P (x ∷ xs) ys h g = (h.0, All-append P xs ys h.1 g)
