-- ===== src/DataShard/Layout.antt =====
-- The file of a data shard: 32 bytes of header, the table of offsets, then the items.
use schema_js.Prelude.{
  ℕ, zero, suc, ◌+◌, ◌*◌, ◌≡◌, refl, ap, ◌∙◌, List, [], ◌∷◌, ◌++◌, some, length, length-append,
  length-replicate, replicate, flatten, append_assoc, arith,
}
use schema_js.Prelude.Int.{ℤ, pos, negsuc}
use schema_js.Prelude.Bytes.{
  Bytes, IsU64, to_le_bytes, length-to_le_bytes, from_le_bytes-to_le_bytes,
}
use schema_js.Storage.File.{Platform}
use schema_js.Storage.Handler.{DataHandler, IsSynced, read_pointer-append}
use schema_js.DataShard.Header.{get_offset_value_from_offset_header}
use schema_js.DataShard.Ops.{DataShard}

-- The offsets of items that stand one after the other from `start` on.
abbrev pub offsets_of : ℕ → List Bytes → List ℕ
offsets_of start [] = []
offsets_of start (item ∷ items) = start ∷ offsets_of (start + length item) items

abbrev pub table_bytes : List ℕ → Bytes
table_bytes [] = []
table_bytes (v ∷ vs) = to_le_bytes v ++ table_bytes vs

-- The index of the last of `n` items, -1 if there is none.
abbrev pub last_index : ℕ → ℤ
last_index zero = negsuc 0
last_index (suc n) = pos n

-- Where the items begin.
abbrev pub data_start : ℕ → ℕ
data_start max_offsets = 32 + max_offsets * 8

abbrev pub with_table : Bytes → List ℕ → Bytes → Bytes
with_table front slots body = front ++ (table_bytes slots ++ body)

-- The shard is open on a file that holds `items` behind the header `front`, with `free` slots left.
pub record Stored {Uuid : Type 0} (front : Bytes) (free : ℕ) (s : DataShard Uuid)
    (items : List Bytes) : Type 0 where
  pub front_len : length front ≡ 32
  pub capacity : s.header.max_offsets ≡ length items + free
  pub positions : s.header.max_offset_positions ≡ data_start (length items + free)
  pub last : s.header.last_offset_index ≡ last_index (length items)
  pub layout :
      s.data_handler.file.bytes
      ≡ with_table front
          (offsets_of (data_start (length items + free)) items ++ replicate free 0)
          (flatten items)
  pub synced : IsSynced s.data_handler
  pub on_posix : s.data_handler.file.platform ≡ Platform.posix
  pub small : IsU64 (length s.data_handler.file.bytes)

pub length-offsets_of :
    (start : ℕ) (items : List Bytes) → length (offsets_of start items) ≡ length items
length-offsets_of start [] = refl
length-offsets_of start (x ∷ xs) = ap suc (length-offsets_of (start + length x) xs)

pub offsets_of-append :
    (start : ℕ) (xs ys : List Bytes)
    → offsets_of start (xs ++ ys)
      ≡ offsets_of start xs ++ offsets_of (start + length (flatten xs)) ys
offsets_of-append start [] ys = ap (λ b. offsets_of b ys) (omega arith)
offsets_of-append start (x ∷ xs) ys =
    let e : start + length x + length (flatten xs) ≡ start + length (flatten (x ∷ xs)) =
      omega (arith, length-append x (flatten xs)) in
    rw (← e) (ap (λ r. start ∷ r) (offsets_of-append (start + length x) xs ys))

pub table_bytes-append :
    (vs ws : List ℕ) → table_bytes (vs ++ ws) ≡ table_bytes vs ++ table_bytes ws
table_bytes-append [] ws = refl
table_bytes-append (v ∷ vs) ws = simp (table_bytes-append vs ws, append_assoc)

pub length-table_bytes : (vs : List ℕ) → length (table_bytes vs) ≡ length vs * 8
length-table_bytes [] = refl
length-table_bytes (v ∷ vs) = omega (
  arith,
  length-append (to_le_bytes v) (table_bytes vs),
  length-to_le_bytes v,
  length-table_bytes vs,
)

-- The bytes around one slot of the table.
pub with_table-slot :
    (front : Bytes) (before : List ℕ) (v : ℕ) (after : List ℕ) (body : Bytes)
    → with_table front (before ++ (v ∷ after)) body
      ≡ (front ++ table_bytes before) ++ (to_le_bytes v ++ (table_bytes after ++ body))
with_table-slot front before v after body =
    simp (table_bytes-append before (v ∷ after), append_assoc)

pub length-front_table :
    (front : Bytes) (before : List ℕ)
    → length front ≡ 32
    → length (front ++ table_bytes before) ≡ data_start (length before)
length-front_table front before h =
    omega (arith, length-append front (table_bytes before), length-table_bytes before)

-- A slot of the table reads back as the offset in it.
pub read_slot :
    (d : DataHandler) (front : Bytes) (before : List ℕ) (v : ℕ) (after : List ℕ) (body : Bytes)
    → IsSynced d
    → length front ≡ 32
    → IsU64 v
    → d.file.bytes ≡ with_table front (before ++ (v ∷ after)) body
    → get_offset_value_from_offset_header d (data_start (length before)) ≡ some v
unfolding get_offset_value_from_offset_header
read_slot d front before v after body synced h fits e =
    rw
      (
        read_pointer-append d (front ++ table_bytes before) (to_le_bytes v)
            (table_bytes after ++ body) (data_start (length before)) 8 synced
            (e ∙ with_table-slot front before v after body) (length-front_table front before h)
            (length-to_le_bytes v),
        get_offset_value_from_offset_header,
        length-to_le_bytes v,
      )
      (ap some (from_le_bytes-to_le_bytes v fits))

pub length-with_table :
    (front : Bytes) (slots : List ℕ) (body : Bytes)
    → length front ≡ 32
    → length (with_table front slots body) ≡ data_start (length slots) + length body
length-with_table front slots body h = omega (
  arith,
  length-append front (table_bytes slots ++ body),
  length-append (table_bytes slots) body,
  length-table_bytes slots,
)

pub length-slots :
    (start : ℕ) (items : List Bytes) (free : ℕ)
    → length (offsets_of start items ++ replicate free 0) ≡ length items + free
length-slots start items free = omega (
  arith,
  length-append (offsets_of start items) (replicate free 0),
  length-offsets_of start items,
  length-replicate {A = ℕ} free 0,
)

-- The items fill the file behind the table.
pub Stored-length :
    {Uuid : Type 0} {front : Bytes} {free : ℕ} {s : DataShard Uuid} (items : List Bytes)
    → Stored front free s items
    → length s.data_handler.file.bytes ≡ data_start (length items + free) + length (flatten items)
Stored-length {front = front} {free = free} {s = s} items st =
    let base = data_start (length items + free) in
    ap length st.layout
    ∙ length-with_table front (offsets_of base items ++ replicate free 0) (flatten items)
        st.front_len
    ∙ ap (λ n. data_start n + length (flatten items)) (length-slots base items free)
