-- ===== src/Uuid.antt =====
-- The `uuid` crate, which is not part of the repository: what crates/data/src uses of it.
use schema_js.Prelude.{ℕ, ◌≡◌, ◌≢◌, List, Option, some, length, All}
use schema_js.Prelude.Bytes.{Bytes}

-- `'_'` and `'.'`, at which file names are taken apart.
abbrev pub underscore : ℕ
underscore = 95

abbrev pub full_stop : ℕ
full_stop = 46

-- A character that is neither `'_'` nor `'.'`.
abbrev pub IsPlain : ℕ → Type 0
IsPlain c = (c ≢ underscore) × (c ≢ full_stop)

-- An id has 16 bytes and is written as 32 hexadecimal digits with dashes.
pub record UuidApi (Uuid : Type 0) : Type 0 where
  pub to_bytes_le : Uuid → Bytes
  pub from_bytes_le : Bytes → Uuid
  pub to_string : Uuid → List ℕ
  pub parse_str : List ℕ → Option Uuid
  pub length-to_bytes_le : (u : Uuid) → length (to_bytes_le u) ≡ 16
  pub from_bytes_le-to_bytes_le : (u : Uuid) → from_bytes_le (to_bytes_le u) ≡ u
  pub to_string-IsPlain : (u : Uuid) → All IsPlain (to_string u)
  pub parse_str-to_string : (u : Uuid) → parse_str (to_string u) ≡ some u
