-- ===== src/MapShard/Names.antt =====
-- crates/data/src/shard/map_shard.rs: `generate_shard_name` and `extract_shard_signature`.
pub mod RoundTrip
use schema_js.Prelude.{
  ℕ, zero, suc, ◌+◌, ◌-◌, ◌*◌, ◌/◌, ◌%◌, ◌^◌, ◌<◌, ◌≤◌, ◌≡◌, List, [], ◌∷◌, ◌++◌, Bool, true, false,
  ◌&&◌, Option, none, some, ltb, leb, ◌==◌, if◌then◌else◌,
}
use schema_js.Storage.Handler.{FileName}
use schema_js.Uuid.{UuidApi, underscore, full_stop}

-- `str::split` at a character.
abbrev pub onto_first : ℕ → List (List ℕ) → List (List ℕ)
onto_first c [] = (c ∷ []) ∷ []
onto_first c (part ∷ parts) = (c ∷ part) ∷ parts

unfoldable pub split_on : ℕ → List ℕ → List (List ℕ)
split_on at [] = [] ∷ []
split_on at (c ∷ cs) = let rest = split_on at cs in if c == at then [] ∷ rest else onto_first c rest

-- A `usize` in decimal: 20 digits are enough below 2 ^ 64.
unfoldable pub decimal : ℕ → ℕ → List ℕ
decimal zero n = []
decimal (suc k) n =
    let front = decimal k (n / 10) in
    if ltb n 10 then (48 + n) ∷ [] else front ++ ((48 + n % 10) ∷ [])

abbrev pub usize_to_string : ℕ → List ℕ
usize_to_string n = decimal 20 n

-- `parse::<usize>`: an optional plus sign, then digits; a value past 64 bits is refused.
abbrev pub is_digit : ℕ → Bool
is_digit c = leb 48 c && leb c 57

unfoldable pub parse_digits : ℕ → List ℕ → Option ℕ
parse_digits acc [] = some acc
parse_digits acc (c ∷ cs) =
    let value = acc * 10 + (c - 48) in
    let rest = parse_digits value cs in if is_digit c && ltb value (2 ^ 64) then rest else none

abbrev pub parse_signed : List ℕ → Option ℕ
parse_signed [] = none
parse_signed (c ∷ cs) = parse_digits 0 (c ∷ cs)

unfoldable pub parse_usize : List ℕ → Option ℕ
parse_usize [] = none
parse_usize (c ∷ cs) = if c == 43 then parse_signed cs else parse_digits 0 (c ∷ cs)

abbrev pub first_part : List (List ℕ) → List ℕ
first_part [] = []
first_part (part ∷ parts) = part

abbrev pub signature_of_parts : FileName → List (List ℕ) → Option (ℕ × List ℕ × FileName)
signature_of_parts path (prefix ∷ id ∷ number ∷ []) = elim (parse_usize number) [
  | none ↦ none
  | some n ↦ some (n, id, path)
]
signature_of_parts path _ = none

-- The number, the id and the path of a shard's file.
unfoldable pub extract_shard_signature : FileName → Option (ℕ × List ℕ × FileName)
extract_shard_signature path =
    signature_of_parts path (split_on underscore (first_part (split_on full_stop path)))

-- `.data`
abbrev pub extension : List ℕ
extension = full_stop ∷ 100 ∷ 97 ∷ 116 ∷ 97 ∷ []

module _ {Uuid : Type 0} ⦃u : UuidApi Uuid⦄ where
  unfoldable pub generate_shard_name : List ℕ → Uuid → ℕ → FileName
  generate_shard_name prefix id number =
      prefix ++ (u.to_string id ++ (underscore ∷ (usize_to_string number ++ extension)))
