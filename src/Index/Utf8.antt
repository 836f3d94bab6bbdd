-- ===== src/Index/Utf8.antt =====
-- `String::from_utf8`: which bytes are UTF-8, by the table of well-formed sequences.
use schema_js.Prelude.{
  ℕ, zero, suc, ◌<◌, ◌≡◌, refl, [], ◌∷◌, Bool, true, false, Option, none, some, All, leb, ltb,
  lt→ltb, ◌==◌, ◌&&◌, if◌then◌else◌,
}
use schema_js.Prelude.Bytes.{Bytes}

-- What follows a first byte: how many bytes, and the bounds of the next one.
abbrev pub lead : ℕ → Option (ℕ × ℕ × ℕ)
lead b =
    if ltb b 0x80
    then some (0, 0x80, 0xBF)
    else if ltb b 0xC2
    then none
    else if ltb b 0xE0
    then some (1, 0x80, 0xBF)
    else if b == 0xE0
    then some (2, 0xA0, 0xBF)
    else if b == 0xED
    then some (2, 0x80, 0x9F)
    else if ltb b 0xF0
    then some (2, 0x80, 0xBF)
    else if b == 0xF0
    then some (3, 0x90, 0xBF)
    else if ltb b 0xF4
    then some (3, 0x80, 0xBF)
    else if b == 0xF4
    then some (3, 0x80, 0x8F)
    else none

-- `pending` bytes are still to come, the next one between `low` and `high`.
pub scan : (pending low high : ℕ) → Bytes → Bool
scan zero low high [] = true
scan (suc n) low high [] = false
scan zero low high (b ∷ bs) = elim (lead b) [
  | none ↦ false
  | some (n, low', high') ↦ scan n low' high' bs
]
scan (suc n) low high (b ∷ bs) =
    let rest = scan n 0x80 0xBF bs in if leb low b && leb b high then rest else false

unfoldable pub is_utf8 : Bytes → Bool
unfolding scan
is_utf8 bytes = scan 0 0x80 0xBF bytes

scan-ascii : (bytes : Bytes) → All (λ b. b < 128) bytes → scan 0 0x80 0xBF bytes ≡ true
unfolding scan
scan-ascii [] h = refl
scan-ascii (b ∷ bs) h = rw (scan, lt→ltb b 128 h.0) (scan-ascii bs h.1)

pub is_utf8-ascii : (bytes : Bytes) → All (λ b. b < 128) bytes → is_utf8 bytes ≡ true
unfolding is_utf8
is_utf8-ascii bytes h = scan-ascii bytes h
