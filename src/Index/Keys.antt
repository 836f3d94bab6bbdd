-- ===== src/Index/Keys.antt =====
-- crates/index/src/composite_key.rs and keys/index_key_sha256.rs, with crates/data/src/utils/hash.rs:
-- the keys of a hash index. The hash itself (SHA-256) is a parameter.
use schema_js.Prelude.{
  ℕ, ◌+◌, ◌*◌, ◌/◌, ◌%◌, ◌≡◌, ap, List, [], ◌∷◌, ◌++◌, length, ltb, append_assoc, if◌then◌else◌,
  arith,
}
use schema_js.Prelude.Bytes.{Bytes}

-- Pairs of strings, each as its bytes.
abbrev pub CompositeKey : Type 0
CompositeKey = List (Bytes × Bytes)

abbrev pub hex_digit : ℕ → ℕ
hex_digit n = if ltb n 10 then 48 + n else 87 + n

-- `{:02x}` of each byte.
unfoldable pub sha256_to_string : Bytes → Bytes
sha256_to_string [] = []
sha256_to_string (b ∷ bs) = hex_digit (b / 16) ∷ hex_digit (b % 16) ∷ sha256_to_string bs

-- The loop over the pairs: keys and values are joined without a mark between them.
unfoldable pub composite_bytes : CompositeKey → Bytes
composite_bytes [] = []
composite_bytes ((key, val) ∷ rest) = key ++ (val ++ composite_bytes rest)

-- `From<CompositeKey> for IndexKeySha256`
unfoldable pub key_from_composite : (Bytes → Bytes) → CompositeKey → Bytes
key_from_composite to_sha256 key = sha256_to_string (to_sha256 (composite_bytes key))

pub length-sha256_to_string : (bs : Bytes) → length (sha256_to_string bs) ≡ length bs * 2
unfolding sha256_to_string
length-sha256_to_string [] = omega arith
length-sha256_to_string (b ∷ bs) = omega (arith, length-sha256_to_string bs)

-- Characters that move from the end of a column's name to the front of its value leave the key as
-- it is, whatever the hash.
pub key_from_composite-moved :
    (to_sha256 : Bytes → Bytes) (name moved value : Bytes) (rest : CompositeKey)
    → key_from_composite to_sha256 ((name ++ moved, value) ∷ rest)
      ≡ key_from_composite to_sha256 ((name, moved ++ value) ∷ rest)
unfolding key_from_composite composite_bytes
key_from_composite-moved to_sha256 name moved value rest =
    ap (λ b. sha256_to_string (to_sha256 b)) (simp append_assoc)

-- A value's end and the next column's name run together in the same way.
pub key_from_composite-joined :
    (to_sha256 : Bytes → Bytes) (name value next moved other : Bytes) (rest : CompositeKey)
    → key_from_composite to_sha256 ((name, value ++ moved) ∷ (next, other) ∷ rest)
      ≡ key_from_composite to_sha256 ((name, value) ∷ (moved ++ next, other) ∷ rest)
unfolding key_from_composite composite_bytes
key_from_composite-joined to_sha256 name value next moved other rest =
    ap (λ b. sha256_to_string (to_sha256 b)) (simp append_assoc)
