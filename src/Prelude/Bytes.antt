-- ===== src/Prelude/Bytes.antt =====
-- Little-endian bytes: `to_le_bytes` and `from_le_bytes` of the standard library's integers.
use schema_js.Prelude.Lists.{length, All, replicate}
use schema_js.Prelude.Int.{ℤ, negsuc, as_u64, as_i64}
use Prim.Native.Nat.{ℕ, zero, suc, ◌+◌, ◌*◌, ◌/◌, ◌%◌, ◌^◌, ◌<◌}
use mathlib.Core.Path.{◌≡◌, refl, ap}
use mathlib.Core.List.{List, [], ◌∷◌}
use native.Mathlib.Omega.{arith}
use native.Mathlib.Nat.{pow-suc}

abbrev pub Bytes : Type 0
Bytes = List ℕ

abbrev pub IsByte : ℕ → Type 0
IsByte b = b < 256

abbrev pub IsU64 : ℕ → Type 0
IsU64 v = v < 2 ^ 64

-- The `k` lowest bytes of a number, lowest first.
pub le_bytes : ℕ → ℕ → Bytes
le_bytes zero v = []
le_bytes (suc k) v = (v % 256) ∷ le_bytes k (v / 256)

unfoldable pub from_le_bytes : Bytes → ℕ
from_le_bytes [] = 0
from_le_bytes (b ∷ bs) = b + 256 * from_le_bytes bs

unfoldable pub to_le_bytes : ℕ → Bytes
unfolding le_bytes
to_le_bytes v = le_bytes 8 v

unfoldable pub i64_to_le_bytes : ℤ → Bytes
unfolding to_le_bytes
i64_to_le_bytes x = to_le_bytes (as_u64 x)

unfoldable pub i64_from_le_bytes : Bytes → ℤ
unfolding from_le_bytes
i64_from_le_bytes bs = as_i64 (from_le_bytes bs)

length-le_bytes : (k v : ℕ) → length (le_bytes k v) ≡ k
unfolding le_bytes
length-le_bytes zero v = refl
length-le_bytes (suc k) v = ap suc (length-le_bytes k (v / 256))

pub length-to_le_bytes : (v : ℕ) → length (to_le_bytes v) ≡ 8
unfolding to_le_bytes
length-to_le_bytes v = length-le_bytes 8 v

pub length-i64_to_le_bytes : (x : ℤ) → length (i64_to_le_bytes x) ≡ 8
unfolding i64_to_le_bytes
length-i64_to_le_bytes x = length-le_bytes 8 (as_u64 x)

le_bytes-IsByte : (k v : ℕ) → All IsByte (le_bytes k v)
unfolding le_bytes
le_bytes-IsByte zero v = tt
le_bytes-IsByte (suc k) v = (omega arith, le_bytes-IsByte k (v / 256))

from_le_bytes-le_bytes : (k v : ℕ) → v < 256 ^ k → from_le_bytes (le_bytes k v) ≡ v
unfolding le_bytes from_le_bytes
from_le_bytes-le_bytes zero v h = omega arith
from_le_bytes-le_bytes (suc k) v h =
    let small : v / 256 < 256 ^ k = omega (arith, pow-suc 256 k) in
    omega (arith, from_le_bytes-le_bytes k (v / 256) small)

pub from_le_bytes-to_le_bytes : (v : ℕ) → IsU64 v → from_le_bytes (to_le_bytes v) ≡ v
unfolding to_le_bytes
from_le_bytes-to_le_bytes v h = from_le_bytes-le_bytes 8 v (omega arith)

pub to_le_bytes_zero : to_le_bytes 0 ≡ replicate 8 0
unfolding to_le_bytes
to_le_bytes_zero = refl

pub i64_minus_one : i64_from_le_bytes (i64_to_le_bytes (negsuc 0)) ≡ negsuc 0
unfolding i64_from_le_bytes i64_to_le_bytes
i64_minus_one = refl
