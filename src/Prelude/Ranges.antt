-- ===== src/Prelude/Ranges.antt =====
-- Reading and overwriting a range of a list: `slice.get(from..to)` and a positioned write.
use Prim.Native.Nat.{ℕ, ◌+◌, ◌-◌}
use mathlib.Core.Path.{◌≡◌}
use mathlib.Core.Bool.{◌&&◌}
use mathlib.Core.List.{List, ◌++◌, append_assoc}
use mathlib.Core.Option.{Option, none, some}
use native.Mathlib.Omega.{arith}
use schema_js.Prelude.Tests.{leb, le→leb, if◌then◌else◌}
use schema_js.Prelude.Lists.{length, take, drop, length-append, take-append, drop-append, replicate}

module _ {ℓ} {A : Type ℓ} where
  -- `slice.get(from..to)`: nothing when the range is reversed or passes the end.
  abbrev pub get_range : List A → ℕ → ℕ → Option (List A)
  get_range xs from to =
      if leb from to && leb to (length xs) then some (take (to - from) (drop from xs)) else none

  -- The bytes of a positioned write take the place of what stood there; a hole reads as `blank`.
  abbrev pub overwrite : A → List A → ℕ → List A → List A
  overwrite blank xs at ys =
      take at xs ++ (replicate (at - length xs) blank ++ (ys ++ drop (at + length ys) xs))

  pub get_range-append :
      (xs ys zs : List A) (from to : ℕ)
      → length xs ≡ from
      → from + length ys ≡ to
      → get_range (xs ++ (ys ++ zs)) from to ≡ some ys
  get_range-append xs ys zs from to p q =
      let l = length-append xs (ys ++ zs) in
      let m = length-append ys zs in
      let w : to - from ≡ length ys = omega arith in
      rw (
        le→leb from to (omega arith),
        le→leb to (length (xs ++ (ys ++ zs))) (omega arith),
        w,
        ← p,
        drop-append xs (ys ++ zs),
        take-append ys zs,
      )

  pub overwrite-append :
      (blank : A) (xs ys zs new : List A) (at : ℕ)
      → length xs ≡ at
      → length new ≡ length ys
      → overwrite blank (xs ++ (ys ++ zs)) at new ≡ xs ++ (new ++ zs)
  overwrite-append blank xs ys zs new at p q =
      let l = length-append xs (ys ++ zs) in
      let m = length-append xs ys in
      let none_missing : at - length (xs ++ (ys ++ zs)) ≡ 0 = omega arith in
      let end : at + length new ≡ length (xs ++ ys) = omega arith in
      rw (none_missing, end, ← p, take-append xs (ys ++ zs), ← append_assoc xs ys zs)
        (rw (drop-append (xs ++ ys) zs))
