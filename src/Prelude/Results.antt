-- ===== src/Prelude/Results.antt =====
-- Rust's `Result`, with a panic as a third outcome.
use schema_js.Prelude.Tests.{leb, ltb, lt→ltb, if◌then◌else◌}
use Prim.Native.Nat.{ℕ, ◌-◌, ◌^◌, ◌<◌}
use mathlib.Core.Path.{◌≡◌, refl}
use mathlib.Core.Option.{Option, none, some}

pub data Result {ℓ} (E : Type 0) (A : Type ℓ) : Type ℓ where
  ok : A → Result E A
  err : E → Result E A
  panic : Result E A

infixl 5 ◌>>=◌
abbrev pub ◌>>=◌ {ℓ κ} :
    {E : Type 0} {A : Type ℓ} {B : Type κ} → Result E A → (A → Result E B) → Result E B
ok a >>= f = f a
err e >>= f = err e
panic >>= f = panic

-- `unwrap` and `expect`: an error is a panic.
abbrev pub unwrap {ℓ} : {E F : Type 0} {A : Type ℓ} → Result E A → Result F A
unwrap (ok a) = ok a
unwrap (err e) = panic
unwrap panic = panic

abbrev pub map_err {ℓ} : {E F : Type 0} {A : Type ℓ} → (E → F) → Result E A → Result F A
map_err f (ok a) = ok a
map_err f (err e) = err (f e)
map_err f panic = panic

-- `unwrap` of an `Option`.
abbrev pub expect_some {ℓ} : {E : Type 0} {A : Type ℓ} → Option A → Result E A
expect_some none = panic
expect_some (some a) = ok a

abbrev pub ok_or {ℓ} : {E : Type 0} {A : Type ℓ} → Option A → E → Result E A
ok_or none e = err e
ok_or (some a) e = ok a

-- A subtraction of unsigned integers: going below 0 panics, as overflow checks make it.
abbrev pub checked_sub : {E : Type 0} → ℕ → ℕ → Result E ℕ
checked_sub a b = if leb b a then ok (a - b) else panic

-- A result of `usize` arithmetic: one of more than 64 bits panics, as overflow checks make it.
unfoldable pub in_usize : {E : Type 0} → ℕ → Result E ℕ
in_usize n = if ltb n (2 ^ 64) then ok n else panic

pub in_usize_lem : {E : Type 0} (n : ℕ) → n < 2 ^ 64 → in_usize {E = E} n ≡ ok n
unfolding in_usize
in_usize_lem n h = rw (lt→ltb n (2 ^ 64) h) refl

abbrev pub unwrap_or {ℓ} : {A : Type ℓ} → Option A → A → A
unwrap_or none d = d
unwrap_or (some a) d = a

-- Two computations after a first one, when they agree on what it gives.
pub >>=-chain {ℓ₁ ℓ₂ ℓ₃ ℓ₄} :
    {E : Type 0} {A : Type ℓ₁} {B : Type ℓ₂} {C : Type ℓ₃} {D : Type ℓ₄} (r : Result E A)
    (f : A → B) (next : B → Result E D) (s : A → Result E C) (last : C → Result E D)
    → ((a : A) → next (f a) ≡ (s a >>= last))
    → ((r >>= λ a. ok (f a)) >>= next) ≡ (r >>= s >>= last)
>>=-chain (ok a) f next s last h = h a
>>=-chain (err e) f next s last h = refl
>>=-chain panic f next s last h = refl

-- A computation after a first one, in two parts.
pub >>=-cong {ℓ₁ ℓ₂ ℓ₃} :
    {E : Type 0} {A : Type ℓ₁} {B : Type ℓ₂} {C : Type ℓ₃} (r : Result E A) (whole : A → Result E C)
    (s : A → Result E B) (last : B → Result E C)
    → ((a : A) → whole a ≡ (s a >>= last))
    → (r >>= whole) ≡ (r >>= s >>= last)
>>=-cong (ok a) whole s last h = h a
>>=-cong (err e) whole s last h = refl
>>=-cong panic whole s last h = refl

pub >>=-ok {ℓ₁ ℓ₂ ℓ₃} :
    {E : Type 0} {A : Type ℓ₁} {B : Type ℓ₂} {C : Type ℓ₃} (r : Result E A) (f : A → B) (g : B → C)
    → ((r >>= λ a. ok (f a)) >>= λ b. ok (g b)) ≡ (r >>= λ a. ok (g (f a)))
>>=-ok (ok a) f g = refl
>>=-ok (err e) f g = refl
>>=-ok panic f g = refl

-- Two computations that succeed after a first one.
pub >>=-run {ℓ₁ ℓ₂ ℓ₃ ℓ₄} :
    {E : Type 0} {A : Type ℓ₁} {B : Type ℓ₂} {C : Type ℓ₃} {D : Type ℓ₄} (r : Result E A)
    (f : A → B) (next : B → Result E C) (finish : C → Result E D) (g : A → D)
    → ((a : A) → (next (f a) >>= finish) ≡ ok (g a))
    → ((r >>= λ a. ok (f a)) >>= next >>= finish) ≡ (r >>= λ a. ok (g a))
>>=-run (ok a) f next finish g h = h a
>>=-run (err e) f next finish g h = refl
>>=-run panic f next finish g h = refl
