-- ===== src/MapShard/Names/RoundTrip.antt =====
-- A generated shard name is taken apart into what it was made of.
use schema_js.Prelude.{
  ℕ, zero, suc, ◌+◌, ◌-◌, ◌*◌, ◌/◌, ◌%◌, ◌^◌, ◌<◌, ◌≤◌, ◌≡◌, ◌≢◌, refl, ap, ◌∙◌, List, [], ◌∷◌,
  ◌++◌, some, All, length, length-append, append_assoc, ltb, arith, ◌⊎◌, inl, inr, Bool-cases,
  ltb→lt,
}
use native.Mathlib.Nat.{pow-suc}
use schema_js.Uuid.{UuidApi, IsPlain, underscore, full_stop}
use schema_js.MapShard.Names.{
  split_on, decimal, usize_to_string, parse_digits, parse_usize, extract_shard_signature,
  generate_shard_name, extension, signature_of_parts,
}

Avoids : ℕ → List ℕ → Type 0
Avoids at = All (λ c. c ≢ at)

split_on-Avoids : (at : ℕ) (cs : List ℕ) → Avoids at cs → split_on at cs ≡ cs ∷ []
unfolding Avoids split_on
split_on-Avoids at [] h = refl
split_on-Avoids at (c ∷ cs) h = ground (arith, split_on-Avoids at cs h.1, h.0)

split_on-append :
    (at : ℕ) (cs ds : List ℕ) → Avoids at cs → split_on at (cs ++ (at ∷ ds)) ≡ cs ∷ split_on at ds
unfolding Avoids split_on
split_on-append at [] ds h = ground arith
split_on-append at (c ∷ cs) ds h = ground (arith, split_on-append at cs ds h.1, h.0)

IsDigit : ℕ → Type 0
IsDigit c = (48 ≤ c) × (c ≤ 57)

All-append {ℓ κ} :
    {A : Type ℓ} (P : A → Type κ) (xs ys : List A) → All P xs → All P ys → All P (xs ++ ys)
All-append P [] ys p q = q
All-append P (x ∷ xs) ys p q = (p.0, All-append P xs ys p.1 q)

All-weaken {ℓ κ ι} :
    {A : Type ℓ} {P : A → Type κ} {Q : A → Type ι}
    → ((x : A) → P x → Q x)
    → (xs : List A) → All P xs
    → All Q xs
All-weaken f [] h = tt
All-weaken f (x ∷ xs) h = (f x h.0, All-weaken f xs h.1)

decimal-IsDigit : (k n : ℕ) → All IsDigit (decimal k n)
unfolding decimal IsDigit
decimal-IsDigit zero n = tt
decimal-IsDigit (suc k) n = elim (Bool-cases (ltb n 10)) [
  | inl small ↦ rw small ((omega (arith, ltb→lt n 10 small), tt))
  | inr large ↦ rw large (
      All-append IsDigit (decimal k (n / 10)) ((48 + n % 10) ∷ []) (decimal-IsDigit k (n / 10))
        (omega arith, tt))
]

parse_digits-append :
    (acc : ℕ) (cs : List ℕ) (d v : ℕ)
    → parse_digits acc cs ≡ some v
    → d < 10
    → v * 10 + d < 2 ^ 64
    → parse_digits acc (cs ++ ((48 + d) ∷ [])) ≡ some (v * 10 + d)
unfolding parse_digits
parse_digits-append acc [] d v h small fits = ground arith
parse_digits-append acc (c ∷ cs) d v h small fits =
    ground (arith, parse_digits-append (acc * 10 + (c - 48)) cs d v)

parse_digits-decimal : (k n : ℕ) → n < 10 ^ k → n < 2 ^ 64 → parse_digits 0 (decimal k n) ≡ some n
unfolding decimal parse_digits
parse_digits-decimal zero n h fits = ap some (omega arith)
parse_digits-decimal (suc k) n h fits = elim (Bool-cases (ltb n 10)) [
  | inl small ↦
      rw small (
        parse_digits-append 0 [] n 0 refl (ltb→lt n 10 small) (omega arith) ∙ ap some (omega arith))
  | inr large ↦ rw large (
      parse_digits-append 0 (decimal k (n / 10)) (n % 10) (n / 10)
        (parse_digits-decimal k (n / 10) (omega (arith, pow-suc 10 k)) (omega arith)) (omega arith)
        (omega arith)
      ∙ ap some (omega arith))
]

decimal-nonempty : (k n : ℕ) → decimal (suc k) n ≢ []
unfolding decimal
decimal-nonempty k n = elim (Bool-cases (ltb n 10)) [
  | inl small ↦ rw small (λ e. cc)
  | inr large ↦ rw large (λ e.
      absurd (omega (arith, length-append (decimal k (n / 10)) ((48 + n % 10) ∷ []), ap length e)))
]

parse_usize-digits : (cs : List ℕ) → cs ≢ [] → All IsDigit cs → parse_usize cs ≡ parse_digits 0 cs
unfolding parse_usize IsDigit
parse_usize-digits [] h digits = absurd (h refl)
parse_usize-digits (c ∷ cs) h digits = ground (arith, digits.0)

-- A number below 2 ^ 64 is read back from its decimal digits.
pub parse_usize-usize_to_string : (n : ℕ) → n < 2 ^ 64 → parse_usize (usize_to_string n) ≡ some n
parse_usize-usize_to_string n h =
    parse_usize-digits (usize_to_string n) (decimal-nonempty 19 n) (decimal-IsDigit 20 n)
    ∙ parse_digits-decimal 20 n (omega arith) h

digits-Avoids : (at n : ℕ) → (at < 48) ⊎ (57 < at) → Avoids at (usize_to_string n)
unfolding Avoids IsDigit
digits-Avoids at n out =
    All-weaken (λ c d e. absurd (omega arith)) (usize_to_string n) (decimal-IsDigit 20 n)

plain-underscore : (cs : List ℕ) → All IsPlain cs → Avoids underscore cs
unfolding Avoids
plain-underscore = All-weaken (λ c h. h.0)

plain-full_stop : (cs : List ℕ) → All IsPlain cs → Avoids full_stop cs
unfolding Avoids
plain-full_stop = All-weaken (λ c h. h.1)

Avoids-append : (at : ℕ) (xs ys : List ℕ) → Avoids at xs → Avoids at ys → Avoids at (xs ++ ys)
unfolding Avoids
Avoids-append at xs ys p q = All-append (λ c. c ≢ at) xs ys p q

underscore-Avoids : (cs : List ℕ) → Avoids full_stop cs → Avoids full_stop (underscore ∷ cs)
unfolding Avoids
underscore-Avoids cs h = (omega arith, h)

module _ {Uuid : Type 0} ⦃u : UuidApi Uuid⦄ (prefix : List ℕ) (id : Uuid) (number : ℕ)
    (plain : All IsPlain prefix) where
  abbrev digits : List ℕ
  digits = usize_to_string number

  -- The name without its extension.
  abbrev stem : List ℕ
  stem = prefix ++ (underscore ∷ (u.to_string id ++ (underscore ∷ digits)))

  stem-Avoids : Avoids full_stop stem
  stem-Avoids = Avoids-append full_stop prefix _ (plain-full_stop prefix plain) (
      underscore-Avoids _ (
        Avoids-append full_stop (u.to_string id) _ (plain-full_stop _ (u.to_string-IsPlain id))
          (underscore-Avoids digits (digits-Avoids full_stop number (inl (omega arith))))))

  stem_parts : split_on underscore stem ≡ prefix ∷ u.to_string id ∷ digits ∷ []
  stem_parts =
      split_on-append underscore prefix _ (plain-underscore prefix plain)
      ∙ ap (λ parts. prefix ∷ parts)
          (split_on-append underscore (u.to_string id) digits
              (plain-underscore _ (u.to_string-IsPlain id))
            ∙ ap (λ parts. u.to_string id ∷ parts)
                (split_on-Avoids underscore digits
                  (digits-Avoids underscore number (inr (omega arith)))))

  -- With a prefix that ends in its only `'_'` and has no full stop, a number of 64 bits and the id are
  -- read back from the name.
  pub extract_shard_signature-generate_shard_name :
      number < 2 ^ 64
      → extract_shard_signature (generate_shard_name (prefix ++ (underscore ∷ [])) id number)
        ≡ some (number, u.to_string id, generate_shard_name (prefix ++ (underscore ∷ [])) id number)
  unfolding extract_shard_signature generate_shard_name
  extract_shard_signature-generate_shard_name fits =
      let whole : generate_shard_name (prefix ++ (underscore ∷ [])) id number ≡ stem ++ extension =
        simp append_assoc in
      rw
        (
          whole,
          split_on-append full_stop stem _ stem-Avoids,
          stem_parts,
          parse_usize-usize_to_string number fits,
          signature_of_parts,
        )
        (ap (λ path. some (number, u.to_string id, path)) whole)
