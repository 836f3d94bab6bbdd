-- ===== src/Runs/Samples.antt =====
-- Sample values: an id type with five ids.
use schema_js.Prelude.{
  ℕ, zero, suc, ◌+◌, ◌-◌, ◌<◌, ◌≤◌, ◌≡◌, ◌≢◌, refl, ap, ◌∙◌, List, [], ◌∷◌, Option, some, none,
  replicate, All, arith,
}
use schema_js.Prelude.Bytes.{Bytes}
use schema_js.Uuid.{UuidApi, IsPlain}

pub data SampleId : Type 0 where
  zeroth first second third fourth : SampleId

abbrev pub number_of : SampleId → ℕ
number_of zeroth = 0
number_of first = 1
number_of second = 2
number_of third = 3
number_of fourth = 4

abbrev pub sample_id : ℕ → SampleId
sample_id zero = zeroth
sample_id (suc zero) = first
sample_id (suc (suc zero)) = second
sample_id (suc (suc (suc zero))) = third
sample_id (suc (suc (suc (suc n)))) = fourth

abbrev sample_bytes : SampleId → Bytes
sample_bytes s = number_of s ∷ replicate 15 0

abbrev sample_of_bytes : Bytes → SampleId
sample_of_bytes [] = zeroth
sample_of_bytes (b ∷ bs) = sample_id b

-- `a` to `e`
abbrev sample_string : SampleId → List ℕ
sample_string s = (97 + number_of s) ∷ []

abbrev sample_parse : List ℕ → Option SampleId
sample_parse (c ∷ []) = some (sample_id (c - 97))
sample_parse _ = none

pub sample_id-number_of : (s : SampleId) → sample_id (number_of s) ≡ s
sample_id-number_of zeroth = refl
sample_id-number_of first = refl
sample_id-number_of second = refl
sample_id-number_of third = refl
sample_id-number_of fourth = refl

number_of-sample_id : (n : ℕ) → n ≤ 4 → number_of (sample_id n) ≡ n
number_of-sample_id zero h = refl
number_of-sample_id (suc zero) h = refl
number_of-sample_id (suc (suc zero)) h = refl
number_of-sample_id (suc (suc (suc zero))) h = refl
number_of-sample_id (suc (suc (suc (suc n)))) h = omega (arith, h)

pub sample-IsPlain : (s : SampleId) → All IsPlain (sample_string s)
sample-IsPlain zeroth = omega arith
sample-IsPlain first = omega arith
sample-IsPlain second = omega arith
sample-IsPlain third = omega arith
sample-IsPlain fourth = omega arith

pub sample_parse_back : (s : SampleId) → sample_parse (sample_string s) ≡ some s
sample_parse_back s =
    let e : 97 + number_of s - 97 ≡ number_of s = omega arith in
    ap (λ n. some (sample_id n)) e ∙ ap some (sample_id-number_of s)

instance abbrev pub sample_uuid : UuidApi SampleId
sample_uuid = record {
  to_bytes_le = sample_bytes;
  from_bytes_le = sample_of_bytes;
  to_string = sample_string;
  parse_str = sample_parse;
  length-to_bytes_le = λ s. refl;
  from_bytes_le-to_bytes_le = sample_id-number_of;
  to_string-IsPlain = sample-IsPlain;
  parse_str-to_string = sample_parse_back;
}

heads : (a b : ℕ) → a ≢ b → (a ∷ []) ≢ (b ∷ [])
heads a b h e = h cc

pub sample_ids_distinct :
    (i j : ℕ) → i < j → j ≤ 4 → sample_string (sample_id j) ≢ sample_string (sample_id i)
sample_ids_distinct i j below most =
    let at_i = number_of-sample_id i (omega arith) in
    let at_j = number_of-sample_id j most in
    heads (97 + number_of (sample_id j)) (97 + number_of (sample_id i)) (omega arith)
