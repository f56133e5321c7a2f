-- ===== src/Storage/Recovery/Text/Numbers.antt =====
-- A number in decimal digits, written and read.
use giro.Prelude.{
  ℕ, zero, suc, ◌+◌, ◌*◌, ◌/◌, ◌%◌, ◌≤◌, ◌<◌, ◌≡◌, ◌≢◌, ◌-◌, ap, refl, ◌∙◌, some, [], ◌∷◌, arith,
  Bytes, Bool-cases, inl, inr, ◌==◌, pos, All,
}
use giro.Storage.Revert.{digits_from, format_int}
use giro.Storage.Recovery.Text.{digits_value, parse_int, int64_limit}

abbrev pub IsDigit : ℕ → Type 0
IsDigit c = (48 ≤ c) × (c ≤ 57)

pub digits_from-IsDigit :
    (fuel n : ℕ) (later : Bytes) → All IsDigit later → All IsDigit (digits_from fuel n later)
unfolding digits_from
digits_from-IsDigit zero n later h = h
digits_from-IsDigit (suc fuel) n later h =
    let digit : IsDigit (48 + n % 10) = omega arith in
    elim (Bool-cases (n / 10 == 0)) [
      | inl last ↦ rw (last, digits_from) (digit, h)
      | inr more ↦
          rw (more, digits_from)
            (digits_from-IsDigit fuel (n / 10) ((48 + n % 10) ∷ later) (digit, h))
    ]

digits_value-step :
    (value c : ℕ) (cs : Bytes)
    → IsDigit c
    → digits_value value (c ∷ cs) ≡ digits_value (value * 10 + (c - 48)) cs
unfolding digits_value
digits_value-step value c cs h = ground arith

digits_value-digits_from :
    (fuel n : ℕ) (later : Bytes)
    → n < fuel
    → digits_value 0 (digits_from fuel n later) ≡ digits_value n later
unfolding digits_from
digits_value-digits_from zero n later h = elim h [ ]
digits_value-digits_from (suc fuel) n later h =
    let digit : IsDigit (48 + n % 10) = omega arith in
    elim (Bool-cases (n / 10 == 0)) [
      | inl last ↦
          rw (last, digits_from)
            (digits_value-step 0 (48 + n % 10) later digit
              ∙ ap (λ v. digits_value v later) (ground arith))
      | inr more ↦
          rw (more, digits_from)
            (digits_value-digits_from fuel (n / 10) ((48 + n % 10) ∷ later) (ground arith)
              ∙ digits_value-step (n / 10) (48 + n % 10) later digit
              ∙ ap (λ v. digits_value v later) (omega arith))
    ]

parse_int-digits :
    (digits : Bytes) (n : ℕ)
    → All IsDigit digits
    → digits ≢ []
    → digits_value 0 digits ≡ some n
    → n < int64_limit
    → parse_int digits ≡ some (pos n)
unfolding parse_int
parse_int-digits [] n h full value small = absurd (full refl)
parse_int-digits (c ∷ cs) n h full value small = ground arith

digits_from-full : (fuel n : ℕ) (later : Bytes) → digits_from (suc fuel) n later ≢ []
unfolding digits_from
digits_from-full zero n later h = ground arith
digits_from-full (suc fuel) n later h = elim (Bool-cases (n / 10 == 0)) [
  | inl last ↦ absurd (cc (rw (last, digits_from) at h))
  | inr more ↦ digits_from-full fuel (n / 10) ((48 + n % 10) ∷ later) (rw (more, digits_from) at h)
]

pub parse_int-format_int : (n : ℕ) → n < int64_limit → parse_int (format_int n) ≡ some (pos n)
parse_int-format_int n small =
    parse_int-digits (format_int n) n (digits_from-IsDigit (suc n) n [] tt)
      (digits_from-full n n [])
      (digits_value-digits_from (suc n) n [] (omega arith) ∙ unfold digits_value in refl) small

pub format_int-IsDigit : (n : ℕ) → All IsDigit (format_int n)
format_int-IsDigit n = digits_from-IsDigit (suc n) n [] tt
