-- ===== src/Storage/Recovery/Text/Base64.antt =====
-- Bytes in base64, written and read.
use giro.Prelude.{
  ℕ, ◌+◌, ◌*◌, ◌/◌, ◌%◌, ◌<◌, ◌≡◌, ◌≢◌, refl, ap, ◌∙◌, some, List, [], ◌∷◌, arith, map, Bytes, All,
}
use giro.Storage.Recovery.Text.{
  base64_letter, base64_value, base64_values, sextets, octets, encode_base64, decode_base64,
  and_then,
}

base64_value-letter : (v : ℕ) → v < 64 → base64_value (base64_letter v) ≡ some v
unfolding base64_value base64_letter
base64_value-letter v h = ground arith

-- A letter is no line end and no colon.
abbrev IsPlain : ℕ → Type 0
IsPlain c = (c ≢ 10) × (c ≢ 13) × (c ≢ 58)

base64_letter-IsPlain : (v : ℕ) → v < 64 → IsPlain (base64_letter v)
unfolding base64_letter
base64_letter-IsPlain v h = ground arith

values_step :
    (c v : ℕ) (cs : Bytes) (vs : List ℕ)
    → IsPlain c
    → base64_value c ≡ some v
    → base64_values cs ≡ some vs
    → base64_values (c ∷ cs) ≡ some (v ∷ vs)
unfolding base64_values
values_step c v cs vs plain letter rest = ground arith

base64_values-letters :
    (vs : List ℕ) → All (λ v. v < 64) vs → base64_values (map base64_letter vs) ≡ some vs
base64_values-letters [] h = unfold base64_values in refl
base64_values-letters (v ∷ vs) h =
    values_step (base64_letter v) v (map base64_letter vs) vs (base64_letter-IsPlain v h.0)
      (base64_value-letter v h.0) (base64_values-letters vs h.1)

sextets_small : (bs : Bytes) → All (λ b. b < 256) bs → All (λ v. v < 64) (sextets bs)
unfolding sextets
sextets_small [] h = tt
sextets_small (a ∷ []) h = omega arith
sextets_small (a ∷ b ∷ []) h = omega arith
sextets_small (a ∷ b ∷ c ∷ rest) h =
    (omega arith, (omega arith, (omega arith, (omega arith, sextets_small rest h.1.1.1))))

octets_quad :
    (a b c : ℕ) (vs : List ℕ) (rest : Bytes)
    → a < 256
    → b < 256
    → c < 256
    → octets vs ≡ some rest
    → octets ((a / 4) ∷ (a % 4 * 16 + b / 16) ∷ (b % 16 * 4 + c / 64) ∷ (c % 64) ∷ vs)
      ≡ some (a ∷ b ∷ c ∷ rest)
unfolding octets
octets_quad a b c vs rest ha hb hc h = ground arith

octets-sextets : (bs : Bytes) → All (λ b. b < 256) bs → octets (sextets bs) ≡ some bs
unfolding octets sextets
octets-sextets [] h = refl
octets-sextets (a ∷ []) h = ground arith
octets-sextets (a ∷ b ∷ []) h = ground arith
octets-sextets (a ∷ b ∷ c ∷ rest) h =
    octets_quad a b c (sextets rest) rest h.0 h.1.0 h.1.1.0 (octets-sextets rest h.1.1.1)

pub decode-encode_base64 :
    (bs : Bytes) → All (λ b. b < 256) bs → decode_base64 (encode_base64 bs) ≡ some bs
unfolding decode_base64 encode_base64
decode-encode_base64 bs h =
    ap (λ o. and_then o octets) (base64_values-letters (sextets bs) (sextets_small bs h))
    ∙ octets-sextets bs h

letters_no_colon : (vs : List ℕ) → All (λ v. v < 64) vs → All (λ c. c ≢ 58) (map base64_letter vs)
letters_no_colon [] h = tt
letters_no_colon (v ∷ vs) h = ((base64_letter-IsPlain v h.0).2, letters_no_colon vs h.1)

pub encode_base64_no_colon :
    (bs : Bytes) → All (λ b. b < 256) bs → All (λ c. c ≢ 58) (encode_base64 bs)
unfolding encode_base64
encode_base64_no_colon bs h = letters_no_colon (sextets bs) (sextets_small bs h)
