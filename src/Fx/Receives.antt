-- ===== src/Fx/Receives.antt =====
-- What a conversion receives: the exact product of amount, rate and scales, without its fraction.
use giro.Prelude.{
  zero, any, Bool-cases, Option-cases, [], ℕ, suc, ◌∷◌, ◌-◌, ◌+◌, ◌*◌, ◌/◌, ◌%◌, ◌^◌, ◌≤◌, ◌<◌, ◌≡◌,
  ◌↔◌, subst, Bool, true, Option, some, ok, ok-injective, err-ne-ok, >>=-eq-ok, inl, inr, arith,
  Bytes, ℤ, pos, ◌==◌,
}
use giro.Ledger.Asset.{Asset, scale}
use giro.Fx.{
  Rat, Rate, Conversion, parse_rate, positive_rate, set_string, scale_or_error, is_refused,
  positive_amount, exact_num, exact_den, receives,
}

scale_or_error-eq-ok : (a : Asset) {n : ℕ} → scale_or_error a ≡ ok n → scale a ≡ some n
scale_or_error-eq-ok a h = ground arith

positive_amount-eq-ok :
    (o : Option ℤ) {n : ℕ} → positive_amount o ≡ ok n → (o ≡ some (pos n)) × (0 < n)
positive_amount-eq-ok o h = ground arith

positive_rate-over : (r : Rat) {rate : Rate} → positive_rate r ≡ ok rate → 0 < rate.over
positive_rate-over r h = ground arith

module _ (other : Bytes → Option Rat) where
  parse_rate-over : (s : Bytes) {rate : Rate} → parse_rate other s ≡ ok rate → 0 < rate.over
  unfolding parse_rate
  parse_rate-over [] h = cc
  parse_rate-over (c ∷ cs) h = elim (Bool-cases (any is_refused (c ∷ cs))) [
    | inl refused ↦ absurd (err-ne-ok (rw (parse_rate, refused) at h))
    | inr plain ↦ elim (Option-cases (set_string other (c ∷ cs))) [
      | inl malformed ↦ absurd (err-ne-ok (rw (parse_rate, plain, malformed) at h))
      | inr (r, read) ↦ positive_rate-over r (rw (parse_rate, plain, read) at h)
    ]
  ]

power_pos : (n : ℕ) → 0 < 10 ^ n
power_pos zero = omega arith
power_pos (suc n) = omega (arith, power_pos n)

product_pos : (a b : ℕ) → 0 < a → 0 < b → 0 < a * b
product_pos a b p q = grind arith

-- The quotient's place, and when nothing is left over.
quotient_bounds :
    (n d : ℕ)
    → 0 < d
    → (n / d * d ≤ n) × (n < (n / d + 1) * d) × (((n % d == 0) ≡ true) ↔ (n / d * d ≡ n))
quotient_bounds n d h = (grind arith, grind arith, (λ e. grind arith, λ e. grind arith))

-- What a conversion that receives `out` rests on.
pub record Received (other : Bytes → Option Rat) (c : Conversion) (out : ℕ) (exact : Bool)
    : Type 0 where
  pub amount : ℕ
  pub rate : Rate
  pub from_scale : ℕ
  pub to_scale : ℕ
  pub given : c.amount ≡ some (pos amount)
  pub positive : 0 < amount
  pub priced : parse_rate other c.rate ≡ ok rate
  pub scaled_from : scale c.from ≡ some from_scale
  pub scaled_to : scale c.to ≡ some to_scale
  pub below : out * exact_den rate from_scale to_scale ≤ exact_num amount rate from_scale to_scale
  pub above :
      exact_num amount rate from_scale to_scale < (out + 1) * exact_den rate from_scale to_scale
  pub exactly :
      (exact ≡ true)
      ↔ (out * exact_den rate from_scale to_scale ≡ exact_num amount rate from_scale to_scale)

pub receives-Received :
    (other : Bytes → Option Rat) (c : Conversion) {out : ℕ} {exact : Bool}
    → receives other c ≡ ok (out, exact)
    → Received other c out exact
unfolding receives
receives-Received other c h =
    let (r, priced, h1) = >>=-eq-ok (parse_rate other c.rate) _ h in
    let (from_scale, scaled_from, h2) = >>=-eq-ok (scale_or_error c.from) _ h1 in
    let (to_scale, scaled_to, h3) = >>=-eq-ok (scale_or_error c.to) _ h2 in
    let (amount, given, h4) = >>=-eq-ok (positive_amount c.amount) _ h3 in
    let num = exact_num amount r from_scale to_scale in
    let den = exact_den r from_scale to_scale in
    let (given_eq, positive) = positive_amount-eq-ok c.amount given in
    let (below, above, exactly) = quotient_bounds num den (
      product_pos r.over (10 ^ (from_scale - to_scale)) (parse_rate-over other c.rate priced)
        (power_pos (from_scale - to_scale))) in
    subst (λ (z : ℕ × Bool). Received other c z.0 z.1) (ok-injective h4)
      (record {
        amount = amount;
        rate = r;
        from_scale = from_scale;
        to_scale = to_scale;
        given = given_eq;
        positive = positive;
        priced = priced;
        scaled_from = scale_or_error-eq-ok c.from scaled_from;
        scaled_to = scale_or_error-eq-ok c.to scaled_to;
        below = below;
        above = above;
        exactly = exactly;
      })
