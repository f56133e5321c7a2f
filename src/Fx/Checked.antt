-- ===== src/Fx/Checked.antt =====
-- The check of a transaction against its rate: what it accepts, and what a pass means.
use mathlib.Core.Logic.{if_pos, if_neg}
use giro.Prelude.{
  ite, subst, ◌+ℤ◌, +ℤ-zero, int_laws, ℕ, zero, suc, ◌≤◌, ◌<◌, ◌≡◌, ◌≢◌, ◌↔◌, refl, sym, ap, ◌∙◌,
  Bool, false, ◌||◌, Option, none, some, List, [], ◌∷◌, Result, ok, err, ok-injective, err-ne-ok,
  >>=-eq-ok, inl, inr, arith, Bytes, Bytes-discrete, ℤ, pos, ◌-ℤ◌, magnitude, zero-+ℤ, Bool-cases,
  Option-cases, All, ◌==◌,
}
use giro.Ledger.Asset.{Asset, scale}
use giro.Ledger.Metadata.{find_metadata, find-put_metadata, find-put_other}
use giro.Ledger.Posting.{Posting, Postings}
use giro.Storage.Schema.{Transaction, Metadata}
use giro.Fx.{
  sum_step, Rat, FxError, Conversion, receives, two_postings, conversion_postings,
  conversion_metadata, sum_sides, claimed, check, check_claim, check_sums, check_drift, with_id,
  is_blank, or_blank, is_zero, rate_key, from_key, to_key, verify, found_error,
}
use giro.Fx.Receives.{Received, receives-Received}

abbrev byte_at : ℕ → Bytes → ℕ
byte_at i [] = 0
byte_at zero (c ∷ cs) = c
byte_at (suc i) (c ∷ cs) = byte_at i cs

rate-ne-to : rate_key ≢ to_key
rate-ne-to h = absurd (omega (arith, ap (byte_at 16) h))

rate-ne-from : rate_key ≢ from_key
rate-ne-from h = absurd (omega (arith, ap (byte_at 16) h))

from-ne-to : from_key ≢ to_key
from-ne-to h = absurd (omega (arith, ap (byte_at 16) h))

-- What the metadata of a conversion says.
module _ (c : Conversion) (into : Metadata) where
  stated_rate : find_metadata rate_key (conversion_metadata c into) ≡ some c.rate
  unfolding conversion_metadata
  stated_rate =
      find-put_other rate_key to_key c.to _ rate-ne-to
      ∙ find-put_other rate_key from_key c.from _ rate-ne-from
      ∙ find-put_metadata rate_key c.rate into

  stated_from : find_metadata from_key (conversion_metadata c into) ≡ some c.from
  unfolding conversion_metadata
  stated_from =
      find-put_other from_key to_key c.to _ from-ne-to ∙ find-put_metadata from_key c.from _

  stated_to : find_metadata to_key (conversion_metadata c into) ≡ some c.to
  unfolding conversion_metadata
  stated_to = find-put_metadata to_key c.to _

scale-not_blank : (a : Asset) {n : ℕ} → scale a ≡ some n → is_blank a ≡ false
unfolding scale
scale-not_blank [] h = cc
scale-not_blank (c ∷ cs) h = refl

-- What a conversion whose postings are built has gone through.
record Built (other : Bytes → Option Rat) (c : Conversion) (p : Postings) : Type 0 where
  out : ℕ
  exact : Bool
  distinct : c.from ≢ c.to
  received : receives other c ≡ ok (out, exact)
  something : (out == 0) ≡ false
  postings : p ≡ two_postings c out

conversion_postings-Built :
    (other : Bytes → Option Rat) (c : Conversion) {p : Postings}
    → conversion_postings other c ≡ ok p
    → Built other c p
unfolding conversion_postings
conversion_postings-Built other c {p} h = elim (Bytes-discrete c.from c.to) [
  | yes same ↦ absurd (err-ne-ok (rw (if_pos (Bytes-discrete c.from c.to) same) at h))
  | no distinct ↦
      let ((out, exact), received, h1) =
        >>=-eq-ok (receives other c) _ (rw (if_neg (Bytes-discrete c.from c.to) distinct) at h) in
      elim (Bool-cases (out == 0)) [
        | inl nothing ↦ absurd (err-ne-ok (rw nothing at h1))
        | inr something ↦ record {
          out = out;
          exact = exact;
          distinct = distinct;
          received = received;
          something = something;
          postings = sym (ok-injective (rw something at h1));
        }
      ]
]

sum-two_postings :
    (c : Conversion) (amount out : ℕ)
    → c.from ≢ c.to
    → c.amount ≡ some (pos amount)
    → sum_sides c.from c.to (two_postings c out) (pos 0, pos 0) ≡ ok (pos amount, pos out)
unfolding sum_sides
sum-two_postings c amount out distinct given =
    ground (arith, zero-+ℤ (pos amount), zero-+ℤ (pos out))

-- What arrives depends on the assets, the amount and the rate alone.
receives-claimed :
    (other : Bytes → Option Rat) (c : Conversion) (amount : ℤ)
    → c.amount ≡ some amount
    → receives other (claimed c.from c.to amount c.rate) ≡ receives other c
unfolding receives
receives-claimed other c amount given = rw given refl

drift_none : (tolerance : ℤ) (n : ℕ) → check_drift tolerance (pos n) n ≡ ok tt
unfolding ◌-ℤ◌
drift_none tolerance n = ground arith

-- A transaction with the postings and the metadata that a conversion builds passes its check, at
-- whatever tolerance and beside whatever else the metadata says.
pub check-conversion :
    (other : Bytes → Option Rat) (c : Conversion) (into : Metadata) (tolerance : ℤ)
    (t : Transaction) {p : Postings}
    → conversion_postings other c ≡ ok p
    → t.postings ≡ p
    → t.metadata ≡ conversion_metadata c into
    → check other tolerance t ≡ ok tt
unfolding check
check-conversion other c into tolerance t {p} built has_postings has_metadata =
    let b = conversion_postings-Built other c built in
    let r = receives-Received other c b.received in
    let given = r.given in
    let summed =
      ap (λ q. sum_sides c.from c.to q (pos 0, pos 0)) (has_postings ∙ b.postings)
      ∙ sum-two_postings c r.amount b.out b.distinct given in
    let again = receives-claimed other c (pos r.amount) given ∙ b.received in
    rw
      (
        has_metadata,
        stated_rate c into,
        stated_from c into,
        stated_to c into,
        scale-not_blank c.from r.scaled_from,
        scale-not_blank c.to r.scaled_to,
        summed,
      )
      (passes r.amount b.out b.exact r.positive b.something again)
  where
    passes :
        (amount out : ℕ) (exact : Bool)
        → 0 < amount
        → (out == 0) ≡ false
        → receives other (claimed c.from c.to (pos amount) c.rate) ≡ ok (out, exact)
        → check_sums other t.id c.from c.to c.rate tolerance (pos amount, pos out) ≡ ok tt
    passes amount out exact positive something again =
        let nonzero : (amount == 0) ≡ false = ground arith in
        rw (nonzero, something, again) (drift_none tolerance out)

-- What postings move of an asset: the sum of the amounts of those that are of it.
abbrev pub amount_in : Asset → Posting → ℤ
amount_in a p = elim p.amount [ none ↦ pos 0 | some n ↦ ite (Bytes-discrete p.asset a) n (pos 0) ]

abbrev pub moved_in : Asset → Postings → ℤ
moved_in a [] = pos 0
moved_in a (p ∷ ps) = amount_in a p +ℤ moved_in a ps

-- A transaction whose postings move what its rate says: what it bought is within the tolerance of
-- what the rate makes of what it sold.
pub record IsHonest (other : Bytes → Option Rat) (tolerance : ℤ) (p : Postings) (from to : Asset)
    (rate : Bytes) : Type 0 where
  pub want : ℕ
  pub exact : Bool
  pub distinct : from ≢ to
  pub received : Received other (claimed from to (moved_in from p) rate) want exact
  pub near : magnitude (moved_in to p -ℤ pos want) ≤ magnitude tolerance

-- The loop of Check adds to its sums what the postings move, of the second asset only if it is
-- another one than the first.
module _ (from to : Asset) where
  step_sold :
      (p : Posting) (sold bought : ℤ) {sums : ℤ × ℤ}
      → sum_step from to p (sold, bought) ≡ ok sums
      → sums.0 ≡ sold +ℤ amount_in from p
  step_sold p sold bought h = elim (Option-cases p.amount) [
    | inl absent ↦ ground (arith, absent, +ℤ-zero sold)
    | inr (n, given) ↦ ground (arith, given, +ℤ-zero sold)
  ]

  step_bought :
      (p : Posting) (sold bought : ℤ) {sums : ℤ × ℤ}
      → from ≢ to
      → sum_step from to p (sold, bought) ≡ ok sums
      → sums.1 ≡ bought +ℤ amount_in to p
  step_bought p sold bought distinct h = elim (Option-cases p.amount) [
    | inl absent ↦ ground (arith, absent, +ℤ-zero bought)
    | inr (n, given) ↦ ground (arith, given, +ℤ-zero bought)
  ]

  step_same :
      (p : Posting) (sold bought : ℤ) {sums : ℤ × ℤ}
      → from ≡ to
      → sum_step from to p (sold, bought) ≡ ok sums
      → sums.1 ≡ bought
  step_same p sold bought same h = elim (Option-cases p.amount) [
    | inl absent ↦ ground (arith, absent, same)
    | inr (n, given) ↦ ground (arith, given, same)
  ]

  sum_sides-next :
      (p : Posting) (ps : Postings) (sold bought : ℤ) {sums : ℤ × ℤ}
      → sum_sides from to (p ∷ ps) (sold, bought) ≡ ok sums
      → (next : ℤ × ℤ) × (sum_step from to p (sold, bought) ≡ ok next)
        × (sum_sides from to ps next ≡ ok sums)
  unfolding sum_sides
  sum_sides-next p ps sold bought h = >>=-eq-ok (sum_step from to p (sold, bought)) _ h

  sum_sides-nil :
      (sold bought : ℤ) {sums : ℤ × ℤ}
      → sum_sides from to [] (sold, bought) ≡ ok sums
      → sums ≡ (sold, bought)
  unfolding sum_sides
  sum_sides-nil sold bought h = sym (ok-injective h)

  sum_sides-sold :
      (ps : Postings) (sold bought : ℤ) {sums : ℤ × ℤ}
      → sum_sides from to ps (sold, bought) ≡ ok sums
      → sums.0 ≡ sold +ℤ moved_in from ps
  sum_sides-sold [] sold bought h = ap (λ z. z.0) (sum_sides-nil sold bought h) ∙ sym (+ℤ-zero sold)
  sum_sides-sold (p ∷ ps) sold bought h =
      let (next, step, rest) = sum_sides-next p ps sold bought h in
      sum_sides-sold ps next.0 next.1 rest ∙ rw (step_sold p sold bought step) (omega int_laws)

  sum_sides-bought :
      (ps : Postings) (sold bought : ℤ) {sums : ℤ × ℤ}
      → from ≢ to
      → sum_sides from to ps (sold, bought) ≡ ok sums
      → sums.1 ≡ bought +ℤ moved_in to ps
  sum_sides-bought [] sold bought distinct h =
      ap (λ z. z.1) (sum_sides-nil sold bought h) ∙ sym (+ℤ-zero bought)
  sum_sides-bought (p ∷ ps) sold bought distinct h =
      let (next, step, rest) = sum_sides-next p ps sold bought h in
      sum_sides-bought ps next.0 next.1 distinct rest
      ∙ rw (step_bought p sold bought distinct step) (omega int_laws)

  sum_sides-same :
      (ps : Postings) (sold bought : ℤ) {sums : ℤ × ℤ}
      → from ≡ to
      → sum_sides from to ps (sold, bought) ≡ ok sums
      → sums.1 ≡ bought
  sum_sides-same [] sold bought same h = ap (λ z. z.1) (sum_sides-nil sold bought h)
  sum_sides-same (p ∷ ps) sold bought same h =
      let (next, step, rest) = sum_sides-next p ps sold bought h in
      sum_sides-same ps next.0 next.1 same rest ∙ step_same p sold bought same step

module _ (other : Bytes → Option Rat) (tolerance : ℤ) (id : ℕ) (p : Postings) (from to : Asset)
    (rate : Bytes) where
  check_drift-eq-ok :
      (bought : ℤ) (want : ℕ)
      → check_drift tolerance bought want ≡ ok tt
      → magnitude (bought -ℤ pos want) ≤ magnitude tolerance
  check_drift-eq-ok bought want h = ground arith

  with_id-eq-ok : (r : Result FxError (ℕ × Bool)) {w : ℕ × Bool} → with_id id r ≡ ok w → r ≡ ok w
  with_id-eq-ok (ok w) h = h
  with_id-eq-ok (err error) h = cc

  nothing_bought : (sold bought : ℤ) → (is_zero sold || is_zero bought) ≡ false → bought ≡ pos 0 → ⊥
  nothing_bought sold bought something none_bought = ground arith

  check_sums-IsHonest :
      (sold bought : ℤ)
      → sum_sides from to p (pos 0, pos 0) ≡ ok (sold, bought)
      → check_sums other id from to rate tolerance (sold, bought) ≡ ok tt
      → IsHonest other tolerance p from to rate
  check_sums-IsHonest sold bought summed h = elim (Bool-cases (is_zero sold || is_zero bought)) [
    | inl nothing ↦ absurd (err-ne-ok (rw nothing at h))
    | inr something ↦
        let ((want, exact), priced, near) =
          >>=-eq-ok (with_id id (receives other (claimed from to sold rate))) _
            (rw something at h) in
        let distinct : from ≢ to = λ same.
          nothing_bought sold bought something
            (sum_sides-same from to p (pos 0) (pos 0) same summed) in
        let sold_is = sum_sides-sold from to p (pos 0) (pos 0) summed ∙ zero-+ℤ (moved_in from p) in
        let bought_is =
          sum_sides-bought from to p (pos 0) (pos 0) distinct summed ∙ zero-+ℤ (moved_in to p) in
        record {
          want = want;
          exact = exact;
          distinct = distinct;
          received =
              subst (λ n. Received other (claimed from to n rate) want exact) sold_is
                (receives-Received other (claimed from to sold rate) (with_id-eq-ok _ priced));
          near =
              subst (λ n. magnitude (n -ℤ pos want) ≤ magnitude tolerance) bought_is
                (check_drift-eq-ok bought want near);
        }
  ]

  check_claim-IsHonest :
      check_claim other id p from to tolerance (some rate) ≡ ok tt
      → IsHonest other tolerance p from to rate
  check_claim-IsHonest h = elim (Bool-cases (is_blank from || is_blank to)) [
    | inl blank ↦ absurd (err-ne-ok (rw blank at h))
    | inr named ↦
        let ((sold, bought), summed, h1) =
          >>=-eq-ok (sum_sides from to p (pos 0, pos 0)) _ (rw named at h) in
        check_sums-IsHonest sold bought summed h1
  ]

-- If a transaction states a rate and Check passes it, the postings that name the source asset sum
-- to an amount that is positive, those that name the target asset, which is another one, sum to
-- what that amount exactly comes to at the rate, without the fraction, give or take the tolerance.
pub check-IsHonest :
    (other : Bytes → Option Rat) (tolerance : ℤ) (t : Transaction) (rate : Bytes)
    → find_metadata rate_key t.metadata ≡ some rate
    → check other tolerance t ≡ ok tt
    → IsHonest other tolerance t.postings
        (or_blank (find_metadata from_key t.metadata))
        (or_blank (find_metadata to_key t.metadata))
        rate
unfolding check
check-IsHonest other tolerance t rate stated h =
    check_claim-IsHonest other tolerance t.id t.postings _ _ rate (rw (check, stated) at h)

module _ (other : Bytes → Option Rat) (tolerance : ℤ) where
  check_unstated :
      (t : Transaction) → find_metadata rate_key t.metadata ≡ none → check other tolerance t ≡ ok tt
  unfolding check
  check_unstated t unstated = rw (check, unstated)

  verify_unstated :
      (t : Transaction) (ts : List Transaction)
      → find_metadata rate_key t.metadata ≡ none
      → verify other tolerance (t ∷ ts) ≡ verify other tolerance ts
  unfolding verify
  verify_unstated t ts unstated = rw (verify, unstated)

  verify_stated :
      (t : Transaction) (ts : List Transaction) (rate : Bytes)
      → find_metadata rate_key t.metadata ≡ some rate
      → (verify other tolerance (t ∷ ts)).1
        ≡ found_error (check other tolerance t) (verify other tolerance ts).1
  unfolding verify
  verify_stated t ts rate stated = rw (verify, stated)

  found_error-none :
      (r : Result FxError (Unit {0})) (found : List FxError)
      → (found_error r found ≡ []) ↔ ((r ≡ ok tt) × (found ≡ []))
  found_error-none (ok tt) found = (λ h. (refl, h), λ h. h.1)
  found_error-none (err error) found = (λ h. absurd (cc), λ h. absurd (err-ne-ok h.0))

  -- Verify reports nothing exactly when every transaction passes Check.
  pub verify-All :
      (ts : List Transaction)
      → ((verify other tolerance ts).1 ≡ []) ↔ All (λ t. check other tolerance t ≡ ok tt) ts
  unfolding verify
  verify-All [] = (λ h. tt, λ h. refl)
  verify-All (t ∷ ts) = elim (Option-cases (find_metadata rate_key t.metadata)) [
    | inl unstated ↦ (
      λ h. (
        check_unstated t unstated,
        (verify-All ts).0 (ap (λ v. v.1) (sym (verify_unstated t ts unstated)) ∙ h),
      ),
      λ h. ap (λ v. v.1) (verify_unstated t ts unstated) ∙ (verify-All ts).1 h.1,
    )
    | inr (rate, stated) ↦
        let (found, clear) =
          found_error-none (check other tolerance t) (verify other tolerance ts).1 in
        (
          λ h.
              let (passed, rest) = found (sym (verify_stated t ts rate stated) ∙ h) in
              (passed, (verify-All ts).0 rest),
          λ h. verify_stated t ts rate stated ∙ clear (h.0, (verify-All ts).1 h.1),
        )
  ]
