-- ===== src/Fx.antt =====
-- fx/conversion.go and fx/verify.go: one asset exchanged for another at a rate that the transaction
-- records, and the check of a transaction against the rate that it records.
pub mod Receives
pub mod Checked
pub mod Tests
use giro.Prelude.{
  ℕ, zero, suc, ◌+◌, ◌-◌, ◌*◌, ◌/◌, ◌%◌, ◌^◌, Bool, true, false, not, ◌&&◌, ◌||◌, Option, none,
  some, List, [], ◌∷◌, ◌++◌, if◌then◌else◌, ite, ◌==◌, leb, ltb, all, any, Result, ok, err, ◌>>=◌,
  Bytes, Bytes-discrete, codes, ℤ, pos, negsuc, ◌+ℤ◌, ◌-ℤ◌, magnitude,
}
use giro.Ledger.Address.{Address}
use giro.Ledger.Asset.{Asset, scale, is_digit}
use giro.Ledger.Metadata.{put_metadata, find_metadata}
use giro.Ledger.Posting.{Posting, Postings}
use giro.Storage.Schema.{Transaction, Metadata}

-- `ConversionRateKey`, `ConversionFromKey`, `ConversionToKey`
abbrev pub rate_key : Bytes
rate_key = codes "giro/conversion.rate"

abbrev pub from_key : Bytes
from_key = codes "giro/conversion.from"

abbrev pub to_key : Bytes
to_key = codes "giro/conversion.to"

-- `ErrInvalidRate`, `ErrSameAsset`, `ErrConversionRounding`, those of the ledger, and an error with
-- the transaction's id in front; to add an amount that is nil is a panic
pub data FxError : Type 0 where
  invalid_rate same_asset conversion_rounding : FxError
  invalid_asset : Asset → FxError
  invalid_amount nil_dereference : FxError
  of_transaction : ℕ → FxError → FxError

-- A `*big.Rat`, not reduced: the denominator is one more than `below`.
pub record Rat : Type 0 where
  pub num : ℤ
  pub below : ℕ

abbrev pub den : Rat → ℕ
den r = suc r.below

-- a rate is above zero
pub record Rate : Type 0 where
  pub above : ℕ
  pub over : ℕ

-- `Conversion`; the amount is none where the pointer is nil
pub record Conversion : Type 0 where
  pub from : Asset
  pub seller : Address
  pub sold_to : Address
  pub to : Asset
  pub bought_from : Address
  pub buyer : Address
  pub amount : Option ℤ
  pub rate : Bytes

-- The digits of a plain decimal: the value without its point, how many digits there are, and how
-- many of them stand behind the point.
pub record Decimal : Type 0 where
  pub value : ℕ
  pub digits : ℕ
  pub behind : Option ℕ

abbrev pub count_behind : Option ℕ → Option ℕ
count_behind none = none
count_behind (some n) = some (suc n)

abbrev pub is_none {ℓ} : {A : Type ℓ} → Option A → Bool
is_none none = true
is_none (some a) = false

abbrev pub add_digit : ℕ → Decimal → Decimal
add_digit c d = record {
  value = d.value * 10 + (c - b'0');
  digits = suc d.digits;
  behind = count_behind d.behind;
}

-- one byte of a plain decimal: a digit, or the first point
abbrev pub decimal_step : Decimal → ℕ → Option Decimal
decimal_step d c =
    if is_digit c
    then some (add_digit c d)
    else if c == b'.' && is_none d.behind
    then some (record d { behind = some 0 })
    else none

unfoldable pub decimal_from : Decimal → Bytes → Option Decimal
decimal_from d [] = if d.digits == 0 then none else some d
decimal_from d (c ∷ cs) = elim (decimal_step d c) [ none ↦ none | some d' ↦ decimal_from d' cs ]

abbrev pub places : Option ℕ → ℕ
places none = 0
places (some n) = n

abbrev pub signed : Bool → ℕ → ℤ
signed negative n = if negative && not (n == 0) then negsuc (n - 1) else pos n

abbrev pub rat_of : Bool → Decimal → Rat
rat_of negative d = record { num = signed negative d.value; below = 10 ^ places d.behind - 1 }

abbrev pub no_digits : Decimal
no_digits = record { value = 0; digits = 0; behind = none }

abbrev pub signed_decimal : Bool → Bytes → Option Rat
signed_decimal negative text = elim (decimal_from no_digits text) [
  | none ↦ none
  | some d ↦ some (rat_of negative d)
]

unfoldable pub plain_decimal : Bytes → Option Rat
unfolding decimal_from
plain_decimal [] = none
plain_decimal (c ∷ cs) =
    if c == b'-'
    then signed_decimal true cs
    else if c == b'+'
    then signed_decimal false cs
    else signed_decimal false (c ∷ cs)

-- `strings.ContainsAny(s, "eE/ ")`
abbrev pub is_refused : ℕ → Bool
is_refused c = c == b'e' || c == b'E' || c == b'/' || c == b' '

abbrev pub positive_rate : Rat → Result FxError Rate
positive_rate r = elim r.num [
  | pos zero ↦ err invalid_rate
  | pos (suc n) ↦ ok (record { above = suc n; over = den r })
  | negsuc n ↦ err invalid_rate
]

abbrev pub scale_or_error : Asset → Result FxError ℕ
scale_or_error a = elim (scale a) [ none ↦ err (invalid_asset a) | some n ↦ ok n ]

-- `c.Amount == nil || c.Amount.Sign() <= 0`
abbrev pub positive_amount : Option ℤ → Result FxError ℕ
positive_amount none = err invalid_amount
positive_amount (some (pos zero)) = err invalid_amount
positive_amount (some (pos (suc n))) = ok (suc n)
positive_amount (some (negsuc n)) = err invalid_amount

-- What arrives, as an exact fraction: the scales' difference is a factor of the one side or of the
-- other.
abbrev pub exact_num : ℕ → Rate → ℕ → ℕ → ℕ
exact_num amount r from_scale to_scale = amount * r.above * 10 ^ (to_scale - from_scale)

abbrev pub exact_den : Rate → ℕ → ℕ → ℕ
exact_den r from_scale to_scale = r.over * 10 ^ (from_scale - to_scale)

abbrev pub two_postings : Conversion → ℕ → Postings
two_postings c received =
    record {
      source = c.seller;
      destination = c.sold_to;
      asset = c.from;
      amount = c.amount;
      up_to = false;
    }
    ∷ record {
      source = c.bought_from;
      destination = c.buyer;
      asset = c.to;
      amount = some (pos received);
      up_to = false;
    }
    ∷ []

-- one round of the loop in `Check`
abbrev pub sum_step : Asset → Asset → Posting → ℤ × ℤ → Result FxError (ℤ × ℤ)
sum_step from to p (sold, bought) =
    ite (Bytes-discrete p.asset from)
      (elim p.amount [ none ↦ err nil_dereference | some n ↦ ok (sold +ℤ n, bought) ])
      (ite (Bytes-discrete p.asset to)
        (elim p.amount [ none ↦ err nil_dereference | some n ↦ ok (sold, bought +ℤ n) ])
        (ok (sold, bought)))

-- the two sums of `Check`
unfoldable pub sum_sides : Asset → Asset → Postings → ℤ × ℤ → Result FxError (ℤ × ℤ)
sum_sides from to [] sums = ok sums
sum_sides from to (p ∷ ps) sums = sum_step from to p sums >>= λ next. sum_sides from to ps next

abbrev pub is_zero : ℤ → Bool
is_zero (pos n) = n == 0
is_zero (negsuc n) = false

abbrev pub with_id : ℕ → Result FxError (ℕ × Bool) → Result FxError (ℕ × Bool)
with_id id (ok r) = ok r
with_id id (err error) = err (of_transaction id error)

-- the conversion that a transaction claims to be
abbrev pub claimed : Asset → Asset → ℤ → Bytes → Conversion
claimed from to sold rate = record {
  from = from;
  seller = [];
  sold_to = [];
  to = to;
  bought_from = [];
  buyer = [];
  amount = some sold;
  rate = rate;
}

-- the amounts of a transaction against its rate
abbrev pub check_drift : ℤ → ℤ → ℕ → Result FxError (Unit {0})
check_drift tolerance bought want =
    if ltb (magnitude tolerance) (magnitude (bought -ℤ pos want))
    then err conversion_rounding
    else ok tt

abbrev pub is_blank : Bytes → Bool
is_blank [] = true
is_blank (c ∷ cs) = false

abbrev pub or_blank : Option Bytes → Bytes
or_blank none = []
or_blank (some s) = s

-- the loop of `Verify`: how many were checked, and what `Check` found
abbrev pub found_error : Result FxError (Unit {0}) → List FxError → List FxError
found_error (ok _) found = found
found_error (err error) found = error ∷ found

-- `other` is what `big.Rat.SetString` makes of a text that is no plain decimal: it also reads base
-- prefixes, digit separators and binary exponents.
module _ (other : Bytes → Option Rat) where
  -- `big.Rat.SetString` on a text without exponent, fraction bar and blank
  abbrev pub set_string : Bytes → Option Rat
  set_string s = elim (plain_decimal s) [ none ↦ other s | some r ↦ some r ]

  -- `parseRate`
  unfoldable pub parse_rate : Bytes → Result FxError Rate
  unfolding plain_decimal
  parse_rate [] = err invalid_rate
  parse_rate (c ∷ cs) =
      if any is_refused (c ∷ cs)
      then err invalid_rate
      else elim (set_string (c ∷ cs)) [ none ↦ err invalid_rate | some r ↦ positive_rate r ]

  -- `Conversion.Receives`: what arrives, and whether the rate divides exactly
  unfoldable pub receives : Conversion → Result FxError (ℕ × Bool)
  unfolding parse_rate scale
  receives c = do
    r ← parse_rate c.rate
    from_scale ← scale_or_error c.from
    to_scale ← scale_or_error c.to
    amount ← positive_amount c.amount
    let num = exact_num amount r from_scale to_scale
    let den = exact_den r from_scale to_scale
    ok (num / den, num % den == 0)

  -- `Conversion.Postings`
  unfoldable pub conversion_postings : Conversion → Result FxError Postings
  unfolding receives
  conversion_postings c = ite (Bytes-discrete c.from c.to) (err same_asset) (do
    received ← receives c
    if received.0 == 0 then err invalid_amount else ok (two_postings c received.0))

  abbrev pub check_sums : ℕ → Asset → Asset → Bytes → ℤ → ℤ × ℤ → Result FxError (Unit {0})
  check_sums id from to rate tolerance (sold, bought) =
      if is_zero sold || is_zero bought then err conversion_rounding else (do
        want ← with_id id (receives (claimed from to sold rate))
        check_drift tolerance bought want.0)

  abbrev pub check_claim :
      ℕ → Postings → Asset → Asset → ℤ → Option Bytes → Result FxError (Unit {0})
  check_claim id p from to tolerance none = ok tt
  check_claim id p from to tolerance (some rate) =
      if is_blank from || is_blank to
      then err conversion_rounding
      else (do sums ← sum_sides from to p (pos 0, pos 0); check_sums id from to rate tolerance sums)

  -- `Check`
  unfoldable pub check : ℤ → Transaction → Result FxError (Unit {0})
  unfolding receives sum_sides
  check tolerance t =
      check_claim t.id t.postings (or_blank (find_metadata from_key t.metadata))
        (or_blank (find_metadata to_key t.metadata)) tolerance (find_metadata rate_key t.metadata)

  -- `Verify`, over the table in the order of the ids; rows that state no rate are not selected
  unfoldable pub verify : ℤ → List Transaction → ℕ × List FxError
  unfolding check
  verify tolerance [] = (0, [])
  verify tolerance (t ∷ ts) =
      let rest = verify tolerance ts in
      if is_none (find_metadata rate_key t.metadata)
      then rest
      else (suc rest.0, found_error (check tolerance t) rest.1)

-- `Conversion.Metadata`
unfoldable pub conversion_metadata : Conversion → Metadata → Metadata
unfolding put_metadata
conversion_metadata c into =
    put_metadata to_key c.to (put_metadata from_key c.from (put_metadata rate_key c.rate into))
