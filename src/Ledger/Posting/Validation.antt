-- ===== src/Ledger/Posting/Validation.antt =====
-- What `Postings.Validate` accepts and what it reports.
use giro.Prelude.{
  ◌≡◌, refl, ◌+◌, inl, inr, Option, none, some, List, [], ◌∷◌, arith, ok, Option-cases, ℤ, pos,
  negsuc, subst, ◌≤◌, suc, ℕ, Bool, true, false, All, take, drop, ◌≤ℤ◌, magnitude, ◌<◌, ◌^◌,
}
use giro.Ledger.Address.{is_valid_address}
use giro.Ledger.Asset.{is_valid_asset}
use giro.Ledger.Posting.{
  Posting, Postings, PostingFault, invalid_source_address, invalid_destination_address,
  invalid_asset, invalid_amount, amount_too_large, max_amount_bits, amount_fault, posting_fault,
  validate_from, validate,
}
use giro.Ledger.Volumes.{VolumeUpdate, counted, count_posting, count_from}

-- An amount within the size guard, or none on a posting that has a ceiling.
abbrev pub AmountIsValid : Option ℤ → Bool → Type 0
AmountIsValid none up_to = up_to ≡ true
AmountIsValid (some amount) up_to = (pos 0 ≤ℤ amount) × (magnitude amount < 2 ^ max_amount_bits)

-- A nil amount with no ceiling is no amount at all: it fails as a negative one does.
abbrev pub amount_or_minus_one : Option ℤ → Bool → ℤ
amount_or_minus_one none true = pos 0
amount_or_minus_one none false = negsuc 0
amount_or_minus_one (some amount) up_to = amount

pub record PostingIsValid (posting : Posting) : Type 0 where
  pub source : is_valid_address posting.source ≡ true
  pub destination : is_valid_address posting.destination ≡ true
  pub asset : is_valid_asset posting.asset ≡ true
  pub amount : AmountIsValid posting.amount posting.up_to

-- What each error says of the posting that it is reported for.
abbrev pub Faulty : PostingFault → Posting → Type 0
Faulty invalid_source_address posting = is_valid_address posting.source ≡ false
Faulty invalid_destination_address posting = is_valid_address posting.destination ≡ false
Faulty invalid_asset posting = is_valid_asset posting.asset ≡ false
Faulty invalid_amount posting = ¬ (pos 0 ≤ℤ amount_or_minus_one posting.amount posting.up_to)
Faulty amount_too_large posting =
    2 ^ max_amount_bits ≤ magnitude (amount_or_minus_one posting.amount posting.up_to)

amount_fault-AmountIsValid :
    (amount : Option ℤ) (up_to : Bool)
    → amount_fault amount up_to ≡ none
    → AmountIsValid amount up_to
unfolding amount_fault
amount_fault-AmountIsValid none true h = refl
amount_fault-AmountIsValid none false h = cc
amount_fault-AmountIsValid (some amount) up_to h = ground arith

amount_fault-none :
    (amount : Option ℤ) (up_to : Bool)
    → AmountIsValid amount up_to
    → amount_fault amount up_to ≡ none
unfolding amount_fault
amount_fault-none none true h = refl
amount_fault-none none false h = cc
amount_fault-none (some amount) up_to h = ground arith

module _ (posting : Posting) where
  posting_fault-PostingIsValid : posting_fault posting ≡ none → PostingIsValid posting
  unfolding posting_fault
  posting_fault-PostingIsValid h = record {
    source = ground arith;
    destination = ground arith;
    asset = ground arith;
    amount = amount_fault-AmountIsValid posting.amount posting.up_to (ground arith);
  }

  posting_fault-none : PostingIsValid posting → posting_fault posting ≡ none
  unfolding posting_fault
  posting_fault-none h = ground (arith, amount_fault-none posting.amount posting.up_to h.amount)

  amount_fault-Faulty :
      (f : PostingFault) → amount_fault posting.amount posting.up_to ≡ some f → Faulty f posting
  unfolding amount_fault
  amount_fault-Faulty invalid_amount h = ground arith
  amount_fault-Faulty amount_too_large h = ground arith
  amount_fault-Faulty f h = ground arith

  posting_fault-Faulty : (f : PostingFault) → posting_fault posting ≡ some f → Faulty f posting
  unfolding posting_fault
  posting_fault-Faulty invalid_amount h = ground (arith, amount_fault-Faulty invalid_amount)
  posting_fault-Faulty amount_too_large h = ground (arith, amount_fault-Faulty amount_too_large)
  posting_fault-Faulty f h = ground (arith, amount_fault-Faulty f)

-- `Postings.Validate` accepted the list: every posting is valid. It reported (i, fault): the
-- postings before i are valid, and posting i is not, for the reason that `fault` names.
abbrev pub Verdict : Postings → Option (ℕ × PostingFault) → Type 0
Verdict p none = All PostingIsValid p
Verdict p (some (i, fault)) =
    All PostingIsValid (take i p)
    × ((posting : Posting) × (rest : Postings) × (drop i p ≡ posting ∷ rest)
        × Faulty fault posting
        × (¬ PostingIsValid posting))

-- The verdict of the loop at index j, on the postings from j on.
abbrev VerdictFrom : ℕ → Postings → Option (ℕ × PostingFault) → Type 0
VerdictFrom j p none = All PostingIsValid p
VerdictFrom j p (some (i, fault)) = (d : ℕ) × (i ≡ j + d) × Verdict p (some (d, fault))

VerdictFrom-cons :
    (j : ℕ) (posting : Posting) (p : Postings) (o : Option (ℕ × PostingFault))
    → PostingIsValid posting
    → VerdictFrom (suc j) p o
    → VerdictFrom j (posting ∷ p) o
VerdictFrom-cons j posting p none v h = (v, h)
VerdictFrom-cons j posting p (some (i, fault)) v (d, e, (before, at)) =
    (suc d, omega arith, ((v, before), at))

validate_from-Verdict : (j : ℕ) (p : Postings) → VerdictFrom j p (validate_from j p)
unfolding validate_from
validate_from-Verdict j [] = tt
validate_from-Verdict j (posting ∷ p) = elim (Option-cases (posting_fault posting)) [
  | inl fine ↦
      rw (fine, validate_from)
        (VerdictFrom-cons j posting p (validate_from (suc j) p)
          (posting_fault-PostingIsValid posting fine) (validate_from-Verdict (suc j) p))
  | inr (fault, found) ↦
      rw (found, validate_from)
        (
          0,
          omega arith,
          (
            tt,
            (
              posting,
              p,
              refl,
              posting_fault-Faulty posting fault found,
              λ v. cc (posting_fault-none posting v),
            ),
          ),
        )
]

Verdict-from_start :
    (p : Postings) (o : Option (ℕ × PostingFault)) → VerdictFrom 0 p o → Verdict p o
Verdict-from_start p none h = h
Verdict-from_start p (some (i, fault)) (d, e, h) =
    subst (λ n. Verdict p (some (n, fault))) (omega arith) h

-- Validate accepts exactly the lists in which every posting is valid, and otherwise names the first
-- posting that is not, by its index, with a fault that it has.
pub validate-Verdict : (p : Postings) → Verdict p (validate p)
unfolding validate
validate-Verdict p = Verdict-from_start p (validate_from 0 p) (validate_from-Verdict 0 p)

pub counted_valid :
    (posting : Posting)
    → PostingIsValid posting
    → (amount : ℤ) × (counted posting.amount posting.up_to ≡ some amount)
counted_valid posting v = go posting.amount posting.up_to v.amount
  where
    go :
        (amount : Option ℤ) (up_to : Bool)
        → AmountIsValid amount up_to
        → (x : ℤ) × (counted amount up_to ≡ some x)
    go none true h = (pos 0, refl)
    go none false h = cc
    go (some amount) up_to h = (amount, refl)

count_from_total :
    (i : ℕ) (p : Postings) (us : List VolumeUpdate)
    → All PostingIsValid p
    → (vs : List VolumeUpdate) × (count_from i p us ≡ ok vs)
unfolding count_from
count_from_total i [] us h = (us, refl)
count_from_total i (posting ∷ p) us (v, h) =
    let (amount, found) = counted_valid posting v in
    rw (found, count_from) (count_from_total (suc i) p (count_posting posting amount us) h)
