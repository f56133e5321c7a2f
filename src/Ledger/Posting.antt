-- ===== src/Ledger/Posting.antt =====
-- ledger/posting.go: postings, their validation and their reversal.
pub mod Validation
pub mod Reversal
use giro.Prelude.{
  ℕ, zero, suc, ◌+◌, ◌^◌, ◌≡◌, Bool, true, false, not, ◌&&◌, ◌||◌, Option, none, some, List, [],
  ◌∷◌, ◌++◌, leb, if◌then◌else◌, any, Result, ok, err, ◌>>=◌, ℤ, is_negative, magnitude,
}
use giro.Ledger.Address.{Address, is_valid_address}
use giro.Ledger.Asset.{Asset, is_valid_asset}

-- `amount` is none where the source's pointer is nil.
pub record Posting : Type 0 where
  pub source : Address
  pub destination : Address
  pub asset : Asset
  pub amount : Option ℤ
  pub up_to : Bool

abbrev pub Postings : Type 0
Postings = List Posting

-- ErrInvalidSourceAddress, ErrInvalidDestinationAddress, ErrInvalidAsset, ErrInvalidAmount,
-- ErrAmountTooLarge
pub data PostingFault : Type 0 where
  invalid_source_address invalid_destination_address invalid_asset : PostingFault
  invalid_amount amount_too_large : PostingFault

abbrev pub max_amount_bits : ℕ
max_amount_bits = 333

-- `x.BitLen() > w`: the magnitude needs more than `w` bits
abbrev pub exceeds_bits : ℤ → ℕ → Bool
exceeds_bits x w = leb (2 ^ w) (magnitude x)

-- `Postings.HasUpTo`
unfoldable pub has_up_to : Postings → Bool
has_up_to p = any (λ posting. posting.up_to) p

-- the three tests on the amount in the body of `Validate`
unfoldable pub amount_fault : Option ℤ → Bool → Option PostingFault
amount_fault none up_to = if up_to then none else some invalid_amount
amount_fault (some amount) up_to =
    if is_negative amount
    then some invalid_amount
    else if exceeds_bits amount max_amount_bits
    then some amount_too_large
    else none

-- one round of the loop in `Validate`
unfoldable pub posting_fault : Posting → Option PostingFault
unfolding amount_fault
posting_fault posting =
    if not (is_valid_address posting.source)
    then some invalid_source_address
    else if not (is_valid_address posting.destination)
    then some invalid_destination_address
    else if not (is_valid_asset posting.asset)
    then some invalid_asset
    else amount_fault posting.amount posting.up_to

unfoldable pub validate_from : ℕ → Postings → Option (ℕ × PostingFault)
validate_from i [] = none
validate_from i (posting ∷ p) = elim (posting_fault posting) [
  | some fault ↦ some (i, fault)
  | none ↦ validate_from (suc i) p
]

-- `Postings.Validate`: none is the source's (-1, nil)
unfoldable pub validate : Postings → Option (ℕ × PostingFault)
unfolding validate_from posting_fault
validate p = validate_from 0 p

-- ErrNilAmount, with the index of the posting
pub data NilAmount : Type 0 where
  nil_amount : ℕ → NilAmount

-- the posting that `Reverse` writes: both sides swapped, the ceiling dropped
abbrev pub swap_sides : Posting → ℤ → Posting
swap_sides posting amount = record {
  source = posting.destination;
  destination = posting.source;
  asset = posting.asset;
  amount = some amount;
  up_to = false;
}

-- the loop of `Reverse`, which fills `rev` from its end: `rev` is what is filled so far
unfoldable pub reverse_from : ℕ → Postings → Postings → Result NilAmount Postings
reverse_from i [] rev = ok rev
reverse_from i (posting ∷ p) rev = elim posting.amount [
  | none ↦ err (nil_amount i)
  | some amount ↦ reverse_from (suc i) p (swap_sides posting amount ∷ rev)
]

-- `Postings.Reverse`
unfoldable pub reverse_postings : Postings → Result NilAmount Postings
unfolding reverse_from
reverse_postings p = reverse_from 0 p []
