-- ===== src/Ledger/Tests.antt =====
-- Runs of the domain package on concrete postings, and its theorems at them.
use giro.Prelude.{ℕ, ◌≡◌, refl, true, false, none, some, List, [], ◌∷◌, ok, pos, codes, All, ◌+ℤ◌}
use giro.Ledger.Address.{Address, is_valid_address, world_account}
use giro.Ledger.Asset.{Asset, is_valid_asset, scale, asset_code}
use giro.Ledger.Posting.{Posting, Postings, invalid_source_address, validate, reverse_postings}
use giro.Ledger.Posting.Validation.{Verdict, validate-Verdict}
use giro.Ledger.Posting.Reversal.{IsResolved}
use giro.Ledger.Volumes.{Key, Key-discrete, VolumeUpdate, volume_updates}
use giro.Ledger.Volumes.Order.{IsSorted, volume_updates-IsSorted}

abbrev pub alice : Address
alice = codes "users:alice"

abbrev pub bob : Address
bob = codes "users:bob"

abbrev pub usd : Asset
usd = codes "USD/2"

abbrev pub pay : Address → Address → ℕ → Posting
pay source destination amount = record {
  source = source;
  destination = destination;
  asset = usd;
  amount = some (pos amount);
  up_to = false;
}

abbrev pub key_of : Address → Key
key_of account = record { account = account; asset = usd }

-- A deposit to alice, part of which goes on to bob.
abbrev pub deposit : Postings
deposit = pay world_account alice 100 ∷ pay alice bob 30 ∷ []

abbrev pub deposit_updates : List VolumeUpdate
deposit_updates =
    record { key = key_of alice; input = pos 100; output = pos 30 }
    ∷ record { key = key_of bob; input = pos 30; output = pos 0 }
    ∷ record { key = key_of world_account; input = pos 0; output = pos 100 }
    ∷ []

addresses_run :
    (is_valid_address (codes "users:alice") ≡ true)
    × (is_valid_address (codes "a::b") ≡ false)
    × (is_valid_address (codes "world ") ≡ false)
    × (is_valid_address [] ≡ false)
unfolding is_valid_address
addresses_run = (refl, refl, refl, refl)

assets_run :
    (scale (codes "USD/2") ≡ some 2)
    × (scale (codes "POINTS") ≡ some 0)
    × (scale (codes "usd") ≡ none)
    × (scale (codes "USD/1234567") ≡ none)
    × (asset_code (codes "USD/2") ≡ codes "USD")
unfolding scale asset_code
assets_run = (refl, refl, refl, refl, refl)

pub validate-deposit : validate deposit ≡ none
unfolding validate is_valid_address is_valid_asset
validate-deposit = refl

validate_second : validate (pay alice bob 1 ∷ pay [] bob 1 ∷ []) ≡ some (1, invalid_source_address)
unfolding validate is_valid_address is_valid_asset
validate_second = refl

pub volume_updates-deposit : volume_updates deposit ≡ ok deposit_updates
unfolding volume_updates Key-discrete ◌+ℤ◌
volume_updates-deposit = refl

validate-Verdict_example : Verdict deposit (validate deposit)
validate-Verdict_example = validate-Verdict deposit

volume_updates-IsSorted_example : IsSorted deposit_updates
volume_updates-IsSorted_example = volume_updates-IsSorted deposit volume_updates-deposit

pub deposit-IsResolved : All IsResolved deposit
deposit-IsResolved = (((pos 100, refl), refl), (((pos 30, refl), refl), tt))

abbrev pub refund : Postings
refund = pay bob alice 30 ∷ pay alice world_account 100 ∷ []

reverse-deposit : reverse_postings deposit ≡ ok refund
unfolding reverse_postings
reverse-deposit = refl
