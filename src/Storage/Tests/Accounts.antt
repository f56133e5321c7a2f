-- ===== src/Storage/Tests/Accounts.antt =====
-- Permissions, closures and reversals, after the deposit.
use giro.Storage.Tests.Codec.{toy}
use giro.Prelude.{
  ◌≡◌, refl, true, false, none, some, [], ◌∷◌, ok, codes, Bytes-discrete, ◌+ℤ◌, ◌-ℤ◌, pos, All,
}
use giro.Ledger.Volumes.{Key-discrete}
use giro.Ledger.Tests.{alice, bob, usd, key_of, deposit}
use giro.Storage.Schema.{Db, AccountRow, VolumeRow, Transaction}
use giro.Storage.Assets.{contains}
use giro.Ledger.Address.{Address, is_valid_address}
use giro.Ledger.Tests.{refund}
use giro.Ledger.Posting.{validate}
use giro.Ledger.Asset.{is_valid_asset}
use giro.Ledger.Tests.{deposit-IsResolved}
use giro.Ledger.Volumes.Totals.{flow, inflow, outflow}
use giro.Storage.Locking.{find_row}
use giro.Storage.Policy.{set_allow_negative, set_allow_positive, allows_negative}
use giro.Storage.Policy.Permissions.{set_allow_positive-world, world_key}
use giro.Storage.Closure.{close_account, reopen_account}
use giro.Storage.Commit.{apply_transaction}
use giro.Storage.Log.{Allocation}
use giro.Storage.Closure.Commits.{IsEmptyOrRecent, apply_transaction-close_rows}
use giro.Storage.Commit.Flow.{stored_input, stored_output}
use giro.Storage.Revert.{Reversal, find_transaction, revert_once}
use giro.Storage.Revert.Undoes.{revert_once-undoes}
use giro.Storage.Conservation.{verify_conservation}
use giro.Storage.Tests.{genesis, noon, plain, deposited, after_deposit, attempt_on, logged_deposit}

-- alice is permitted a balance below nothing
policy_of_alice : (after : Db) × (set_allow_negative (key_of alice) true after_deposit ≡ ok after)
unfolding set_allow_negative is_valid_address is_valid_asset Key-discrete Bytes-discrete
policy_of_alice = (_, refl)

usd-is_valid_asset : is_valid_asset usd ≡ true
unfolding is_valid_asset
usd-is_valid_asset = refl

usd_at_genesis : contains usd genesis.assets ≡ true
unfolding Bytes-discrete
usd_at_genesis = refl

no_row_of_world : find_row (world_key usd) genesis.volumes ≡ none
unfolding find_row
no_row_of_world = refl

set_allow_positive-world_example :
    (after : Db) × (set_allow_positive (world_key usd) true genesis ≡ ok after)
    × (allows_negative (world_key usd) genesis ≡ true)
    × (allows_negative (world_key usd) after ≡ false)
set_allow_positive-world_example =
    set_allow_positive-world usd genesis usd-is_valid_asset usd_at_genesis no_row_of_world

-- an account that nothing has touched is closed, and then opened
abbrev carol : Address
carol = codes "users:carol"

close-carol : (after : Db) × (close_account 7000 carol after_deposit ≡ ok after)
unfolding close_account is_valid_address Bytes-discrete
close-carol = (_, refl)

abbrev closed_carol : AccountRow
closed_carol = record {
  address = carol;
  first_usage = 1;
  insertion_date = 1;
  updated_at = 1;
  metadata = [];
  closed = true;
}

abbrev with_carol : Db
with_carol = record after_deposit { accounts = closed_carol ∷ [] }

reopen-carol : (after : Db) × (reopen_account 7000 carol with_carol ≡ ok after)
unfolding reopen_account is_valid_address Bytes-discrete
reopen-carol = (_, refl)

-- before the deposit carol is closed, and what she had is paid out
abbrev row_of_carol : VolumeRow
row_of_carol = record {
  key = key_of carol;
  volumes = record { input = pos 5; output = pos 5 };
  allow_negative = false;
  allow_positive = true;
}

abbrev carol_closed : Db
carol_closed = record genesis { accounts = closed_carol ∷ []; volumes = row_of_carol ∷ [] }

apply_beside_carol :
    (d : Db × Transaction × Allocation) × (apply_transaction noon plain deposit carol_closed ≡ ok d)
unfolding apply_transaction Key-discrete Bytes-discrete ◌+ℤ◌ ◌-ℤ◌
apply_beside_carol = (_, refl)

-- alice is closed while the deposit comes in
apply_transaction-close_rows_example :
    All
      (IsEmptyOrRecent 7000 (alice ∷ []) apply_beside_carol.0.0.accounts)
      apply_beside_carol.0.0.volumes
apply_transaction-close_rows_example =
    apply_transaction-close_rows noon plain deposit carol_closed ((λ shut. refl), tt)
      apply_beside_carol.1 7000 (alice ∷ [])

-- the deposit is taken back
revert-deposit :
    (d : Db × Reversal) × (revert_once toy (attempt_on logged_deposit none) 1 false ≡ ok d)
unfolding revert_once Key-discrete Bytes-discrete ◌+ℤ◌ ◌-ℤ◌
revert-deposit = (_, refl)

found_deposit : find_transaction 1 logged_deposit.transactions ≡ some deposited
unfolding find_transaction
found_deposit = refl

revert_once-undoes_example :
    (stored_input (key_of bob) revert-deposit.0.0
      ≡ stored_input (key_of bob) logged_deposit +ℤ flow (outflow (key_of bob)) deposit)
    × (stored_output (key_of bob) revert-deposit.0.0
        ≡ stored_output (key_of bob) logged_deposit +ℤ flow (inflow (key_of bob)) deposit)
revert_once-undoes_example =
    revert_once-undoes toy (attempt_on logged_deposit none) 1 false (key_of bob) deposited
      found_deposit deposit-IsResolved revert-deposit.1

validate-refund : validate refund ≡ none
unfolding validate is_valid_address is_valid_asset
validate-refund = refl

verify_conservation-after_deposit : (verify_conservation after_deposit).1 ≡ []
unfolding verify_conservation Bytes-discrete ◌+ℤ◌ ◌-ℤ◌
verify_conservation-after_deposit = refl
