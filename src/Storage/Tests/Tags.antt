-- ===== src/Storage/Tests/Tags.antt =====
-- Metadata on the deposit and on an account.
use giro.Prelude.{◌≡◌, refl, [], ◌∷◌, ok, codes, Bytes-discrete}
use giro.Ledger.Address.{is_valid_address}
use giro.Ledger.Metadata.{merge_metadata, remove_key, contains_metadata, has_key}
use giro.Ledger.Tests.{alice}
use giro.Storage.Schema.{Db, Transaction, AccountRow, Metadata}
use giro.Storage.Closure.Emptiness.{ClosedAreEmpty}
use giro.Storage.Bulk.Sound.{IsSound}
use giro.Storage.Metadata.{
  get_transaction, set_transaction_metadata, set_account_metadata, delete_account_metadata_key,
}
use giro.Storage.Metadata.Written.{IsRecorded}
use giro.Storage.Metadata.Steps.{
  Changes, set_on_account, payload_of, Changes-IsRecorded, Changes-IsSound,
}
use giro.Storage.Metadata.Merged.{Merged, set_transaction_metadata-IsMerged}
use giro.Storage.Tests.{genesis, logged_deposit}
use giro.Storage.Tests.Codec.{toy, toy-StoresMaps}
use giro.Storage.Tests.Batches.{genesis-IsSound}

abbrev tagged : Metadata
tagged = (codes "user", codes "7") ∷ []

set-deposit :
    (d : Db × Transaction) × (set_transaction_metadata toy 7999 1 tagged logged_deposit ≡ ok d)
unfolding set_transaction_metadata contains_metadata merge_metadata Bytes-discrete
set-deposit = (_, refl)

set_transaction_metadata-IsMerged_example :
    Merged toy 1 tagged logged_deposit set-deposit.0.0 set-deposit.0.1
    × (get_transaction toy 1 set-deposit.0.0 ≡ ok set-deposit.0.1)
    × (set_transaction_metadata toy 9000 1 tagged set-deposit.0.0 ≡ ok set-deposit.0)
set_transaction_metadata-IsMerged_example =
    set_transaction_metadata-IsMerged toy 7999 9000 1 tagged logged_deposit toy-StoresMaps
      set-deposit.1

-- an account that no payment has named
set-alice : (d : Db × AccountRow) × (set_account_metadata toy 7000 7999 alice tagged genesis ≡ ok d)
unfolding set_account_metadata is_valid_address Bytes-discrete
set-alice = (_, refl)

step-alice : Changes toy genesis set-alice.0.0
step-alice = set_on_account 7000 7999 alice tagged set-alice.1

Changes-IsRecorded_example : IsRecorded toy (payload_of toy step-alice) genesis set-alice.0.0
Changes-IsRecorded_example = Changes-IsRecorded toy step-alice

Changes-IsSound_example : IsSound toy set-alice.0.0 × ClosedAreEmpty set-alice.0.0
Changes-IsSound_example = Changes-IsSound toy step-alice genesis-IsSound tt

remove-alice :
    (d : Db × AccountRow) × (delete_account_metadata_key toy 8000 8001 alice
        (codes "user")
        set-alice.0.0
      ≡ ok d)
unfolding set-alice set_account_metadata is_valid_address delete_account_metadata_key has_key
    remove_key merge_metadata Bytes-discrete
remove-alice = (_, refl)
