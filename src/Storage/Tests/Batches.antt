-- ===== src/Storage/Tests/Batches.antt =====
-- Batches on a concrete ledger.
use giro.Prelude.{
  ◌≡◌, refl, none, List, [], ◌∷◌, ◌++◌, ok, ◌⊎◌, Bytes, Bytes-discrete, codes, ◌+ℤ◌, ◌-ℤ◌, ◌+◌, All,
  subst, length,
}
use giro.Ledger.Volumes.{Key-discrete}
use giro.Ledger.Tests.{alice, bob, pay, deposit}
use giro.Ledger.Address.{is_valid_address}
use giro.Ledger.Asset.{is_valid_asset}
use giro.Ledger.Posting.{validate}
use giro.Ledger.Posting.Validation.{PostingIsValid, Verdict, validate-Verdict}
use giro.Storage.Schema.{Db, Transaction}
use giro.Storage.Log.{find_key}
use giro.Storage.Commit.{CommitOptions}
use giro.Storage.Bulk.{BatchItem, tagged, commit_batch_once, batch_idempotency_hash, lock_batch}
use giro.Storage.Bulk.Entered.{Unwritten}
use giro.Storage.Bulk.Sound.{
  IsSound, Sequence, commit_batch_once-IsSound, commit_batch_once-Sequence,
}
use giro.Storage.Bulk.Keyed.{
  IsNew, AreSame, answer, commit_batch_once-writes, commit_batch_exactly_once,
  same_batch_twice-replays_both,
}
use giro.Storage.Tests.{
  genesis, attempt_on, keyed, genesis-IsConserved, genesis-IsChainedDb, deposit-PostingIsValid,
}
use giro.Storage.Tests.Codec.{toy, toy-KeepsRows}

abbrev funding : BatchItem
funding = record { postings = deposit; timestamp = 0; reference = []; metadata = [] }

abbrev refund : BatchItem
refund = record { postings = pay bob alice 10 ∷ []; timestamp = 0; reference = []; metadata = [] }

abbrev payday : List BatchItem
payday = funding ∷ refund ∷ []

abbrev first_key : CommitOptions
first_key = keyed (codes "k")

abbrev second_key : CommitOptions
second_key = keyed (codes "m")

batch-first :
    (d : Db × List Transaction) × (commit_batch_once toy
        (attempt_on genesis none)
        payday
        first_key
        (batch_idempotency_hash toy (codes "k") payday)
      ≡ ok (d.0, d.1))
unfolding commit_batch_once batch_idempotency_hash Key-discrete Bytes-discrete ◌+ℤ◌ ◌-ℤ◌
batch-first = ((_, _), refl)

abbrev hash_of : CommitOptions → Bytes
hash_of opts = batch_idempotency_hash toy opts.idempotency_key payday

pub genesis-IsSound : IsSound toy genesis
genesis-IsSound = record {
  conserved = genesis-IsConserved;
  within = tt;
  chained = genesis-IsChainedDb;
  history = λ side. tt;
}

commit_batch_once-IsSound_example : IsSound toy batch-first.0.0
commit_batch_once-IsSound_example =
    commit_batch_once-IsSound toy (attempt_on genesis none) payday first_key (hash_of first_key)
      genesis-IsSound batch-first.1

commit_batch_once-Sequence_example :
    (batch-first.0.0 ≡ genesis)
    ⊎ ((locked : Db) × (lock_batch payday genesis ≡ ok locked)
        × Sequence toy
            (attempt_on genesis none).moment
            (codes "k")
            (hash_of first_key)
            0
            payday
            locked
            batch-first.0.0)
commit_batch_once-Sequence_example =
    commit_batch_once-Sequence toy (attempt_on genesis none) payday first_key (hash_of first_key)
      batch-first.1

commit_batch_once-writes_example :
    Unwritten toy
      (attempt_on genesis none)
      payday
      first_key
      (hash_of first_key)
      batch-first.0.0
      batch-first.0.1
    ⊎ ((batch-first.0.0.transactions ≡ [] ++ batch-first.0.1)
        × (length batch-first.0.1 ≡ length payday))
commit_batch_once-writes_example =
    commit_batch_once-writes toy (attempt_on genesis none) payday first_key (hash_of first_key)
      batch-first.1

first_key-IsNew : IsNew (attempt_on genesis none) first_key
unfolding find_key
first_key-IsNew = record { keyed = refl; wet = refl; unseen = refl; unused = refl }

untagged-genesis : tagged (hash_of first_key) genesis.transactions ≡ []
unfolding tagged
untagged-genesis = refl

validate-refund : validate refund.postings ≡ none
unfolding validate is_valid_address is_valid_asset
validate-refund = refl

refund-PostingIsValid : All PostingIsValid refund.postings
refund-PostingIsValid =
    subst (Verdict refund.postings) validate-refund (validate-Verdict refund.postings)

batch-first-valid : All (λ t. All PostingIsValid t.postings) batch-first.0.1
unfolding batch-first
batch-first-valid = (deposit-PostingIsValid, (refund-PostingIsValid, tt))

commit_batch_exactly_once_example :
    (us : List Transaction) × (commit_batch_once toy
        (attempt_on batch-first.0.0 none)
        payday
        first_key
        (hash_of first_key)
      ≡ ok (batch-first.0.0, us))
    × AreSame us batch-first.0.1
    × (length batch-first.0.1 ≡ length payday)
commit_batch_exactly_once_example =
    commit_batch_exactly_once toy toy-KeepsRows (attempt_on genesis none)
      (attempt_on batch-first.0.0 none) funding (refund ∷ []) first_key (hash_of first_key)
      first_key-IsNew untagged-genesis batch-first.1 batch-first-valid refl

batch-second :
    (d : Db × List Transaction) × (commit_batch_once toy
        (attempt_on batch-first.0.0 none)
        payday
        second_key
        (hash_of second_key)
      ≡ ok (d.0, d.1))
unfolding commit_batch_once batch_idempotency_hash batch-first Key-discrete Bytes-discrete ◌+ℤ◌ ◌-ℤ◌
batch-second = ((_, _), refl)

second_key-IsNew : IsNew (attempt_on batch-first.0.0 none) second_key
unfolding find_key batch-first Bytes-discrete
second_key-IsNew = record { keyed = refl; wet = refl; unseen = refl; unused = refl }

same_batch_twice-replays_both_example :
    (commit_batch_once toy (attempt_on batch-second.0.0 none) payday first_key (hash_of first_key)
      ≡ answer toy batch-second.0.0 (batch-first.0.1 ++ batch-second.0.1))
    × (length (batch-first.0.1 ++ batch-second.0.1) ≡ length payday + length payday)
same_batch_twice-replays_both_example =
    same_batch_twice-replays_both toy (attempt_on genesis none) (attempt_on batch-first.0.0 none)
      (attempt_on batch-second.0.0 none) funding (refund ∷ []) first_key second_key first_key-IsNew
      untagged-genesis batch-first.1 second_key-IsNew refl batch-second.1 refl
