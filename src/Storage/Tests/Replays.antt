-- ===== src/Storage/Tests/Replays.antt =====
-- Idempotency keys, at the deposit and at requests that come after it.
use giro.Storage.Tests.Codec.{toy, toy-RoundTrips}
use giro.Prelude.{
  ◌≡◌, refl, true, false, none, some, [], ◌∷◌, ok, codes, Bytes-discrete, ◌+ℤ◌, ◌-ℤ◌,
}
use giro.Ledger.Volumes.{Key-discrete}
use giro.Ledger.Tests.{deposit}
use giro.Storage.Schema.{Db, Transaction, log_new_transaction}
use giro.Storage.Log.{Allocation}
use giro.Storage.Commit.{Attempt, apply_transaction, commit_once}
use giro.Storage.Schema.{Log}
use giro.Storage.Rows.{same_bytes}
use giro.Storage.Log.{find_key, find_by_idempotency_key}
use giro.Storage.Commit.Replay.{commit_exactly_once}
use giro.Prelude.{◌≢◌, false}
use giro.Storage.Commit.{CommitOptions}
use giro.Storage.Commit.Race.{reference_used, race_with_reference_fails}
use giro.Storage.Tests.{
  genesis, noon, plain, deposited, deposit_content, keyed, attempt_on, logged_deposit,
  commit-deposit, deposit-PostingIsValid, unused_at_genesis,
}

-- the deposit as the log gives it back
abbrev replayed_deposit : Transaction
replayed_deposit = record deposited { timestamp = 0; inserted_at = 0; post_commit_volumes = [] }

deposit_key-found :
    find_by_idempotency_key toy (codes "k") (codes "h") logged_deposit.logs
    ≡ ok (some replayed_deposit)
unfolding find_by_idempotency_key Bytes-discrete
deposit_key-found = refl

abbrev deposit_entry : Log
deposit_entry = record {
  id = 1;
  type = log_new_transaction;
  date = 6000;
  content = deposit_content;
  hash = deposit_content;
  idempotency_key = codes "k";
  idempotency_hash = codes "h";
}

deposit_entry-found : find_key (codes "k") logged_deposit.logs ≡ some deposit_entry
unfolding find_key Bytes-discrete
deposit_entry-found = refl

another_request : same_bytes (codes "h") (codes "another") ≡ false
unfolding Bytes-discrete
another_request = refl

dry-deposit :
    commit_once toy (attempt_on genesis none) deposit (record (keyed []) { dry_run = true }) []
    ≡ ok (genesis, deposited)
unfolding commit_once Key-discrete Bytes-discrete ◌+ℤ◌ ◌-ℤ◌
dry-deposit = refl

commit_exactly_once_example :
    (d : Transaction) × (commit_once toy
        (attempt_on logged_deposit none)
        deposit
        (keyed (codes "k"))
        (codes "h")
      ≡ ok (logged_deposit, d))
    × (d.id ≡ 1)
    × (d.postings ≡ deposit)
commit_exactly_once_example =
    commit_exactly_once toy (attempt_on genesis none) deposit (keyed (codes "k")) (codes "h")
      toy-RoundTrips (attempt_on logged_deposit none) refl refl unused_at_genesis unused_at_genesis
      commit-deposit deposit-PostingIsValid refl

-- an attempt that saw the key unused, and finds the deposit there once it holds the locks
abbrev late : Attempt
late = record (attempt_on logged_deposit none) { seen = genesis }

apply_late :
    (d : Db × Transaction × Allocation) × (apply_transaction noon plain deposit logged_deposit
      ≡ ok d)
unfolding apply_transaction Key-discrete Bytes-discrete ◌+ℤ◌ ◌-ℤ◌
apply_late = (_, refl)

-- the winner's request had a reference, and so has the loser's
abbrev with_reference : CommitOptions
with_reference = record (keyed (codes "k")) { reference = codes "r" }

abbrev late_with_reference : Attempt
late_with_reference = record late {
  db = record logged_deposit { transactions = record deposited { reference = codes "r" } ∷ [] };
}

reference-used : reference_used (codes "r") late_with_reference.db.transactions ≡ true
unfolding Bytes-discrete
reference-used = refl

race_with_reference_fails_example :
    commit_once toy late_with_reference deposit with_reference (codes "h")
    ≢ ok (logged_deposit, replayed_deposit)
race_with_reference_fails_example =
    race_with_reference_fails toy late_with_reference deposit with_reference (codes "h")
      replayed_deposit (logged_deposit, replayed_deposit) refl refl unused_at_genesis
      deposit_key-found reference-used
