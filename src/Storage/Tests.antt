-- ===== src/Storage/Tests.antt =====
-- A concrete ledger, and what a deposit makes of it.
pub mod Codec
pub mod Commits
pub mod Replays
pub mod Retries
pub mod Accounts
pub mod Recoveries
pub mod Batches
pub mod Dates
pub mod Tags
pub mod Checks
pub mod Pages
use giro.Storage.Tests.Codec.{toy, toy-RoundTrips}
use giro.Prelude.{
  subst, ℕ, ◌≡◌, refl, Bool, true, false, Option, none, some, List, [], ◌∷◌, ok, err, pos, Bytes,
  codes, All, Bytes-discrete, arith, ◌+ℤ◌, ◌-ℤ◌, ◌<◌, zero, suc, inr,
}
use giro.Ledger.Address.{world_account}
use giro.Ledger.Posting.{Postings}
use giro.Ledger.Volumes.{Key-discrete, Volumes, VolumeUpdate, volume_updates}
use giro.Ledger.Tests.{alice, bob, usd, pay, key_of, deposit}
use giro.Storage.Schema.{
  Db, VolumeRow, AccountRow, MoveRow, Transaction, log_new_transaction, Error, insufficient_funds,
  giving_up, deadlock_detected,
}
use giro.Storage.Locking.{is_closed}
use giro.Storage.Encoding.{Encoding, Payload}
use giro.Storage.Log.{Allocation}
use giro.Storage.Commit.{
  CommitOptions, ApplyOptions, Moment, Attempt, apply_transaction, commit_once,
}
use giro.Storage.Locking.{Locks, read_locks}
use giro.Storage.Sweep.{resolve_up_to, running_from}
use giro.Storage.Sweep.Resolution.{
  Resolves, HasValidCeiling, IsBounded, resolve_up_to-Resolves, resolve_up_to_total,
}
use giro.Ledger.Tests.{validate-deposit}
use giro.Ledger.Posting.Validation.{PostingIsValid, Verdict, validate-Verdict}
use giro.Storage.Schema.{idempotency_mismatch, Log}
use giro.Storage.Rows.{same_bytes}
use giro.Storage.Log.{find_key, find_by_idempotency_key, verify_log}
use giro.Storage.Log.Chain.{IsChained}
use giro.Storage.Projection.{replay_log}
use giro.Storage.Projection.Replayed.{
  IsProjection, commit_once-IsProjection, revert_once-IsProjection,
}
use giro.Storage.Commit.Chained.{IsChainedDb, commit_once-IsChainedDb}
use giro.Storage.Commit.Replay.{
  replay_used_key, refuse_reused_key, commit_exactly_once, loser_returns_winner, dry_run-unchanged,
}
use giro.Storage.Commit.Flow.{GrownBy, apply_transaction-GrownBy}
use giro.Storage.Commit.{max_attempts, attempt_from}
use giro.Storage.Commit.Conservation.{
  IsConserved, apply_transaction-IsConserved, commit_once-IsConserved,
}
use giro.Storage.Commit.Bounds.{IsWithin, apply_transaction-IsWithin, apply_transaction-unclosed}
use giro.Storage.Commit.Retry.{Contended, retry_until-Settled, give_up_after_max_attempts}

abbrev pub genesis : Db
genesis = record {
  ledger = some (record { last_tx_id = 0; last_log_id = 0; last_log_hash = [] });
  assets = usd ∷ [];
  volumes = [];
  accounts = [];
  transactions = [];
  moves = [];
  logs = [];
}

abbrev pub noon : Moment
noon = record { now = 5000; db_now = 6000 }

abbrev pub plain : ApplyOptions
plain = record { timestamp = 0; reference = []; metadata = [] }

abbrev pub counters : ℕ → ℕ → Volumes
counters input output = record { input = pos input; output = pos output }

abbrev pub row_of : Bytes → ℕ → ℕ → Bool → VolumeRow
row_of account input output allow_negative = record {
  key = key_of account;
  volumes = counters input output;
  allow_negative = allow_negative;
  allow_positive = true;
}

abbrev pub account_of : Bytes → AccountRow
account_of address = record {
  address = address;
  first_usage = 5000;
  insertion_date = 6000;
  updated_at = 6000;
  metadata = [];
  closed = false;
}

abbrev pub move_of : Bytes → ℕ → Bool → Volumes → MoveRow
move_of account amount is_source v = record {
  tx_id = 1;
  key = key_of account;
  amount = pos amount;
  is_source = is_source;
  effective_date = 5000;
  insertion_date = 6000;
  pcv = v;
  pcev = v;
}

abbrev pub deposited : Transaction
deposited = record {
  id = 1;
  postings = deposit;
  timestamp = 5000;
  inserted_at = 6000;
  reverted_at = none;
  reference = [];
  metadata = [];
  post_commit_volumes =
      (key_of alice, counters 100 30)
      ∷ (key_of bob, counters 30 0)
      ∷ (key_of world_account, counters 0 100)
      ∷ [];
}

abbrev pub after_deposit : Db
after_deposit = record {
  ledger = some (record { last_tx_id = 1; last_log_id = 1; last_log_hash = [] });
  assets = usd ∷ [];
  volumes =
      row_of alice 100 30 false ∷ row_of bob 30 0 false ∷ row_of world_account 0 100 true ∷ [];
  accounts = account_of alice ∷ account_of bob ∷ account_of world_account ∷ [];
  transactions = deposited ∷ [];
  moves =
      move_of world_account 100 true (counters 0 100)
      ∷ move_of alice 100 false (counters 100 0)
      ∷ move_of alice 30 true (counters 100 30)
      ∷ move_of bob 30 false (counters 30 0)
      ∷ [];
  logs = [];
}

-- what the log holds of the deposit
abbrev pub deposit_content : Bytes
deposit_content = toy.marshal (Payload.new_transaction deposited)

abbrev pub first_allocation : Allocation
first_allocation = record { transaction_id = 1; log_id = 1; previous_hash = [] }

pub apply-deposit :
    apply_transaction noon plain deposit genesis ≡ ok (after_deposit, deposited, first_allocation)
unfolding apply_transaction Key-discrete Bytes-discrete ◌+ℤ◌ ◌-ℤ◌
apply-deposit = refl

-- bob holds 30, and is asked for 31
apply_overdraft :
    apply_transaction noon plain (pay bob alice 31 ∷ []) after_deposit
    ≡ err (insufficient_funds (key_of bob) (pos 30) (pos 31))
unfolding apply_transaction Key-discrete Bytes-discrete ◌+ℤ◌ ◌-ℤ◌
apply_overdraft = refl

pub genesis-IsConserved : IsConserved genesis
genesis-IsConserved a = refl

abbrev pub keyed : Bytes → CommitOptions
keyed key = record {
  timestamp = 0;
  reference = [];
  metadata = [];
  idempotency_key = key;
  dry_run = false;
}

-- an attempt that meets nothing but `db`, and the end `fault`
abbrev pub attempt_on : Db → Option Error → Attempt
attempt_on db fault = record {
  moment = noon;
  seen = db;
  db = db;
  fault = fault;
  is_cancelled = false;
}

abbrev pub logged_deposit : Db
logged_deposit = record after_deposit {
  ledger = some (record { last_tx_id = 1; last_log_id = 1; last_log_hash = deposit_content });
  logs =
      record {
        id = 1;
        type = log_new_transaction;
        date = 6000;
        content = deposit_content;
        hash = deposit_content;
        idempotency_key = codes "k";
        idempotency_hash = codes "h";
      }
      ∷ [];
}

pub commit-deposit :
    commit_once toy (attempt_on genesis none) deposit (keyed (codes "k")) (codes "h")
    ≡ ok (logged_deposit, deposited)
unfolding commit_once Key-discrete Bytes-discrete ◌+ℤ◌ ◌-ℤ◌
commit-deposit = refl

pub genesis-IsChainedDb : IsChainedDb toy genesis
unfolding verify_log
genesis-IsChainedDb = (
  record { last_tx_id = 0; last_log_id = 0; last_log_hash = [] },
  refl,
  record { count = 0; verified = refl; tip = refl },
)

pub genesis-IsProjection : IsProjection toy genesis
unfolding replay_log
genesis-IsProjection = record {
  index = [];
  ids = [];
  replays = refl;
  inputs = λ k. refl;
  outputs = λ k. refl;
}

pub deposit-PostingIsValid : All PostingIsValid deposit
deposit-PostingIsValid = subst (Verdict deposit) validate-deposit (validate-Verdict deposit)

pub unused_at_genesis : find_key (codes "k") genesis.logs ≡ none
unfolding find_key
unused_at_genesis = refl
