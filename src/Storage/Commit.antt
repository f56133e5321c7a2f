-- ===== src/Storage/Commit.antt =====
-- storage/commit.go and storage/retry.go: what runs inside one database transaction, and the retry
-- loop around it. A database transaction is a function from the database to an error, which leaves
-- the database as it was, or to the database that its COMMIT leaves.
pub mod Inversion
pub mod Conservation
pub mod Retry
pub mod LockedRows
pub mod Bounds
pub mod Chained
pub mod Flow
pub mod PostCommit
pub mod Requests
pub mod Race
pub mod Histories
pub mod Replay
use giro.Prelude.{
  ℕ, zero, suc, ◌+◌, ◌-◌, ◌*◌, ◌/◌, Bool, true, false, not, Option, none, some, List, [], ◌∷◌,
  if◌then◌else◌, ◌==◌, Result, ok, err, ◌>>=◌, ◌>>◌, Bytes,
}
use giro.Ledger.Posting.{Posting, Postings, PostingFault, NilAmount, validate, has_up_to}
use giro.Ledger.Posting as Posting
use giro.Ledger.Volumes.{VolumeUpdate, volume_updates}
use giro.Storage.Schema.{
  Db, LedgerRow, Transaction, Time, Metadata, Error, no_postings, posting_error, nil_amount,
  deadlock_detected, serialization_failure, unique_violation, cancelled, giving_up, batch_item,
}
use giro.Storage.Locking.{Locks, lock_volumes, apply_volumes}
use giro.Storage.Guards.{check_balances, check_closed, post_commit_volumes}
use giro.Storage.Sweep.{resolve_up_to}
use giro.Storage.Moves.{effective_volumes_at, queue_moves}
use giro.Storage.Rows.{insert_transaction, queue_accounts, is_empty}
use giro.Storage.Encoding.{Encoding, IdempotencyInput}
use giro.Storage.Log.{Allocation, allocate, append_log, idempotency_hash, find_by_idempotency_key}
use giro.Storage.Assets.{Cache, check_assets}

-- `CommitOptions`; a zero timestamp means now
pub record CommitOptions : Type 0 where
  pub timestamp : Time
  pub reference : Bytes
  pub metadata : Metadata
  pub idempotency_key : Bytes
  pub dry_run : Bool

-- `applyOptions`
pub record ApplyOptions : Type 0 where
  pub timestamp : Time
  pub reference : Bytes
  pub metadata : Metadata

-- the clocks: `time.Now()` of the process, and `now()` of the database
pub record Moment : Type 0 where
  pub now : Time
  pub db_now : Time

abbrev pub or_nil_amount {ℓ} : {A : Type ℓ} → Result NilAmount A → Result Error A
or_nil_amount (ok a) = ok a
or_nil_amount (err (Posting.nil_amount i)) = err (nil_amount i)

-- what the rows hold once every ceiling is resolved: the postings, and their deltas
abbrev pub Resolution : Type 0
Resolution = Postings × List VolumeUpdate

-- the block under `if p.HasUpTo()`
unfoldable pub resolve : Postings → Locks → List VolumeUpdate → Result Error Resolution
unfolding has_up_to resolve_up_to
resolve p before us =
    if has_up_to p
    then (do q ← resolve_up_to p before; vs ← or_nil_amount (volume_updates q); ok (q, vs))
    else ok (p, us)

-- `timestamp.UTC().Truncate(time.Microsecond)`, the time now where none was given
abbrev pub effective_timestamp : Time → Time → Time
effective_timestamp given now = let t = if given == 0 then now else given in t / 1000 * 1000

-- the `ledger.Transaction` that is handed to `insertTransaction`
abbrev pub draft_transaction : ApplyOptions → Time → Locks → Resolution → Allocation → Transaction
draft_transaction opts timestamp before (p, us) alloc = record {
  id = alloc.transaction_id;
  postings = p;
  timestamp = timestamp;
  inserted_at = 0;
  reverted_at = none;
  reference = opts.reference;
  metadata = opts.metadata;
  post_commit_volumes = post_commit_volumes before us;
}

-- the part of `applyTransaction` behind the guards, on the database with its rows locked
unfoldable pub write_transaction :
    Moment → ApplyOptions → Locks → Resolution → Db → Result Error (Db × Transaction × Allocation)
unfolding apply_volumes effective_volumes_at allocate insert_transaction queue_accounts queue_moves
    post_commit_volumes
write_transaction m opts before (p, us) db = do
  volumes ← apply_volumes us db.volumes
  let timestamp = effective_timestamp opts.timestamp m.now
  let effective_before = effective_volumes_at db.moves timestamp
  (row, alloc) ← allocate db.ledger
  (transactions, t) ←
      insert_transaction m.db_now (draft_transaction opts timestamp before (p, us) alloc)
        db.transactions
  ok (
    record db {
      ledger = some row;
      volumes = volumes;
      accounts = queue_accounts m.db_now timestamp us db.accounts;
      transactions = transactions;
      moves = queue_moves t before effective_before us db.moves;
    },
    t,
    alloc,
  )

-- `applyTransaction`
unfoldable pub apply_transaction :
    Moment → ApplyOptions → Postings → Db → Result Error (Db × Transaction × Allocation)
unfolding volume_updates lock_volumes resolve check_closed check_balances write_transaction
apply_transaction m opts p db = do
  named ← or_nil_amount (volume_updates p)
  let (locked_db, before) = lock_volumes db named
  (q, us) ← resolve p before named
  check_closed before us
  check_balances before us
  write_transaction m opts before (q, us) locked_db

-- `retryable`
abbrev pub retryable : Error → Bool
retryable deadlock_detected = true
retryable serialization_failure = true
retryable (batch_item i error) = retryable error
retryable _ = false

abbrev pub max_attempts : ℕ
max_attempts = 10

-- the request as the idempotency hash covers it
abbrev pub request_of : Postings → CommitOptions → IdempotencyInput
request_of p opts = record {
  postings = p;
  timestamp = opts.timestamp;
  reference = opts.reference;
  metadata = opts.metadata;
}

-- One attempt's surroundings. Other transactions commit between two statements: `seen` is what the
-- lookup of the idempotency key reads, `db` what is there once the locks are held. `fault` is what
-- the database reports at the end of the attempt, if it does not commit; `is_cancelled` is the
-- context's state during the backoff that follows.
pub record Attempt : Type 0 where
  pub moment : Moment
  pub seen : Db
  pub db : Db
  pub fault : Option Error
  pub is_cancelled : Bool

module _ (e : Encoding) where
  -- the error path of `appendLog` in `commitOnce`: `idempotencyRace`
  abbrev pub settle_race : Bytes → Bytes → Db → Error → Result Error (Db × Transaction)
  settle_race key ik_hash db unique_violation = if is_empty key then err unique_violation else (do
    winner ← find_by_idempotency_key e key ik_hash db.logs
    elim winner [ some t ↦ ok (db, t) | none ↦ err unique_violation ])
  settle_race key ik_hash db error = err error

  -- the tail of `commitOnce`, behind the log entry
  abbrev pub finish_attempt :
      Option Error → Bool → Db → Db → Transaction → Result Error (Db × Transaction)
  finish_attempt (some fault) dry_run db after t = err fault
  finish_attempt none dry_run db after t = ok (if dry_run then db else after, t)

  abbrev pub log_transaction :
      Bytes
      → Bytes
      → Option Error
      → Bool
      → Db
      → Db × Transaction × Allocation
      → Result Error (Db × Transaction)
  log_transaction key ik_hash fault dry_run db (applied, t, alloc) =
      elim (append_log e t alloc key ik_hash applied.ledger applied.logs) [
        | err error ↦ settle_race key ik_hash db error
        | ok (row, logs) ↦
            finish_attempt fault dry_run db (record applied { ledger = row; logs = logs }) t
      ]

  -- the fast path of `commitOnce`
  abbrev pub find_replay : Bytes → Bytes → Db → Result Error (Option Transaction)
  find_replay key ik_hash seen =
      if is_empty key then ok none else find_by_idempotency_key e key ik_hash seen.logs

  abbrev pub apply_and_log :
      Attempt → Postings → CommitOptions → Bytes → Result Error (Db × Transaction)
  apply_and_log a p opts ik_hash = do
    applied ←
        apply_transaction a.moment
          (record {
            timestamp = opts.timestamp;
            reference = opts.reference;
            metadata = opts.metadata;
          })
          p a.db
    log_transaction opts.idempotency_key ik_hash a.fault opts.dry_run a.db applied

  -- `commitOnce`: the database that is left, and the transaction that is returned
  unfoldable pub commit_once :
      Attempt → Postings → CommitOptions → Bytes → Result Error (Db × Transaction)
  unfolding apply_transaction append_log find_by_idempotency_key
  commit_once a p opts ik_hash = do
    existing ← find_replay opts.idempotency_key ik_hash a.seen
    elim existing [ some t ↦ ok (a.db, t) | none ↦ apply_and_log a p opts ik_hash ]

  -- the retry loop: how often it restarted, and what came of it
  unfoldable pub attempt_from :
      ℕ
      → ℕ
      → ℕ
      → (ℕ → Attempt)
      → Postings
      → CommitOptions
      → Bytes
      → ℕ × Result Error (Db × Transaction)
  attempt_from zero attempt retries env p opts ik_hash = (retries, err giving_up)
  attempt_from (suc left) attempt retries env p opts ik_hash =
      let rest = attempt_from left (suc attempt) (suc retries) env p opts ik_hash in
      elim (commit_once (env attempt) p opts ik_hash) [
        | ok done ↦ (retries, ok done)
        | err error ↦
            if not (retryable error)
            then (retries, err error)
            else if (env attempt).is_cancelled
            then (suc retries, err cancelled)
            else rest
      ]

  abbrev pub commit_valid :
      Db
      → (ℕ → Attempt)
      → Postings
      → CommitOptions
      → Cache × Option Error
      → Cache × ℕ × Result Error (Db × Transaction)
  commit_valid db env p opts (c, some error) = (c, 0, err error)
  commit_valid db env p opts (c, none) =
      let ik_hash = idempotency_hash e (request_of p opts) in
      let (retries, result) = attempt_from max_attempts 0 0 env p opts ik_hash in
      (c, retries, result)

  -- `CommitTransaction`, on what the query of `checkAssets` sees and what each attempt meets
  unfoldable pub commit_transaction :
      Cache
      → Db
      → (ℕ → Attempt)
      → Postings
      → CommitOptions
      → Cache × ℕ × Result Error (Db × Transaction)
  commit_transaction c db env [] opts = (c, 0, err no_postings)
  commit_transaction c db env (posting ∷ p) opts = elim (validate (posting ∷ p)) [
    | some (i, fault) ↦ (c, 0, err (posting_error i fault))
    | none ↦ commit_valid db env (posting ∷ p) opts (check_assets c db (posting ∷ p))
  ]
