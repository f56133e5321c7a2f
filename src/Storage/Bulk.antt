-- ===== src/Storage/Bulk.antt =====
-- storage/bulk.go: several transactions in one database transaction, all of them or none.
pub mod Entered
pub mod Sound
pub mod Replayed
pub mod Keyed
use giro.Prelude.{
  ℕ, zero, suc, ◌+◌, Bool, true, false, not, Option, none, some, List, [], ◌∷◌, ◌++◌, if◌then◌else◌,
  ite, ◌==◌, ltb, Result, ok, err, ◌>>=◌, Bytes, Bytes-discrete, codes, length, map,
}
use giro.Ledger.Posting.{Posting, Postings, PostingFault, validate}
use giro.Ledger.Volumes.{VolumeUpdate, volume_updates, sort_updates}
use giro.Ledger.Metadata.{put_metadata, find_metadata}
use giro.Storage.Schema.{
  Db, LedgerRow, Log, Transaction, Time, Metadata, Error, no_postings, posting_error,
  unique_violation, idempotency_mismatch, cancelled, giving_up, batch_too_large, batch_item,
}
use giro.Storage.Locking.{lock_volumes, touches}
use giro.Storage.Rows.{is_empty, same_bytes}
use giro.Storage.Encoding.{Encoding, IdempotencyInput, hex, hydrate_all}
use giro.Storage.Log.{Allocation, append_log, find_key}
use giro.Storage.Assets.{Cache, check_assets}
use giro.Storage.Commit.{
  CommitOptions, ApplyOptions, Moment, Attempt, apply_transaction, or_nil_amount, retryable,
  max_attempts,
}

-- `MaxBatchSize`
abbrev pub max_batch_size : ℕ
max_batch_size = 100

-- `BatchItem`, which is converted to the input of the idempotency hash as it is
abbrev pub BatchItem : Type 0
BatchItem = IdempotencyInput

-- `BatchKey`
abbrev pub batch_key : Bytes
batch_key = codes "giro/batch"

-- `BatchItemError`
abbrev pub at_item {ℓ} : {A : Type ℓ} → ℕ → Result Error A → Result Error A
at_item i (ok a) = ok a
at_item i (err error) = err (batch_item i error)

-- `withBatchTag`
unfoldable pub with_batch_tag : Bytes → Metadata → Metadata
unfolding put_metadata
with_batch_tag hash m = put_metadata batch_key hash m

abbrev pub is_tag : Bytes → Option Bytes → Bool
is_tag hash none = false
is_tag hash (some tag) = same_bytes tag hash

-- `where metadata->>$2 = $3`; the table is kept in the order of the ids
unfoldable pub tagged : Bytes → List Transaction → List Transaction
unfolding find_metadata
tagged hash [] = []
tagged hash (t ∷ ts) =
    let rest = tagged hash ts in
    if is_tag hash (find_metadata batch_key t.metadata) then t ∷ rest else rest

-- a nil slice is no batch
abbrev pub or_nil : List Transaction → Option (List Transaction)
or_nil [] = none
or_nil (t ∷ ts) = some (t ∷ ts)

-- the batch of a query's rows
abbrev pub read_batch : Encoding → List Transaction → Result Error (Option (List Transaction))
read_batch e rows = do ts ← hydrate_all e rows; ok (or_nil ts)

abbrev pub batch_under :
    Encoding → Bytes → List Transaction → Option Log → Result Error (Option (List Transaction))
batch_under e want ts none = ok none
batch_under e want ts (some l) =
    if same_bytes l.idempotency_hash want
    then read_batch e (tagged want ts)
    else err idempotency_mismatch

-- `findBatchByIdempotencyKey`
unfoldable pub find_batch : Encoding → Bytes → Bytes → Db → Result Error (Option (List Transaction))
unfolding find_key tagged hydrate_all
find_batch e key want db = batch_under e want db.transactions (find_key key db.logs)

-- `batchIdempotencyRace`: nil when there is nothing to answer with
abbrev pub batch_race :
    Encoding → Bytes → Bytes → Db → Error → Result Error (Option (List Transaction))
batch_race e key ik_hash db unique_violation =
    if is_empty key then ok none else find_batch e key ik_hash db
batch_race e key ik_hash db error = ok none

abbrev pub add_unseen : VolumeUpdate → List VolumeUpdate → List VolumeUpdate
add_unseen u all = if touches u.key all then all else all ++ u ∷ []

-- the inner loop of `lockBatch`
unfoldable pub add_updates : List VolumeUpdate → List VolumeUpdate → List VolumeUpdate
add_updates [] all = all
add_updates (u ∷ us) all = add_updates us (add_unseen u all)

-- the loop of `lockBatch`, from item `i` on
unfoldable pub collect_updates :
    ℕ → List BatchItem → List VolumeUpdate → Result Error (List VolumeUpdate)
unfolding add_updates
collect_updates i [] all = ok all
collect_updates i (item ∷ items) all = do
  us ← at_item i (or_nil_amount (volume_updates item.postings))
  collect_updates (suc i) items (add_updates us all)

-- `lockBatch`: the database with a row for every pair of the batch
unfoldable pub lock_batch : List BatchItem → Db → Result Error Db
unfolding collect_updates lock_volumes sort_updates
lock_batch items db = do all ← collect_updates 0 items []; ok (lock_volumes db (sort_updates all)).0

-- the metadata that is stored: with a key, every member is tagged
abbrev pub item_metadata : Bytes → Bytes → Metadata → Metadata
item_metadata key ik_hash m = if is_empty key then m else with_batch_tag ik_hash m

abbrev pub item_options : Bytes → Bytes → BatchItem → ApplyOptions
item_options key ik_hash item = record {
  timestamp = item.timestamp;
  reference = item.reference;
  metadata = item_metadata key ik_hash item.metadata;
}

-- the key and its hash go on the first entry only
abbrev pub first_only : ℕ → Bytes → Bytes
first_only zero bs = bs
first_only (suc i) bs = []

-- How the loop of `commitBatchOnce` ends: all items are written, or another request's batch is the
-- answer.
pub data Progress : Type 0 where
  written : Db → List Transaction → Progress
  answered : List Transaction → Progress

-- the error path of `appendLog`: what the race brings, or the item's error
abbrev pub settle_item :
    ℕ → Error → Result Error (Option (List Transaction)) → Result Error Progress
settle_item i error (err failure) = err failure
settle_item i error (ok (some ts)) = ok (answered ts)
settle_item i error (ok none) = err (batch_item i error)

-- `batchIdempotencyHash`: empty without a key
unfoldable pub batch_idempotency_hash : Encoding → Bytes → List BatchItem → Bytes
unfolding hex
batch_idempotency_hash e key items =
    if is_empty key then [] else hex (e.sha256 (e.marshal_inputs items))

module _ (e : Encoding) where
  -- the loop of `commitBatchOnce`, from item `i` on; `committed` is what other transactions see
  unfoldable pub write_items :
      Moment
      → Bytes
      → Bytes
      → Db
      → ℕ
      → List BatchItem
      → Db
      → List Transaction
      → Result Error Progress
  unfolding apply_transaction append_log with_batch_tag find_batch
  write_items m key ik_hash committed i [] db out = ok (written db out)
  write_items m key ik_hash committed i (item ∷ items) db out =
      at_item i (apply_transaction m (item_options key ik_hash item) item.postings db) >>= λ z.
      elim (append_log e z.1 z.2 (first_only i key) (first_only i ik_hash) z.0.ledger z.0.logs) [
        | err error ↦ settle_item i error (batch_race e key ik_hash committed error)
        | ok (row, logs) ↦
            write_items m key ik_hash committed (suc i) items
              (record z.0 { ledger = row; logs = logs }) (out ++ z.1 ∷ [])
      ]

  -- the tail of `commitBatchOnce`
  abbrev pub finish_batch :
      Option Error → Bool → Db → Progress → Result Error (Db × List Transaction)
  finish_batch fault dry_run db (answered ts) = ok (db, ts)
  finish_batch (some fault) dry_run db (written after ts) = err fault
  finish_batch none dry_run db (written after ts) = ok (if dry_run then db else after, ts)

  abbrev pub find_batch_replay : Bytes → Bytes → Db → Result Error (Option (List Transaction))
  find_batch_replay key ik_hash seen =
      if is_empty key then ok none else find_batch e key ik_hash seen

  abbrev pub lock_and_write :
      Attempt → List BatchItem → CommitOptions → Bytes → Result Error (Db × List Transaction)
  lock_and_write a items opts ik_hash = do
    locked ← lock_batch items a.db
    progress ← write_items a.moment opts.idempotency_key ik_hash a.db 0 items locked []
    finish_batch a.fault opts.dry_run a.db progress

  -- `commitBatchOnce`
  unfoldable pub commit_batch_once :
      Attempt → List BatchItem → CommitOptions → Bytes → Result Error (Db × List Transaction)
  unfolding find_batch lock_batch write_items
  commit_batch_once a items opts ik_hash = do
    existing ← find_batch_replay opts.idempotency_key ik_hash a.seen
    elim existing [ some ts ↦ ok (a.db, ts) | none ↦ lock_and_write a items opts ik_hash ]

  -- the retry loop of `CommitBatch`
  unfoldable pub batch_from :
      ℕ
      → ℕ
      → ℕ
      → (ℕ → Attempt)
      → List BatchItem
      → CommitOptions
      → Bytes
      → ℕ × Result Error (Db × List Transaction)
  batch_from zero attempt retries env items opts ik_hash = (retries, err giving_up)
  batch_from (suc left) attempt retries env items opts ik_hash =
      let rest = batch_from left (suc attempt) (suc retries) env items opts ik_hash in
      elim (commit_batch_once (env attempt) items opts ik_hash) [
        | ok done ↦ (retries, ok done)
        | err error ↦
            if not (retryable error)
            then (retries, err error)
            else if (env attempt).is_cancelled
            then (suc retries, err cancelled)
            else rest
      ]

-- the checks of one item, in the order of the code
abbrev pub check_item : Cache → Db → Postings → Cache × Option Error
check_item c db [] = (c, some no_postings)
check_item c db (posting ∷ p) = elim (validate (posting ∷ p)) [
  | some (i, fault) ↦ (c, some (posting_error i fault))
  | none ↦ check_assets c db (posting ∷ p)
]

-- the loop of `CommitBatch` over the items
unfoldable pub check_items : ℕ → Cache → Db → List BatchItem → Cache × Option Error
unfolding validate check_assets
check_items i c db [] = (c, none)
check_items i c db (item ∷ items) =
    let checked = check_item c db item.postings in
    let rest = check_items (suc i) checked.0 db items in
    elim checked.1 [ some error ↦ (checked.0, some (batch_item i error)) | none ↦ rest ]

module _ (e : Encoding) where
  abbrev pub commit_checked :
      (ℕ → Attempt)
      → List BatchItem
      → CommitOptions
      → Cache × Option Error
      → Cache × ℕ × Result Error (Db × List Transaction)
  commit_checked env items opts (c, some error) = (c, 0, err error)
  commit_checked env items opts (c, none) =
      let ik_hash = batch_idempotency_hash e opts.idempotency_key items in
      let (retries, result) = batch_from e max_attempts 0 0 env items opts ik_hash in
      (c, retries, result)

  -- `CommitBatch`
  unfoldable pub commit_batch :
      Cache
      → Db
      → (ℕ → Attempt)
      → List BatchItem
      → CommitOptions
      → Cache × ℕ × Result Error (Db × List Transaction)
  unfolding check_items batch_from batch_idempotency_hash
  commit_batch c db env [] opts = (c, 0, err no_postings)
  commit_batch c db env (item ∷ items) opts =
      if ltb max_batch_size (length (item ∷ items))
      then (c, 0, err batch_too_large)
      else commit_checked env (item ∷ items) opts (check_items 0 c db (item ∷ items))
