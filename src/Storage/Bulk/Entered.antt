-- ===== src/Storage/Bulk/Entered.antt =====
-- What a batch that succeeded has done: every item in turn, as one commit does it.
use giro.Prelude.{
  ℕ, suc, ◌≡◌, refl, sym, ap, ◌∙◌, subst, Bool, true, false, Option, none, some, List, [], ◌∷◌,
  ◌++◌, Result, ok, err, Bool-cases, Option-cases, ok-injective, err-ne-ok, >>=-eq-ok, inl, inr,
  ◌⊎◌, Bytes,
}
use mathlib.Core.List.{append-nil, append_assoc}
use giro.Ledger.Volumes.{VolumeUpdate, sort_updates}
use giro.Storage.Schema.{Db, LedgerRow, Transaction, Error, Log, unique_violation}
use giro.Storage.Locking.{lock_volumes}
use giro.Storage.Rows.{is_empty}
use giro.Storage.Encoding.{Encoding}
use giro.Storage.Log.{Allocation, append_log, find_key, find_by_idempotency_key}
use giro.Storage.Log.Keys.{append_log-clash}
use giro.Storage.Commit.{
  CommitOptions, Moment, Attempt, apply_transaction, commit_once, log_transaction,
}
use giro.Storage.Commit.Inversion.{Appended, apply_transaction-Applied}
use giro.Storage.Bulk.{
  BatchItem, at_item, item_metadata, item_options, first_only, Progress, written, answered,
  settle_item, batch_race, write_items, finish_batch, find_batch_replay, lock_and_write, lock_batch,
  commit_batch_once, collect_updates, find_batch,
}

pub at_item-eq-ok {ℓ} :
    {A : Type ℓ} (i : ℕ) (r : Result Error A) {a : A} → at_item i r ≡ ok a → r ≡ ok a
at_item-eq-ok i (ok b) h = ap ok (ok-injective h)
at_item-eq-ok i (err error) h = cc

-- The commit that stands for one item of a batch.
abbrev pub item_attempt : Moment → Db → Attempt
item_attempt m db = record { moment = m; seen = db; db = db; fault = none; is_cancelled = false }

abbrev pub item_commit : ℕ → Bytes → Bytes → BatchItem → CommitOptions
item_commit i key ik_hash item = record {
  timestamp = item.timestamp;
  reference = item.reference;
  metadata = item_metadata key ik_hash item.metadata;
  idempotency_key = first_only i key;
  dry_run = false;
}

module _ (e : Encoding) (m : Moment) (key ik_hash : Bytes) where
  -- An item that was applied and logged is what one commit of it does.
  commit_item :
      (i : ℕ) (item : BatchItem) (db applied : Db) (t : Transaction) (alloc : Allocation)
      (row : Option LedgerRow) (logs : List Log)
      → apply_transaction m (item_options key ik_hash item) item.postings db
        ≡ ok (applied, t, alloc)
      → append_log e t alloc (first_only i key) (first_only i ik_hash) applied.ledger applied.logs
        ≡ ok (row, logs)
      → commit_once e
          (item_attempt m db)
          item.postings
          (item_commit i key ik_hash item)
          (first_only i ik_hash)
        ≡ ok (record applied { ledger = row; logs = logs }, t)
  unfolding commit_once find_by_idempotency_key lock_volumes
  commit_item i item db applied t alloc row logs by_apply by_log =
      elim (Bool-cases (is_empty (first_only i key))) [
        | inl keyless ↦ rw (commit_once, keyless, by_apply, log_transaction, by_log)
        | inr keyed ↦ elim (Option-cases (find_key (first_only i key) db.logs)) [
          | inl unused ↦ rw (commit_once, keyed, unused, by_apply, log_transaction, by_log)
          | inr (l, used) ↦
              let same =
                (apply_transaction-Applied m (item_options key ik_hash item) item.postings db
                  by_apply).written.logs in
              absurd (
                err-ne-ok (
                  sym (
                    append_log-clash e t alloc (first_only i key) (first_only i ik_hash)
                      applied.ledger applied.logs keyed
                      (ap (find_key (first_only i key)) same ∙ used))
                  ∙ by_log))
        ]
      ]

  -- The items from number `i` on were each committed on what the one before left.
  abbrev pub Entered : ℕ → List BatchItem → Db → Db → List Transaction → Type 0
  Entered i [] db after ts = (after ≡ db) × (ts ≡ [])
  Entered i (item ∷ items) db after ts =
      (mid : Db) × (t : Transaction) × (rest : List Transaction) × Appended e (item_attempt m db)
        item.postings (item_commit i key ik_hash item) (first_only i ik_hash) mid t
      × Entered (suc i) items mid after rest
      × (ts ≡ t ∷ rest)
      × (commit_once e (item_attempt m db) item.postings (item_commit i key ik_hash item)
            (first_only i ik_hash)
          ≡ ok (mid, t))

  -- The request has a key, and the batch of an earlier request with this key is there.
  abbrev pub Stored : Db → List Transaction → Type 0
  Stored db ts = (is_empty key ≡ false) × (find_batch e key ik_hash db ≡ ok (some ts))

  -- What the loop left, or what it was answered.
  abbrev Wrote : Db → ℕ → List BatchItem → Db → List Transaction → Progress → Type 0
  Wrote committed i items db out (answered ts) = Stored committed ts
  Wrote committed i items db out (written after ts) =
      (new : List Transaction) × Entered i items db after new × (ts ≡ out ++ new)

  settle_item-Wrote :
      (committed : Db) (i : ℕ) (items : List BatchItem) (db : Db) (out : List Transaction)
      (error : Error) {progress : Progress}
      → settle_item i error (batch_race e key ik_hash committed error) ≡ ok progress
      → Wrote committed i items db out progress
  settle_item-Wrote committed i items db out unique_violation {progress} h =
      elim (Bool-cases (is_empty key)) [
        | inl keyless ↦ absurd (err-ne-ok (rw keyless at h))
        | inr keyed ↦ go keyed (find_batch e key ik_hash committed) refl (rw keyed at h)
      ]
    where
      go :
          is_empty key ≡ false
          → (r : Result Error (Option (List Transaction))) → find_batch e key ik_hash committed ≡ r
          → settle_item i unique_violation r ≡ ok progress
          → Wrote committed i items db out progress
      go keyed (err failure) found h = cc
      go keyed (ok none) found h = cc
      go keyed (ok (some ts)) found h =
          subst (Wrote committed i items db out) (ok-injective h) (keyed, found)
  settle_item-Wrote committed i items db out error h = cc

  Wrote-next :
      (committed : Db) (i : ℕ) (item : BatchItem) (items : List BatchItem) (db mid : Db)
      (t : Transaction) (out : List Transaction) (progress : Progress)
      → Appended e
          (item_attempt m db)
          item.postings
          (item_commit i key ik_hash item)
          (first_only i ik_hash)
          mid
          t
      → Wrote committed (suc i) items mid (out ++ t ∷ []) progress
      → commit_once e
          (item_attempt m db)
          item.postings
          (item_commit i key ik_hash item)
          (first_only i ik_hash)
        ≡ ok (mid, t)
      → Wrote committed i (item ∷ items) db out progress
  Wrote-next committed i item items db mid t out (answered ts) appended rest once = rest
  Wrote-next committed i item items db mid t out (written after ts) appended (new, entered, same)
        once =
      (t ∷ new, (mid, t, new, appended, entered, refl, once), same ∙ append_assoc out (t ∷ []) new)

  write_items-Wrote :
      (committed : Db) (i : ℕ) (items : List BatchItem) (db : Db) (out : List Transaction)
      {progress : Progress}
      → write_items e m key ik_hash committed i items db out ≡ ok progress
      → Wrote committed i items db out progress
  unfolding write_items
  write_items-Wrote committed i [] db out h =
      subst (Wrote committed i [] db out) (ok-injective h) ([], (refl, refl), sym (append-nil out))
  write_items-Wrote committed i (item ∷ items) db out {progress} h =
      let ((applied, t, alloc), by_apply, h1) =
        >>=-eq-ok (at_item i (apply_transaction m (item_options key ik_hash item) item.postings db))
          _ h in
      go applied t alloc (at_item-eq-ok i _ by_apply)
        (append_log e t alloc (first_only i key) (first_only i ik_hash) applied.ledger applied.logs)
        refl
        (λ row logs.
          write_items-Wrote committed (suc i) items (record applied { ledger = row; logs = logs })
            (out ++ t ∷ []))
        h1
    where
      go :
          (applied : Db) (t : Transaction) (alloc : Allocation)
          → apply_transaction m (item_options key ik_hash item) item.postings db
            ≡ ok (applied, t, alloc)
          → (r : Result Error (Option LedgerRow × List Log))
          → append_log e t alloc
              (first_only i key)
              (first_only i ik_hash)
              applied.ledger
              applied.logs
            ≡ r
          → ((row : Option LedgerRow) (logs : List Log)
              → write_items e m key ik_hash committed
                  (suc i)
                  items
                  (record applied { ledger = row; logs = logs })
                  (out ++ t ∷ [])
                ≡ ok progress
              → Wrote committed
                  (suc i)
                  items
                  (record applied { ledger = row; logs = logs })
                  (out ++ t ∷ [])
                  progress)
          → elim r as (λ _. Result Error Progress) [
            | err error ↦ settle_item i error (batch_race e key ik_hash committed error)
            | ok (row, logs) ↦
                write_items e m key ik_hash committed
                  (suc i)
                  items
                  (record applied { ledger = row; logs = logs })
                  (out ++ t ∷ [])
          ]
            ≡ ok progress
          → Wrote committed i (item ∷ items) db out progress
      go applied t alloc by_apply (err error) found ih h =
          settle_item-Wrote committed i (item ∷ items) db out error h
      go applied t alloc by_apply (ok (row, logs)) found ih h =
          Wrote-next committed i item items db (record applied { ledger = row; logs = logs }) t out
            progress
            (record {
              applied = applied;
              alloc = alloc;
              ledger = row;
              logs = logs;
              by_apply =
                  apply_transaction-Applied m (item_options key ik_hash item) item.postings db
                    by_apply;
              by_log = found;
              result = refl;
            })
            (ih row logs h) (commit_item i item db applied t alloc row logs by_apply found)

module _ (e : Encoding) (a : Attempt) (items : List BatchItem) (opts : CommitOptions)
    (ik_hash : Bytes) where
  -- What an attempt that wrote has done, from its locks on.
  pub record Batched (after : Db) (ts : List Transaction) : Type 0 where
    pub updates : List VolumeUpdate
    pub collected : collect_updates 0 items [] ≡ ok updates
    pub entered :
        Entered e a.moment opts.idempotency_key ik_hash 0 items
          (lock_volumes a.db (sort_updates updates)).0
          after
          ts
    pub wet : opts.dry_run ≡ false

  -- What an attempt that wrote nothing has done: a dry run, or an answer from what is stored.
  abbrev pub Unwritten : Db → List Transaction → Type 0
  Unwritten after ts =
      (after ≡ a.db)
      × ((opts.dry_run ≡ true)
          ⊎ (Stored e a.moment opts.idempotency_key ik_hash a.seen ts
              ⊎ Stored e a.moment opts.idempotency_key ik_hash a.db ts))

  finish_batch-cases :
      (updates : List VolumeUpdate) (fault : Option Error) (dry_run : Bool) (progress : Progress)
      {after : Db} {ts : List Transaction}
      → collect_updates 0 items [] ≡ ok updates
      → opts.dry_run ≡ dry_run
      → Wrote e a.moment opts.idempotency_key ik_hash a.db 0 items
          (lock_volumes a.db (sort_updates updates)).0
          []
          progress
      → finish_batch e fault dry_run a.db progress ≡ ok (after, ts)
      → Unwritten after ts ⊎ Batched after ts
  finish_batch-cases updates fault dry_run (answered found) collected dry w h =
      subst (λ (z : Db × List Transaction). Unwritten z.0 z.1 ⊎ Batched z.0 z.1) (ok-injective h)
        (inl (refl, inr (inr w)))
  finish_batch-cases updates (some fault) dry_run (written db out) collected dry w h = cc
  finish_batch-cases updates none true (written db out) collected dry w h =
      inl (sym (ap (λ z. z.0) (ok-injective h)), inl dry)
  finish_batch-cases updates none false (written db out) collected dry (new, entered, same) h =
      inr (
        subst (λ (z : Db × List Transaction). Batched z.0 z.1) (ok-injective h)
          (record {
            updates = updates;
            collected = collected;
            entered =
                subst
                  (Entered e a.moment opts.idempotency_key ik_hash 0 items
                    (lock_volumes a.db (sort_updates updates)).0 db)
                  (sym same) entered;
            wet = dry;
          }))

  pub lock_and_write-cases :
      {after : Db} {ts : List Transaction}
      → lock_and_write e a items opts ik_hash ≡ ok (after, ts)
      → Unwritten after ts ⊎ Batched after ts
  unfolding lock_batch
  lock_and_write-cases h =
      let (locked, by_lock, h1) = >>=-eq-ok (lock_batch items a.db) _ h in
      let (updates, collected, h2) = >>=-eq-ok (collect_updates 0 items []) _ by_lock in
      let (progress, wrote, h3) =
        >>=-eq-ok (write_items e a.moment opts.idempotency_key ik_hash a.db 0 items locked []) _
          h1 in
      finish_batch-cases updates a.fault opts.dry_run progress collected refl
        (subst (λ db. Wrote e a.moment opts.idempotency_key ik_hash a.db 0 items db [] progress)
          (sym (ok-injective h2))
          (write_items-Wrote e a.moment opts.idempotency_key ik_hash a.db 0 items locked [] wrote))
        h3

  replay_found :
      {ts : List Transaction}
      → find_batch_replay e opts.idempotency_key ik_hash a.seen ≡ ok (some ts)
      → Stored e a.moment opts.idempotency_key ik_hash a.seen ts
  replay_found h = elim (Bool-cases (is_empty opts.idempotency_key)) [
    | inl keyless ↦ absurd (cc (rw keyless at h))
    | inr keyed ↦ (keyed, rw keyed at h)
  ]

  -- An attempt at a batch that succeeds leaves the database as it was, or has written every item.
  pub commit_batch_once-cases :
      {after : Db} {ts : List Transaction}
      → commit_batch_once e a items opts ik_hash ≡ ok (after, ts)
      → Unwritten after ts ⊎ Batched after ts
  unfolding commit_batch_once
  commit_batch_once-cases h =
      let (existing, found, h1) =
        >>=-eq-ok (find_batch_replay e opts.idempotency_key ik_hash a.seen) _ h in
      go existing found h1
    where
      go :
          (existing : Option (List Transaction)) {after : Db} {ts : List Transaction}
          → find_batch_replay e opts.idempotency_key ik_hash a.seen ≡ ok existing
          → elim existing as (λ _. Result Error (Db × List Transaction)) [
            | some ts ↦ ok (a.db, ts)
            | none ↦ lock_and_write e a items opts ik_hash
          ]
            ≡ ok (after, ts)
          → Unwritten after ts ⊎ Batched after ts
      go (some ts) found h =
          subst (λ (z : Db × List Transaction). Unwritten z.0 z.1 ⊎ Batched z.0 z.1)
            (ok-injective h) (inl (refl, inr (inl (replay_found found))))
      go none found h = lock_and_write-cases h
