-- ===== src/Storage/Commit/Inversion.antt =====
-- What a commit that succeeded has done, step by step: the facts that the other proofs start from.
use giro.Prelude.{
  ◌≡◌, refl, sym, ap, ◌∙◌, subst, Bool, true, false, Option, none, some, List, [], ◌∷◌, ◌++◌,
  Result, ok, err, ok-injective, err-ne-ok, >>=-eq-ok, inl, inr, ◌⊎◌, Bytes, Bool-cases, any,
}
use giro.Ledger.Posting.{Postings, NilAmount, has_up_to}
use giro.Ledger.Posting as Posting
use giro.Ledger.Volumes.{VolumeUpdate, volume_updates}
use giro.Storage.Schema.{Db, LedgerRow, Transaction, Time, Error, Log, unique_violation}
use giro.Storage.Locking.{Locks, lock_volumes, apply_volumes}
use giro.Storage.Guards.{check_balances, check_closed}
use giro.Storage.Sweep.{resolve_up_to}
use giro.Storage.Moves.{effective_volumes_at, queue_moves}
use giro.Storage.Rows.{insert_transaction, queue_accounts, is_empty, violates_unique}
use giro.Storage.Log.{Allocation, allocate, append_log, find_by_idempotency_key}
use giro.Storage.Encoding.{Encoding}
use giro.Storage.Commit.{
  CommitOptions, ApplyOptions, Moment, Attempt, or_nil_amount, resolve, effective_timestamp,
  draft_transaction, write_transaction, apply_transaction, finish_attempt, log_transaction,
  commit_once, find_replay, apply_and_log, settle_race,
}

pub or_nil_amount-eq-ok {ℓ} :
    {A : Type ℓ} (r : Result NilAmount A) {a : A} → or_nil_amount r ≡ ok a → r ≡ ok a
or_nil_amount-eq-ok (ok b) h = ap ok (ok-injective h)
or_nil_amount-eq-ok (err (Posting.nil_amount i)) h = cc

-- What `write_transaction` did to each table.
pub record Written (m : Moment) (opts : ApplyOptions) (before : Locks) (p : Postings)
    (us : List VolumeUpdate) (db after : Db) (t : Transaction) (alloc : Allocation) : Type 0 where
  pub row : LedgerRow
  pub timestamp : Time
  pub timestamped : timestamp ≡ effective_timestamp opts.timestamp m.now
  pub volumes : apply_volumes us db.volumes ≡ ok after.volumes
  pub allocated : allocate db.ledger ≡ ok (row, alloc)
  pub ledger : after.ledger ≡ some row
  pub assets : after.assets ≡ db.assets
  pub inserted :
      insert_transaction m.db_now
        (draft_transaction opts timestamp before (p, us) alloc)
        db.transactions
      ≡ ok (after.transactions, t)
  pub accounts : after.accounts ≡ queue_accounts m.db_now timestamp us db.accounts
  pub moves :
      after.moves ≡ queue_moves t before (effective_volumes_at db.moves timestamp) us db.moves
  pub logs : after.logs ≡ db.logs

-- The row that `insertTransaction` stores is the draft with the database's date, and it comes last.
pub insert_transaction-eq-ok :
    (db_now : Time) (draft : Transaction) (rows : List Transaction) {rows' : List Transaction}
    {t : Transaction}
    → insert_transaction db_now draft rows ≡ ok (rows', t)
    → (t ≡ record draft { inserted_at = db_now })
      × (rows' ≡ rows ++ t ∷ [])
      × (any (violates_unique draft) rows ≡ false)
unfolding insert_transaction
insert_transaction-eq-ok db_now draft rows h =
    elim (Bool-cases (any (violates_unique draft) rows)) [
      | inl clash ↦ absurd (err-ne-ok (rw (insert_transaction, clash) at h))
      | inr fresh ↦
          let same = ok-injective (rw (insert_transaction, fresh) at h) in
          (
            sym (ap (λ z. z.1) same),
            sym (ap (λ z. z.0) same) ∙ ap (λ s. rows ++ s ∷ []) (ap (λ z. z.1) same),
            fresh,
          )
    ]

module _ {m : Moment} {opts : ApplyOptions} {before : Locks} {p : Postings} {us : List VolumeUpdate}
    {db after : Db} {t : Transaction} {alloc : Allocation}
    (w : Written m opts before p us db after t alloc) where
  pub written-transaction :
      t
      ≡ record (draft_transaction opts w.timestamp before (p, us) alloc) { inserted_at = m.db_now }
  written-transaction = (insert_transaction-eq-ok m.db_now _ db.transactions w.inserted).0

  pub written-transactions : after.transactions ≡ db.transactions ++ t ∷ []
  written-transactions = (insert_transaction-eq-ok m.db_now _ db.transactions w.inserted).1

write_transaction-Written :
    (m : Moment) (opts : ApplyOptions) (before : Locks) (p : Postings) (us : List VolumeUpdate)
    (db : Db) {after : Db} {t : Transaction} {alloc : Allocation}
    → write_transaction m opts before (p, us) db ≡ ok (after, t, alloc)
    → Written m opts before p us db after t alloc
unfolding write_transaction
write_transaction-Written m opts before p us db {after} {t} {alloc} h =
    let (volumes, applied, h1) = >>=-eq-ok (apply_volumes us db.volumes) _ h in
    let (allocation, allocated, h2) = >>=-eq-ok (allocate db.ledger) _ h1 in
    let (stored, inserted, h3) =
      >>=-eq-ok
        (insert_transaction m.db_now
          (draft_transaction opts (effective_timestamp opts.timestamp m.now) before (p, us)
            allocation.1)
          db.transactions)
        _ h2 in
    subst (λ z. Written m opts before p us db z.0 z.1 z.2) (ok-injective h3)
      (record {
        row = allocation.0;
        timestamp = effective_timestamp opts.timestamp m.now;
        timestamped = refl;
        volumes = applied;
        allocated = allocated;
        ledger = refl;
        assets = refl;
        inserted = inserted;
        accounts = refl;
        moves = refl;
        logs = refl;
      })

-- What `resolve` leaves: deltas that are those of the postings it leaves.
resolve-eq-ok :
    (p : Postings) (before : Locks) (named : List VolumeUpdate) {q : Postings}
    {us : List VolumeUpdate}
    → volume_updates p ≡ ok named
    → resolve p before named ≡ ok (q, us)
    → volume_updates q ≡ ok us
unfolding resolve
resolve-eq-ok p before named counted h = elim (Bool-cases (has_up_to p)) [
  | inl sweeps ↦
      let h' = rw (sweeps, resolve) at h in
      let (q, swept, h1) = >>=-eq-ok (resolve_up_to p before) _ h' in
      let (us, recounted, h2) = >>=-eq-ok (or_nil_amount (volume_updates q)) _ h1 in
      subst (λ z. volume_updates z.0 ≡ ok z.1) (ok-injective h2) (or_nil_amount-eq-ok _ recounted)
  | inr fixed ↦
      let h' = rw (fixed, resolve) at h in
      subst (λ z. volume_updates z.0 ≡ ok z.1) (ok-injective h') counted
]

-- What `applyTransaction` did: the pairs it locked, the resolved postings and their deltas.
pub record Applied (m : Moment) (opts : ApplyOptions) (p : Postings) (db after : Db)
    (t : Transaction) (alloc : Allocation) : Type 0 where
  pub named : List VolumeUpdate
  pub postings : Postings
  pub updates : List VolumeUpdate
  pub counted : volume_updates p ≡ ok named
  pub resolved : resolve p (lock_volumes db named).1 named ≡ ok (postings, updates)
  pub recounted : volume_updates postings ≡ ok updates
  pub unclosed : check_closed (lock_volumes db named).1 updates ≡ ok tt
  pub within : check_balances (lock_volumes db named).1 updates ≡ ok tt
  pub written :
      Written m opts
        (lock_volumes db named).1
        postings
        updates
        (lock_volumes db named).0
        after
        t
        alloc

pub apply_transaction-Applied :
    (m : Moment) (opts : ApplyOptions) (p : Postings) (db : Db) {after : Db} {t : Transaction}
    {alloc : Allocation}
    → apply_transaction m opts p db ≡ ok (after, t, alloc)
    → Applied m opts p db after t alloc
unfolding apply_transaction
apply_transaction-Applied m opts p db h =
    let (named, counted, h1) = >>=-eq-ok (or_nil_amount (volume_updates p)) _ h in
    let before = (lock_volumes db named).1 in
    let (resolution, resolved, h2) = >>=-eq-ok (resolve p before named) _ h1 in
    let (_, unclosed, h3) = >>=-eq-ok (check_closed before resolution.1) _ h2 in
    let (_, within, written) = >>=-eq-ok (check_balances before resolution.1) _ h3 in
    record {
      named = named;
      postings = resolution.0;
      updates = resolution.1;
      counted = or_nil_amount-eq-ok _ counted;
      resolved = resolved;
      recounted = resolve-eq-ok p before named (or_nil_amount-eq-ok _ counted) resolved;
      unclosed = unclosed;
      within = within;
      written = write_transaction-Written m opts before resolution.0 resolution.1 _ written;
    }

abbrev pub apply_options : CommitOptions → ApplyOptions
apply_options opts = record {
  timestamp = opts.timestamp;
  reference = opts.reference;
  metadata = opts.metadata;
}

module _ (e : Encoding) where
  -- What an attempt that wrote has done: everything of `applyTransaction`, and the log entry.
  pub record Appended (a : Attempt) (p : Postings) (opts : CommitOptions) (ik_hash : Bytes)
      (after : Db) (t : Transaction) : Type 0 where
    pub applied : Db
    pub alloc : Allocation
    pub ledger : Option LedgerRow
    pub logs : List Log
    pub by_apply : Applied a.moment (apply_options opts) p a.db applied t alloc
    pub by_log :
        append_log e t alloc opts.idempotency_key ik_hash applied.ledger applied.logs
        ≡ ok (ledger, logs)
    pub result : after ≡ record applied { ledger = ledger; logs = logs }

  pub settle_race-unchanged :
      (key ik_hash : Bytes) (db : Db) (error : Error) {after : Db} {t : Transaction}
      → settle_race e key ik_hash db error ≡ ok (after, t)
      → after ≡ db
  settle_race-unchanged key ik_hash db unique_violation h = elim (Bool-cases (is_empty key)) [
    | inl keyless ↦ absurd (err-ne-ok (rw keyless at h))
    | inr keyed ↦
        let (winner, found, h1) =
          >>=-eq-ok (find_by_idempotency_key e key ik_hash db.logs) _ (rw keyed at h) in
        winner_of winner h1
  ]
    where
      winner_of :
          (winner : Option Transaction) {after : Db} {t : Transaction}
          → elim winner as (λ _. Result Error (Db × Transaction)) [
            | some t ↦ ok (db, t)
            | none ↦ err unique_violation
          ]
            ≡ ok (after, t)
          → after ≡ db
      winner_of (some t) h = sym (ap (λ z. z.0) (ok-injective h))
      winner_of none h = cc
  settle_race-unchanged key ik_hash db error h = cc

  finish_attempt-cases :
      (fault : Option Error) (dry_run : Bool) (db written : Db) (t : Transaction) {after : Db}
      {t' : Transaction}
      → finish_attempt e fault dry_run db written t ≡ ok (after, t')
      → (after ≡ db) ⊎ ((after ≡ written) × (t' ≡ t))
  finish_attempt-cases (some fault) dry_run db written t h = cc
  finish_attempt-cases none true db written t h = inl (sym (ap (λ z. z.0) (ok-injective h)))
  finish_attempt-cases none false db written t h =
      inr (sym (ap (λ z. z.0) (ok-injective h)), sym (ap (λ z. z.1) (ok-injective h)))

  module _ (a : Attempt) (p : Postings) (opts : CommitOptions) (ik_hash : Bytes) where
    log_transaction-cases :
        (applied : Db) (t : Transaction) (alloc : Allocation) {after : Db} {t' : Transaction}
        → Applied a.moment (apply_options opts) p a.db applied t alloc
        → log_transaction e opts.idempotency_key ik_hash a.fault opts.dry_run a.db
            (applied, t, alloc)
          ≡ ok (after, t')
        → (after ≡ a.db) ⊎ Appended a p opts ik_hash after t'
    log_transaction-cases applied t alloc {after} {t'} by_apply h =
        go (append_log e t alloc opts.idempotency_key ik_hash applied.ledger applied.logs) refl
      where
        go :
            (r : Result Error (Option LedgerRow × List Log))
            → append_log e t alloc opts.idempotency_key ik_hash applied.ledger applied.logs ≡ r
            → (after ≡ a.db) ⊎ Appended a p opts ik_hash after t'
        go (err error) found = inl (
            settle_race-unchanged opts.idempotency_key ik_hash a.db error
              (rw (log_transaction, found) at h))
        go (ok (ledger, logs)) found =
            elim (finish_attempt-cases a.fault opts.dry_run a.db _ t
              (rw (log_transaction, found) at h)) [
                | inl same ↦ inl same
                | inr (written, returned) ↦ inr (
                    subst (Appended a p opts ik_hash after) (sym returned) (record {
                      applied = applied;
                      alloc = alloc;
                      ledger = ledger;
                      logs = logs;
                      by_apply = by_apply;
                      by_log = found;
                      result = written;
                    }))
              ]

    -- An attempt that succeeds leaves the database as it was, or has written all of it.
    pub commit_once-cases :
        {after : Db} {t : Transaction}
        → commit_once e a p opts ik_hash ≡ ok (after, t)
        → (after ≡ a.db) ⊎ Appended a p opts ik_hash after t
    unfolding commit_once
    commit_once-cases h =
        let (existing, found, h1) =
          >>=-eq-ok (find_replay e opts.idempotency_key ik_hash a.seen) _ h in
        go existing h1
      where
        go :
            (existing : Option Transaction) {after : Db} {t : Transaction}
            → elim existing as (λ _. Result Error (Db × Transaction)) [
              | some t ↦ ok (a.db, t)
              | none ↦ apply_and_log e a p opts ik_hash
            ]
              ≡ ok (after, t)
            → (after ≡ a.db) ⊎ Appended a p opts ik_hash after t
        go (some t) h = inl (sym (ap (λ z. z.0) (ok-injective h)))
        go none h =
            let ((applied, t, alloc), by_apply, h2) =
              >>=-eq-ok (apply_transaction a.moment (apply_options opts) p a.db) _ h in
            log_transaction-cases applied t alloc (apply_transaction-Applied _ _ p a.db by_apply) h2
