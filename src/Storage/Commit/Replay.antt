-- ===== src/Storage/Commit/Replay.antt =====
-- Idempotency keys and dry runs: the attempts that answer without writing.
use giro.Prelude.{
  ◌≡◌, refl, sym, ap, ◌∙◌, Bool, true, false, Option, some, none, List, Result, ok, err, inl, inr,
  Bytes, ok-injective, err-ne-ok, >>=-eq-ok, Bool-cases, All,
}
use giro.Ledger.Posting.{Postings}
use giro.Ledger.Posting.Validation.{PostingIsValid}
use giro.Storage.Schema.{
  Db, LedgerRow, Transaction, Log, Error, unique_violation, idempotency_mismatch,
}
use giro.Storage.Rows.{is_empty, same_bytes}
use giro.Storage.Encoding.{Encoding, RoundTrips}
use giro.Storage.Log.{Allocation, append_log, find_key, find_by_idempotency_key}
use giro.Storage.Log.Chain.{same_bytes_refl}
use giro.Storage.Log.Keys.{logged_entry, find_key-append_log, append_log-clash}
use giro.Storage.Commit.{
  CommitOptions, Attempt, apply_transaction, commit_once, find_replay, apply_and_log,
  log_transaction, settle_race, finish_attempt,
}
use giro.Storage.Commit.Inversion.{apply_options, apply_transaction-Applied, settle_race-unchanged}

module _ (e : Encoding) (a : Attempt) (p : Postings) (opts : CommitOptions) (ik_hash : Bytes) where
  -- The request of a key that is used: the answer is read from the log, and nothing is written.
  pub replay_used_key :
      (t : Transaction)
      → is_empty opts.idempotency_key ≡ false
      → find_by_idempotency_key e opts.idempotency_key ik_hash a.seen.logs ≡ ok (some t)
      → commit_once e a p opts ik_hash ≡ ok (a.db, t)
  unfolding commit_once
  replay_used_key t keyed found = rw (commit_once, keyed, found)

  -- An attempt whose key stands in the log with the hash of another request is refused as a
  -- mismatch.
  pub refuse_reused_key :
      (l : Log)
      → is_empty opts.idempotency_key ≡ false
      → find_key opts.idempotency_key a.seen.logs ≡ some l
      → same_bytes l.idempotency_hash ik_hash ≡ false
      → commit_once e a p opts ik_hash ≡ err idempotency_mismatch
  unfolding commit_once find_by_idempotency_key
  refuse_reused_key l keyed found other = rw (commit_once, keyed, found, other)

module _ (e : Encoding) (a : Attempt) (p : Postings) (opts : CommitOptions) (ik_hash : Bytes) where
  finish_dry :
      (db after : Db) (t : Transaction) {left : Db} {returned : Transaction}
      → finish_attempt e a.fault true db after t ≡ ok (left, returned)
      → left ≡ db
  finish_dry db after t h = go a.fault h
    where
      go :
          (fault : Option Error) {left : Db} {returned : Transaction}
          → finish_attempt e fault true db after t ≡ ok (left, returned)
          → left ≡ db
      go none h = sym (ap (λ z. z.0) (ok-injective h))
      go (some fault) h = cc

  -- What the tail of an attempt that is no dry run has done, when its key is not used.
  logged-cases :
      (applied : Db) (t : Transaction) (alloc : Allocation)
      (r : Result Error (Option LedgerRow × List Log)) {after : Db} {returned : Transaction}
      → append_log e t alloc opts.idempotency_key ik_hash applied.ledger applied.logs ≡ r
      → log_transaction e opts.idempotency_key ik_hash a.fault opts.dry_run a.db (applied, t, alloc)
        ≡ ok (after, returned)
      → (opts.dry_run ≡ true → after ≡ a.db)
        × (find_by_idempotency_key e opts.idempotency_key ik_hash a.db.logs ≡ ok none
            → opts.dry_run ≡ false
            → (returned ≡ t)
              × ((row : Option LedgerRow) × (append_log e t alloc opts.idempotency_key ik_hash
                      applied.ledger applied.logs
                    ≡ ok (row, after.logs))))
  logged-cases applied t alloc (err error) found h =
      let raced = rw (log_transaction, found) at h in
      (
        λ dry. settle_race-unchanged e opts.idempotency_key ik_hash a.db error raced,
        λ unused wet. absurd (no_race error unused raced),
      )
    where
      no_race :
          (error : Error) {after : Db} {returned : Transaction}
          → find_by_idempotency_key e opts.idempotency_key ik_hash a.db.logs ≡ ok none
          → settle_race e opts.idempotency_key ik_hash a.db error ≡ ok (after, returned)
          → ⊥
      no_race unique_violation unused h = elim (Bool-cases (is_empty opts.idempotency_key)) [
        | inl keyless ↦ err-ne-ok (rw keyless at h)
        | inr keyed ↦ err-ne-ok (rw (keyed, unused) at h)
      ]
      no_race error unused h = cc
  logged-cases applied t alloc (ok (row, logs)) found h =
      finished a.fault opts.dry_run (rw (log_transaction, found) at h)
    where
      finished :
          (fault : Option Error) (dry_run : Bool) {after : Db} {returned : Transaction}
          → finish_attempt e fault dry_run a.db (record applied { ledger = row; logs = logs }) t
            ≡ ok (after, returned)
          → (dry_run ≡ true → after ≡ a.db)
            × (find_by_idempotency_key e opts.idempotency_key ik_hash a.db.logs ≡ ok none
                → dry_run ≡ false
                → (returned ≡ t)
                  × ((row : Option LedgerRow) × (append_log e t alloc opts.idempotency_key ik_hash
                          applied.ledger applied.logs
                        ≡ ok (row, after.logs))))
      finished (some fault) dry_run h = cc
      finished none true h = (λ dry. sym (ap (λ z. z.0) (ok-injective h)), λ unused wet. cc)
      finished none false h = (
        λ dry. cc,
        λ unused wet. (
          sym (ap (λ z. z.1) (ok-injective h)),
          (row, found ∙ ap (λ z. ok (row, z.0.logs)) (ok-injective h)),
        ),
      )

  -- A dry run that succeeds leaves the database as it was.
  pub dry_run-unchanged :
      {after : Db} {t : Transaction}
      → opts.dry_run ≡ true
      → commit_once e a p opts ik_hash ≡ ok (after, t)
      → after ≡ a.db
  unfolding commit_once
  dry_run-unchanged dry h =
      let (existing, found, h1) =
        >>=-eq-ok (find_replay e opts.idempotency_key ik_hash a.seen) _ h in
      go existing h1
    where
      go :
          (existing : Option Transaction) {after : Db} {t : Transaction}
          → elim existing as (λ _. Result Error (Db × Transaction)) [
            | some t ↦ ok (a.db, t)
            | none ↦ apply_and_log e a p opts ik_hash
          ]
            ≡ ok (after, t)
          → after ≡ a.db
      go (some t) h = sym (ap (λ z. z.0) (ok-injective h))
      go none h =
          let ((applied, t, alloc), by_apply, h2) =
            >>=-eq-ok (apply_transaction a.moment (apply_options opts) p a.db) _ h in
          (logged-cases applied t alloc _ refl h2).0 dry

  -- What an attempt under an unused key, and no dry run, has done when it succeeds.
  written_new :
      {after : Db} {t : Transaction}
      → is_empty opts.idempotency_key ≡ false
      → opts.dry_run ≡ false
      → find_key opts.idempotency_key a.seen.logs ≡ none
      → find_key opts.idempotency_key a.db.logs ≡ none
      → commit_once e a p opts ik_hash ≡ ok (after, t)
      → (alloc : Allocation) × (find_key opts.idempotency_key after.logs
          ≡ some (logged_entry e t alloc opts.idempotency_key ik_hash))
  unfolding commit_once find_by_idempotency_key
  written_new {after} {t} keyed wet unseen unused h =
      let h1 = rw (keyed, unseen) at h in
      let ((applied, u, alloc), by_apply, h2) =
        >>=-eq-ok (apply_transaction a.moment (apply_options opts) p a.db) _ h1 in
      let (returned, (row, logged)) = (logged-cases applied u alloc _ refl h2).1 (rw unused) wet in
      let same_logs =
        (apply_transaction-Applied a.moment (apply_options opts) p a.db by_apply).written.logs in
      (
        alloc,
        find_key-append_log e u alloc opts.idempotency_key ik_hash applied.ledger applied.logs keyed
              (ap (find_key opts.idempotency_key) same_logs ∙ unused) logged
            ∙ ap (λ s. some (logged_entry e s alloc opts.idempotency_key ik_hash)) (sym returned),
      )

  -- If an attempt that is no dry run succeeds under a key that neither its lookup nor the locked
  -- database has, with valid postings, every attempt of the same request that sees what it left
  -- writes nothing and returns a transaction of the same id and postings, given that JSON keeps
  -- these.
  pub commit_exactly_once :
      RoundTrips e
      → {after : Db} {t : Transaction} (b : Attempt) → is_empty opts.idempotency_key ≡ false
      → opts.dry_run ≡ false
      → find_key opts.idempotency_key a.seen.logs ≡ none
      → find_key opts.idempotency_key a.db.logs ≡ none
      → commit_once e a p opts ik_hash ≡ ok (after, t)
      → All PostingIsValid t.postings
      → b.seen ≡ after
      → (d : Transaction) × (commit_once e b p opts ik_hash ≡ ok (b.db, d))
        × (d.id ≡ t.id)
        × (d.postings ≡ t.postings)
  unfolding find_by_idempotency_key
  commit_exactly_once trips {t = t} b keyed wet unseen unused h valid sees =
      let (alloc, found) = written_new keyed wet unseen unused h in
      let (d, decoded, same_id, same_postings) = trips.transaction t valid in
      let seen = ap (λ db. find_key opts.idempotency_key db.logs) sees ∙ found in
      (
        d,
        replay_used_key e b p opts ik_hash d keyed
            (rw (seen, same_bytes_refl ik_hash, decoded) refl),
        same_id,
        same_postings,
      )

  -- An attempt that saw its key unused and finds it under the locks, with the same request, returns
  -- the transaction of the entry there and writes nothing, if it decodes and applyTransaction
  -- succeeds.
  pub loser_returns_winner :
      (l : Log) (winner : Transaction) {applied : Db} {t : Transaction} {alloc : Allocation}
      → is_empty opts.idempotency_key ≡ false
      → find_key opts.idempotency_key a.seen.logs ≡ none
      → apply_transaction a.moment (apply_options opts) p a.db ≡ ok (applied, t, alloc)
      → find_key opts.idempotency_key a.db.logs ≡ some l
      → l.idempotency_hash ≡ ik_hash
      → e.unmarshal_transaction l.content ≡ some winner
      → commit_once e a p opts ik_hash ≡ ok (a.db, winner)
  unfolding commit_once find_by_idempotency_key
  loser_returns_winner l winner {applied} {t} {alloc} keyed unseen by_apply used same decoded =
      let same_logs =
        (apply_transaction-Applied a.moment (apply_options opts) p a.db by_apply).written.logs in
      let clash =
        append_log-clash e t alloc opts.idempotency_key ik_hash applied.ledger applied.logs keyed
          (ap (find_key opts.idempotency_key) same_logs ∙ used) in
      rw
        (
          keyed,
          unseen,
          by_apply,
          log_transaction,
          clash,
          settle_race,
          keyed,
          used,
          same,
          same_bytes_refl ik_hash,
          decoded,
        )
        refl
