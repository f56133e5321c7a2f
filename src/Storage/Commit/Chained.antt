-- ===== src/Storage/Commit/Chained.antt =====
-- A commit extends the log by one entry that links to its end.
use giro.Prelude.{◌≡◌, sym, ap, ◌∙◌, subst, some, ok, inl, inr, Bytes}
use giro.Ledger.Posting.{Postings}
use giro.Storage.Schema.{Db, LedgerRow, Transaction}
use giro.Storage.Locking.{lock_volumes}
use giro.Storage.Encoding.{Encoding}
use giro.Storage.Log.{allocate, append_log}
use giro.Storage.Log.Chain.{IsChained, append_log_entry-IsChained, allocate-Follows}
use giro.Storage.Commit.{CommitOptions, Attempt, commit_once}
use giro.Storage.Commit.Inversion.{Appended, commit_once-cases}

module _ (e : Encoding) where
  -- The ledger exists, its log verifies, and its row holds the end of the chain.
  abbrev pub IsChainedDb : Db → Type 0
  IsChainedDb db = (row : LedgerRow) × (db.ledger ≡ some row) × IsChained e row db.logs

  pub Appended-IsChainedDb :
      (a : Attempt) (p : Postings) (opts : CommitOptions) (ik_hash : Bytes) {after : Db}
      {t : Transaction}
      → IsChainedDb a.db
      → Appended e a p opts ik_hash after t
      → IsChainedDb after
  unfolding lock_volumes append_log
  Appended-IsChainedDb a p opts ik_hash {t = t} (row, found, chained) x =
      let w = x.by_apply.written in
      let allocated = ap allocate (sym found) ∙ w.allocated in
      let logged =
        ap (λ l. append_log e t x.alloc opts.idempotency_key ik_hash l x.applied.logs)
          (sym w.ledger)
        ∙ x.by_log in
      let (row', stored, chained') =
        append_log_entry-IsChained e row w.row x.alloc _ _ _ opts.idempotency_key ik_hash
          x.applied.logs (allocate-Follows row allocated)
          (subst (IsChained e row) (sym w.logs) chained) logged in
      (
        row',
        ap (λ db. db.ledger) x.result ∙ stored,
        subst (IsChained e row') (ap (λ db. db.logs) (sym x.result)) chained',
      )

  -- If VerifyLog accepts the log and the row of the ledger holds its last hash and last id, that is
  -- so after an attempt of commitOnce that succeeds.
  pub commit_once-IsChainedDb :
      (a : Attempt) (p : Postings) (opts : CommitOptions) (ik_hash : Bytes) {after : Db}
      {t : Transaction}
      → IsChainedDb a.db
      → commit_once e a p opts ik_hash ≡ ok (after, t)
      → IsChainedDb after
  commit_once-IsChainedDb a p opts ik_hash h c = elim (commit_once-cases e a p opts ik_hash c) [
    | inl same ↦ subst IsChainedDb (sym same) h
    | inr x ↦ Appended-IsChainedDb a p opts ik_hash h x
  ]
