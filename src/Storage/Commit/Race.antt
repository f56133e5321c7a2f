-- ===== src/Storage/Commit/Race.antt =====
-- An idempotency race between two requests that also carry a reference.
use giro.Prelude.{
  ◌≡◌, ◌≢◌, sym, ◌∙◌, Bool, true, false, some, none, List, [], ◌∷◌, ok, inl, inr, arith, Bytes,
  >>=-eq-ok, Bool-cases, any,
}
use giro.Ledger.Posting.{Postings}
use giro.Storage.Schema.{Db, Transaction}
use giro.Storage.Locking.{lock_volumes}
use giro.Storage.Rows.{is_empty, same_bytes, violates_unique}
use giro.Storage.Encoding.{Encoding}
use giro.Storage.Log.{find_key, find_by_idempotency_key}
use giro.Storage.Commit.{
  CommitOptions, Attempt, apply_transaction, commit_once, log_transaction, draft_transaction,
}
use giro.Storage.Commit.Inversion.{
  apply_options, apply_transaction-Applied, insert_transaction-eq-ok,
}

-- Some row has the reference.
abbrev pub reference_used : Bytes → List Transaction → Bool
reference_used reference rows = any (λ row. same_bytes reference row.reference) rows

violates_unique-reference_used :
    (t : Transaction) (rows : List Transaction)
    → is_empty t.reference ≡ false
    → reference_used t.reference rows ≡ true
    → any (violates_unique t) rows ≡ true
unfolding violates_unique
violates_unique-reference_used t [] named used = cc
violates_unique-reference_used t (row ∷ rows) named used =
    elim (Bool-cases (same_bytes t.reference row.reference)) [
      | inl same ↦ rw (named, same) (ground arith)
      | inr other ↦
          rw (violates_unique-reference_used t rows named (rw other at used)) (ground arith)
    ]

-- An attempt with a key and a reference that saw its key unused does not succeed if the reference
-- is used under the locks, even though the log there has the key for the same request with a
-- transaction to return.
pub race_with_reference_fails :
    (e : Encoding) (a : Attempt) (p : Postings) (opts : CommitOptions) (ik_hash : Bytes)
    (winner : Transaction) (done : Db × Transaction)
    → is_empty opts.idempotency_key ≡ false
    → is_empty opts.reference ≡ false
    → find_key opts.idempotency_key a.seen.logs ≡ none
    → find_by_idempotency_key e opts.idempotency_key ik_hash a.db.logs ≡ ok (some winner)
    → reference_used opts.reference a.db.transactions ≡ true
    → commit_once e a p opts ik_hash ≢ ok done
unfolding commit_once find_by_idempotency_key lock_volumes
race_with_reference_fails e a p opts ik_hash winner done keyed named unseen won used h =
    let h1 = rw (keyed, unseen) at h in
    let ((applied, t, alloc), by_apply, h2) =
      >>=-eq-ok (apply_transaction a.moment (apply_options opts) p a.db)
        (log_transaction e opts.idempotency_key ik_hash a.fault opts.dry_run a.db) h1 in
    let x = apply_transaction-Applied a.moment (apply_options opts) p a.db by_apply in
    let draft =
      draft_transaction (apply_options opts) x.written.timestamp (lock_volumes a.db x.named).1
        (x.postings, x.updates) alloc in
    let (same, rows, fresh) =
      insert_transaction-eq-ok a.moment.db_now draft a.db.transactions x.written.inserted in
    cc (sym fresh ∙ violates_unique-reference_used draft a.db.transactions named used)
