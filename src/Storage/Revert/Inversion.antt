-- ===== src/Storage/Revert/Inversion.antt =====
-- What a reversal that succeeded has done, step by step.
use giro.Prelude.{
  ℕ, ◌≡◌, refl, subst, Bool, Option, none, some, List, [], Result, ok, err, ok-injective, err-ne-ok,
  >>=-eq-ok,
}
use giro.Ledger.Posting.{Postings, reverse_postings}
use giro.Storage.Schema.{Db, LedgerRow, Log, Transaction, Time, Error, log_reverted_transaction}
use giro.Storage.Encoding.{Encoding, Payload}
use giro.Storage.Log.{Allocation, append_log_entry}
use giro.Storage.Commit.{Attempt, apply_transaction, or_nil_amount}
use giro.Storage.Commit.Inversion.{or_nil_amount-eq-ok}
use giro.Storage.Revert.{
  Reversal, lock_transaction, check_unreverted, mark_reverted, revert_options, revert_once,
}

module _ (e : Encoding) where
  -- What a `revertOnce` that succeeded has done.
  pub record Reverted (a : Attempt) (id : ℕ) (at_effective_date : Bool) (after : Db) (r : Reversal)
      : Type 0 where
    pub original : Transaction
    pub inverse : Postings
    pub applied : Db
    pub alloc : Allocation
    pub row : Option LedgerRow
    pub found : lock_transaction id a.db ≡ ok original
    pub unreverted : original.reverted_at ≡ none
    pub reversed : reverse_postings original.postings ≡ ok inverse
    pub by_apply :
        apply_transaction a.moment
          (revert_options a.moment id at_effective_date original)
          inverse
          a.db
        ≡ ok (applied, r.reversal, alloc)
    pub by_log :
        append_log_entry e alloc log_reverted_transaction
          (Payload.reverted_transaction id r.reversal)
          r.reversal.inserted_at
          []
          []
          applied.ledger
          applied.logs
        ≡ ok (row, after.logs)
    pub ledger : after.ledger ≡ row
    pub volumes : after.volumes ≡ applied.volumes
    pub transactions :
        after.transactions ≡ mark_reverted id r.reversal.timestamp applied.transactions
    pub marked : r.original ≡ record original { reverted_at = some r.reversal.timestamp }

  check_unreverted-eq-ok : (id : ℕ) (o : Option Time) → check_unreverted id o ≡ ok tt → o ≡ none
  check_unreverted-eq-ok id none h = refl
  check_unreverted-eq-ok id (some at) h = absurd (err-ne-ok h)

  pub revert_once-Reverted :
      (a : Attempt) (id : ℕ) (at_effective_date : Bool) {after : Db} {r : Reversal}
      → revert_once e a id at_effective_date ≡ ok (after, r)
      → Reverted a id at_effective_date after r
  unfolding revert_once
  revert_once-Reverted a id at_effective_date {after} {r} h =
      let (original, found, h1) = >>=-eq-ok (lock_transaction id a.db) _ h in
      let (_, open_original, h2) = >>=-eq-ok (check_unreverted id original.reverted_at) _ h1 in
      let (inverse, reversed, h3) =
        >>=-eq-ok (or_nil_amount (reverse_postings original.postings)) _ h2 in
      let ((applied, reversal, alloc), by_apply, h4) =
        >>=-eq-ok
          (apply_transaction a.moment (revert_options a.moment id at_effective_date original)
            inverse a.db)
          _ h3 in
      let ((row, logs), by_log, h5) =
        >>=-eq-ok
          (append_log_entry e alloc log_reverted_transaction
            (Payload.reverted_transaction id reversal) reversal.inserted_at [] [] applied.ledger
            applied.logs)
          _ h4 in
      finished a.fault original inverse applied reversal alloc row logs found
        (check_unreverted-eq-ok id original.reverted_at open_original)
        (or_nil_amount-eq-ok _ reversed) by_apply by_log h5
    where
      finished :
          (fault : Option Error) (original : Transaction) (inverse : Postings) (applied : Db)
          (reversal : Transaction) (alloc : Allocation) (row : Option LedgerRow) (logs : List Log)
          → lock_transaction id a.db ≡ ok original
          → original.reverted_at ≡ none
          → reverse_postings original.postings ≡ ok inverse
          → apply_transaction a.moment
              (revert_options a.moment id at_effective_date original)
              inverse
              a.db
            ≡ ok (applied, reversal, alloc)
          → append_log_entry e alloc log_reverted_transaction
              (Payload.reverted_transaction id reversal)
              reversal.inserted_at
              []
              []
              applied.ledger
              applied.logs
            ≡ ok (row, logs)
          → elim fault as (λ _. Result Error (Db × Reversal)) [
            | some error ↦ err error
            | none ↦ ok (
              record applied {
                ledger = row;
                logs = logs;
                transactions = mark_reverted id reversal.timestamp applied.transactions;
              },
              record {
                original = record original { reverted_at = some reversal.timestamp };
                reversal = reversal;
              },
            )
          ]
            ≡ ok (after, r)
          → Reverted a id at_effective_date after r
      finished (some error) original inverse applied reversal alloc row logs f u v b l h = cc
      finished none original inverse applied reversal alloc row logs f u v b l h =
          subst (λ z. Reverted a id at_effective_date z.0 z.1) (ok-injective h)
            (record {
              original = original;
              inverse = inverse;
              applied = applied;
              alloc = alloc;
              row = row;
              found = f;
              unreverted = u;
              reversed = v;
              by_apply = b;
              by_log = l;
              ledger = refl;
              volumes = refl;
              transactions = refl;
              marked = refl;
            })
