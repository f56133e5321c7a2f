-- ===== src/Storage/Metadata/Merged.antt =====
-- What a change of metadata leaves on its target, and that to repeat it changes nothing.
use mathlib.Core.Option.{some-injective}
use giro.Prelude.{
  ◌≡◌, sym, ap, ◌∙◌, false, ◌⊎◌, inl, inr, Option, List, some, ok, ok-injective, ℕ, subst,
  >>=-eq-ok,
}
use giro.Ledger.Metadata.{IsMap, merge_metadata}
use giro.Storage.Schema.{Db, Transaction, Metadata, Time, not_found}
use giro.Storage.Encoding.{Encoding}
use giro.Storage.Metadata.{
  is_transaction, set_transaction_column, find_target, validate_given, lock_and_merge,
  get_transaction, with_transactions, mutate_metadata, set_transaction_metadata,
}
use giro.Storage.Metadata.Targets.{lock_and_merge-Changed, lock_and_merge-stored}
use giro.Storage.Metadata.Written.{Outcome-transactions}
use giro.Storage.Metadata.Changes.{
  transaction-IsColumn, get_transaction-found, set_transaction_metadata-Finished,
}

set_transaction_idle :
    (e : Encoding) (date : Time) (id : ℕ) (m : Metadata) (db : Db) (t : Transaction)
    → validate_given m ≡ ok tt
    → lock_and_merge
        (is_transaction id)
        (λ t. t.metadata)
        set_transaction_column
        (not_found id)
        (e.jsonb m)
        db.transactions
      ≡ ok (db.transactions, false)
    → get_transaction e id db ≡ ok t
    → set_transaction_metadata e date id m db ≡ ok (db, t)
unfolding set_transaction_metadata mutate_metadata
set_transaction_idle e date id m db t valid idle read =
    rw (set_transaction_metadata, valid, mutate_metadata, idle, read)

merged_of :
    (old current : Transaction) (value : Metadata)
    → (current ≡ old) ⊎ (current ≡ set_transaction_column value old)
    → current.metadata ≡ value
    → current ≡ set_transaction_column value old
merged_of old current value (inr same) read = same
merged_of old current value (inl same) read =
    same ∙ ap (λ m. set_transaction_column m old) (sym (ap (λ t. t.metadata) same) ∙ read)

-- A `jsonb` object has one value at a key.
abbrev pub StoresMaps : Encoding → Type 0
StoresMaps e = (m stored : Metadata) → e.jsonb m ≡ some stored → IsMap stored

-- The row of a transaction, before and after metadata is set on it, and what a read makes of it.
pub record Merged (e : Encoding) (id : ℕ) (m : Metadata) (db after : Db) (t : Transaction)
    : Type 0 where
  pub row : Transaction
  pub stored : Metadata
  pub before : find_target (is_transaction id) db.transactions ≡ some row
  pub kept : e.jsonb m ≡ some stored
  pub now :
      find_target (is_transaction id) after.transactions
      ≡ some (record row { metadata = merge_metadata row.metadata stored })
  pub read : e.hydrate (record row { metadata = merge_metadata row.metadata stored }) ≡ some t

-- A SetTransactionMetadata that succeeds has merged into the metadata of the transaction's row what
-- the jsonb column makes of the metadata given, and changed nothing else of that row; it returns
-- what a read of the row gives, then and later; to repeat it succeeds, returns the same and changes
-- nothing, the log included. A jsonb object is taken to have one value at a key.
pub set_transaction_metadata-IsMerged :
    (e : Encoding) (date later : Time) (id : ℕ) (m : Metadata) (db : Db) {after : Db}
    {t : Transaction}
    → StoresMaps e
    → set_transaction_metadata e date id m db ≡ ok (after, t)
    → Merged e id m db after t
      × (get_transaction e id after ≡ ok t)
      × (set_transaction_metadata e later id m after ≡ ok (after, t))
set_transaction_metadata-IsMerged e date later id m db {after} {t} maps h =
    let (valid, f) = set_transaction_metadata-Finished e date id m db h in
    let ((rows, changed), locked, result) =
      >>=-eq-ok
        (lock_and_merge (is_transaction id) (λ t. t.metadata) set_transaction_column (not_found id)
          (e.jsonb m) db.transactions)
        (λ x. ok (with_transactions db x)) f.done in
    let (stored, kept, merged) =
      lock_and_merge-stored (is_transaction id) (λ t. t.metadata) set_transaction_column
        (transaction-IsColumn id) (not_found id) (e.jsonb m) db.transactions locked in
    let c =
      lock_and_merge-Changed (is_transaction id) (λ t. t.metadata) set_transaction_column
        (transaction-IsColumn id) (not_found id) stored db.transactions (maps m stored kept)
        merged in
    let same : after.transactions ≡ rows =
      Outcome-transactions e f.outcome ∙ sym (ap (λ x. x.0.transactions) (ok-injective result)) in
    let now : find_target (is_transaction id) after.transactions
        ≡ some (set_transaction_column (merge_metadata c.old.metadata stored) c.old) =
      ap (find_target (is_transaction id)) same
      ∙ c.after
      ∙ ap some
          (merged_of c.old c.current (merge_metadata c.old.metadata stored) c.how c.value_read) in
    let (row, found, read) = get_transaction-found e id after t f.read in
    (
      record {
        row = c.old;
        stored = stored;
        before = c.before;
        kept = kept;
        now = now;
        read = ap e.hydrate (some-injective _ _ (sym now ∙ found)) ∙ read;
      },
      f.read,
      set_transaction_idle e later id m after t valid
          (subst
            (λ (z : Option Metadata × List Transaction).
              lock_and_merge (is_transaction id) (λ t. t.metadata) set_transaction_column
                (not_found id) z.0 z.1
              ≡ ok (z.1, false))
            (ap (λ given. (given, rows)) (sym kept) ∙ ap (λ ts. (e.jsonb m, ts)) (sym same))
            c.settled)
          f.read,
    )
