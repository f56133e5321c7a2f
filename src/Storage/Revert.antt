-- ===== src/Storage/Revert.antt =====
-- storage/revert.go: a transaction is corrected by committing its inverse.
pub mod Inversion
pub mod Undoes
use giro.Prelude.{
  ℕ, zero, suc, ◌+◌, ◌/◌, ◌%◌, ◌==◌, Bool, true, false, not, Option, none, some, List, [], ◌∷◌,
  if◌then◌else◌, Result, ok, err, ◌>>=◌, ◌>>◌, Bytes, codes,
}
use giro.Ledger.Posting.{Postings, reverse_postings}
use giro.Storage.Schema.{
  Db, Transaction, Time, Metadata, Error, not_found, already_reverted, log_reverted_transaction,
  cancelled, giving_up,
}
use giro.Storage.Encoding.{Encoding, Payload}
use giro.Storage.Log.{Allocation, append_log_entry}
use giro.Storage.Commit.{
  ApplyOptions, Moment, Attempt, apply_transaction, or_nil_amount, retryable, max_attempts,
}

-- `strconv.FormatInt(id, 10)`; a number has no more digits than it is large
unfoldable pub digits_from : ℕ → ℕ → Bytes → Bytes
digits_from zero n later = later
digits_from (suc fuel) n later =
    let rest = digits_from fuel (n / 10) ((b'0' + n % 10) ∷ later) in
    if n / 10 == 0 then (b'0' + n % 10) ∷ later else rest

abbrev pub format_int : ℕ → Bytes
format_int n = digits_from (suc n) n []

-- `RevertsKey`
abbrev pub reverts_key : Bytes
reverts_key = codes "giro/reverts"

-- `Reversal`: what was undone, and what undid it
pub record Reversal : Type 0 where
  pub original : Transaction
  pub reversal : Transaction

-- `lockTransaction`
unfoldable pub find_transaction : ℕ → List Transaction → Option Transaction
find_transaction id [] = none
find_transaction id (t ∷ ts) = if t.id == id then some t else find_transaction id ts

abbrev pub lock_transaction : ℕ → Db → Result Error Transaction
lock_transaction id db = elim (find_transaction id db.transactions) [
  | none ↦ err (not_found id)
  | some t ↦ ok t
]

-- `if original.RevertedAt != nil`
abbrev pub check_unreverted : ℕ → Option Time → Result Error (Unit {0})
check_unreverted id none = ok tt
check_unreverted id (some at) = err (already_reverted id)

-- `update transactions set reverted_at = $3 where ledger = $1 and id = $2`
unfoldable pub mark_reverted : ℕ → Time → List Transaction → List Transaction
mark_reverted id at [] = []
mark_reverted id at (t ∷ ts) =
    (if t.id == id then record t { reverted_at = some at } else t) ∷ mark_reverted id at ts

-- the options of the reversal; `RevertOptions` is one switch
abbrev pub revert_options : Moment → ℕ → Bool → Transaction → ApplyOptions
revert_options m id at_effective_date original = record {
  timestamp = if at_effective_date then original.timestamp else m.now;
  reference = [];
  metadata = (reverts_key, format_int id) ∷ [];
}

module _ (e : Encoding) where
  abbrev pub commit_reversal :
      Option Error → ℕ → Transaction → Db × Transaction × Allocation → Result Error (Db × Reversal)
  commit_reversal fault id original (applied, reversal, alloc) = do
    (row, logs) ←
        append_log_entry e alloc log_reverted_transaction (Payload.reverted_transaction id reversal)
          reversal.inserted_at [] [] applied.ledger applied.logs
    let marked = mark_reverted id reversal.timestamp applied.transactions
    elim fault [
      | some error ↦ err error
      | none ↦ ok (
        record applied { ledger = row; logs = logs; transactions = marked },
        record {
          original = record original { reverted_at = some reversal.timestamp };
          reversal = reversal;
        },
      )
    ]

  -- `revertOnce`
  unfoldable pub revert_once : Attempt → ℕ → Bool → Result Error (Db × Reversal)
  unfolding find_transaction mark_reverted reverse_postings apply_transaction append_log_entry
  revert_once a id at_effective_date = do
    original ← lock_transaction id a.db
    check_unreverted id original.reverted_at
    inverse ← or_nil_amount (reverse_postings original.postings)
    applied ←
        apply_transaction a.moment (revert_options a.moment id at_effective_date original) inverse
          a.db
    commit_reversal a.fault id original applied

  -- `RevertTransaction`
  unfoldable pub revert_from :
      ℕ → ℕ → ℕ → (ℕ → Attempt) → ℕ → Bool → ℕ × Result Error (Db × Reversal)
  unfolding revert_once
  revert_from zero attempt retries env id at_effective_date = (retries, err giving_up)
  revert_from (suc left) attempt retries env id at_effective_date =
      let rest = revert_from left (suc attempt) (suc retries) env id at_effective_date in
      elim (revert_once (env attempt) id at_effective_date) [
        | ok done ↦ (retries, ok done)
        | err error ↦
            if not (retryable error)
            then (retries, err error)
            else if (env attempt).is_cancelled
            then (suc retries, err cancelled)
            else rest
      ]

  unfoldable pub revert_transaction : (ℕ → Attempt) → ℕ → Bool → ℕ × Result Error (Db × Reversal)
  unfolding revert_from
  revert_transaction env id at_effective_date =
      revert_from max_attempts 0 0 env id at_effective_date
