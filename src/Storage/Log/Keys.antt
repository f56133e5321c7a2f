-- ===== src/Storage/Log/Keys.antt =====
-- The lookup of an idempotency key in a log that has grown by one entry.
use giro.Prelude.{
  ◌≡◌, ap, ◌∙◌, true, false, ◌++◌, Option, some, none, List, [], ◌∷◌, ok, err, inl, inr, arith,
  Bytes, Bool-cases, any,
}
use giro.Storage.Schema.{LedgerRow, Transaction, Log, log_new_transaction, Error}
use giro.Storage.Rows.{is_empty, same_bytes}
use giro.Storage.Encoding.{Encoding, Payload}
use giro.Storage.Log.{
  Allocation, append_log, append_log_entry, stored_log, find_key, clashes, insert_log,
}
use giro.Storage.Log.Chain.{insert_log-eq-ok, entry_of}

-- An entry with the key is found, so another entry with that key does not go in.
pub any-clashes :
    (l : Log) (logs : List Log) {found : Log}
    → is_empty l.idempotency_key ≡ false
    → find_key l.idempotency_key logs ≡ some found
    → any (clashes l) logs ≡ true
unfolding find_key clashes
any-clashes l [] keyed h = cc
any-clashes l (m ∷ ms) keyed h =
    elim (Bool-cases (same_bytes l.idempotency_key m.idempotency_key)) [
      | inl same ↦ rw (keyed, same) (ground arith)
      | inr other ↦ rw (any-clashes l ms keyed (rw (find_key, other) at h)) (ground arith)
    ]

pub find_key-append :
    (l : Log) (logs : List Log)
    → find_key l.idempotency_key logs ≡ none
    → find_key l.idempotency_key (logs ++ l ∷ []) ≡ some l
unfolding find_key
find_key-append l [] h = ground arith
find_key-append l (m ∷ ms) h = elim (Bool-cases (same_bytes l.idempotency_key m.idempotency_key)) [
  | inl same ↦ absurd (cc (rw (find_key, same) at h))
  | inr other ↦ rw (find_key, other) (find_key-append l ms (rw (find_key, other) at h))
]

stored_log-keyed : (l : Log) → is_empty l.idempotency_key ≡ false → stored_log l ≡ l
unfolding stored_log
stored_log-keyed l keyed = rw (stored_log, keyed)

module _ (e : Encoding) (t : Transaction) (a : Allocation) (key ik_hash : Bytes) where
  abbrev pub logged_entry : Log
  logged_entry =
      entry_of e a log_new_transaction (Payload.new_transaction t) t.inserted_at key ik_hash

  -- Once a transaction is logged under a new key, the key finds its entry.
  pub find_key-append_log :
      (row : Option LedgerRow) (logs : List Log) {row' : Option LedgerRow} {logs' : List Log}
      → is_empty key ≡ false
      → find_key key logs ≡ none
      → append_log e t a key ik_hash row logs ≡ ok (row', logs')
      → find_key key logs' ≡ some logged_entry
  unfolding append_log append_log_entry
  find_key-append_log row logs keyed unused h =
      ap (find_key key) (
        (insert_log-eq-ok logged_entry row logs h).1
        ∙ ap (λ l. logs ++ l ∷ []) (stored_log-keyed logged_entry keyed))
      ∙ find_key-append logged_entry logs unused

  -- A transaction is not logged under a key that is there.
  pub append_log-clash :
      (row : Option LedgerRow) (logs : List Log) {found : Log}
      → is_empty key ≡ false
      → find_key key logs ≡ some found
      → append_log e t a key ik_hash row logs ≡ err Error.unique_violation
  unfolding append_log append_log_entry insert_log
  append_log-clash row logs keyed used = rw (any-clashes logged_entry logs keyed used)
