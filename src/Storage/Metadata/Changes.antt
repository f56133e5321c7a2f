-- ===== src/Storage/Metadata/Changes.antt =====
-- The operations on metadata, each taken apart: what it makes of the rows, and of the log.
use giro.Prelude.{
  ◌≡◌, refl, ap, inl, inr, Bool, true, Option, none, some, Result, ok, Bytes, Bool-cases,
  Option-cases, ◌>>=◌, ok-injective, err-ne-ok, ℕ, subst, >>=-eq-ok,
}
use giro.Ledger.Address.{Address, is_valid_address}
use giro.Storage.Schema.{
  Db, Transaction, AccountRow, LogType, Metadata, Error, Time, not_found, account_not_found,
  log_set_metadata, log_delete_metadata,
}
use giro.Storage.Encoding.{
  Encoding, Payload, or_undecodable, set_metadata, delete_metadata, transaction_target,
  account_target,
}
use giro.Storage.Metadata.{
  is_transaction, set_transaction_column, is_account, set_account_column, truncate_time,
  find_target, validate_given, validate_key, lock_and_merge, lock_and_delete_key, tag_account,
  get_transaction, get_account, with_transactions, with_accounts, mutate_metadata, or_refused,
  set_transaction_metadata, delete_transaction_metadata_key, set_account_metadata,
  delete_account_metadata_key,
}
use giro.Storage.Metadata.Targets.{IsColumn}
use giro.Storage.Metadata.Written.{Outcome, mutate_metadata-Outcome}

pub transaction-IsColumn :
    (id : ℕ) → IsColumn (is_transaction id) (λ t. t.metadata) set_transaction_column
transaction-IsColumn id = record { kept = λ m t. refl; read = λ m t. refl }

pub account-IsColumn :
    (a : Address) (db_now : Time)
    → IsColumn (is_account a) (λ r. r.metadata) (set_account_column db_now)
account-IsColumn a db_now = record { kept = λ m r. refl; read = λ m r. refl }

pub get_transaction-found :
    (e : Encoding) (id : ℕ) (db : Db) (t : Transaction)
    → get_transaction e id db ≡ ok t
    → (row : Transaction) × (find_target (is_transaction id) db.transactions ≡ some row)
      × (e.hydrate row ≡ some t)
unfolding get_transaction
get_transaction-found e id db t h =
    elim (Option-cases (find_target (is_transaction id) db.transactions)) [
      | inl absent ↦ absurd (err-ne-ok (rw (get_transaction, absent) at h))
      | inr (row, found) ↦ (row, found, decoded (e.hydrate row) (rw (get_transaction, found) at h))
    ]
  where
    decoded : (o : Option Transaction) → or_undecodable o ≡ ok t → o ≡ some t
    decoded none k = absurd (err-ne-ok k)
    decoded (some u) k = ap some (ok-injective k)

abbrev pub merged_transaction : ℕ → Option Metadata → Db → Result Error (Db × Bool)
merged_transaction id given db =
    lock_and_merge (is_transaction id) (λ t. t.metadata) set_transaction_column (not_found id) given
      db.transactions
    >>= λ changed. ok (with_transactions db changed)

abbrev pub trimmed_transaction : ℕ → Bytes → Db → Result Error (Db × Bool)
trimmed_transaction id key db =
    lock_and_delete_key (is_transaction id) (λ t. t.metadata) set_transaction_column (not_found id)
      key db.transactions
    >>= λ changed. ok (with_transactions db changed)

abbrev pub tagged_account : Time → Address → Option Metadata → Db → Result Error (Db × Bool)
tagged_account now a given db = or_refused given >>= λ m.
    ok (with_accounts db (tag_account (truncate_time now) a m db.accounts))

abbrev pub trimmed_account : Time → Address → Bytes → Db → Result Error (Db × Bool)
trimmed_account db_now a key db =
    lock_and_delete_key (is_account a) (λ r. r.metadata) (set_account_column db_now)
      (account_not_found a) key db.accounts
    >>= λ changed. ok (with_accounts db changed)

module _ (e : Encoding) where
  -- What the end of an operation does: the change in its transaction, then the row read again.
  pub record Finished {A : Type 0} (get : Db → Result Error A) (applied : Result Error (Db × Bool))
      (type : LogType) (payload : Payload) (after : Db) (row : A) : Type 0 where
    pub change : Db × Bool
    pub done : applied ≡ ok change
    pub outcome : Outcome e type payload change after
    pub read : get after ≡ ok row

  -- the read at the end of an operation
  abbrev pub read_back : {A : Type 0} → (Db → Result Error A) → Db → Result Error (Db × A)
  read_back get db = get db >>= λ row. ok (db, row)

  abbrev pub finish :
      {A : Type 0}
      → (Db → Result Error A)
      → Result Error (Db × Bool)
      → Time
      → LogType
      → Payload
      → Result Error (Db × A)
  finish get applied date type payload =
      mutate_metadata e date applied type payload >>= read_back get

  finish-Finished :
      {A : Type 0} (get : Db → Result Error A) (applied : Result Error (Db × Bool)) (date : Time)
      (type : LogType) (payload : Payload) {after : Db} {row : A}
      → finish get applied date type payload ≡ ok (after, row)
      → Finished get applied type payload after row
  finish-Finished {A} get applied date type payload {after} {row} h =
      let (mid, mutated, rest) =
        >>=-eq-ok (mutate_metadata e date applied type payload) (read_back get) h in
      let pair : A → Result Error (Db × A) = λ r. ok (mid, r) in
      let (found, read, result) = >>=-eq-ok (get mid) pair rest in
      let same = ok-injective result in
      let (change, done, outcome) = mutate_metadata-Outcome e date applied type payload mutated in
      record {
        change = change;
        done = done;
        outcome = subst (Outcome e type payload change) (ap (λ z. z.0) same) outcome;
        read = subst (λ z. get z.0 ≡ ok z.1) same read;
      }

  pub set_transaction_metadata-Finished :
      (date : Time) (id : ℕ) (m : Metadata) (db : Db) {after : Db} {t : Transaction}
      → set_transaction_metadata e date id m db ≡ ok (after, t)
      → (validate_given m ≡ ok tt)
        × Finished
            (get_transaction e id)
            (merged_transaction id (e.jsonb m) db)
            log_set_metadata
            (set_metadata (transaction_target id) m)
            after
            t
  unfolding set_transaction_metadata
  set_transaction_metadata-Finished date id m db h =
      let applied = merged_transaction id (e.jsonb m) db in
      let payload = set_metadata (transaction_target id) m in
      let (_, valid, rest) =
        >>=-eq-ok (validate_given m)
          (λ _. finish (get_transaction e id) applied date log_set_metadata payload) h in
      (valid, finish-Finished (get_transaction e id) applied date log_set_metadata payload rest)

  pub delete_transaction_metadata_key-Finished :
      (date : Time) (id : ℕ) (key : Bytes) (db : Db) {after : Db} {t : Transaction}
      → delete_transaction_metadata_key e date id key db ≡ ok (after, t)
      → (validate_key key ≡ ok tt)
        × Finished
            (get_transaction e id)
            (trimmed_transaction id key db)
            log_delete_metadata
            (delete_metadata (transaction_target id) key)
            after
            t
  unfolding delete_transaction_metadata_key
  delete_transaction_metadata_key-Finished date id key db h =
      let applied = trimmed_transaction id key db in
      let payload = delete_metadata (transaction_target id) key in
      let (_, valid, rest) =
        >>=-eq-ok (validate_key key)
          (λ _. finish (get_transaction e id) applied date log_delete_metadata payload) h in
      (valid, finish-Finished (get_transaction e id) applied date log_delete_metadata payload rest)

  pub set_account_metadata-Finished :
      (now date : Time) (a : Address) (m : Metadata) (db : Db) {after : Db} {r : AccountRow}
      → set_account_metadata e now date a m db ≡ ok (after, r)
      → (is_valid_address a ≡ true)
        × (validate_given m ≡ ok tt)
        × Finished
            (get_account a)
            (tagged_account now a (e.jsonb m) db)
            log_set_metadata
            (set_metadata (account_target a) m)
            after
            r
  unfolding set_account_metadata
  set_account_metadata-Finished now date a m db h = elim (Bool-cases (is_valid_address a)) [
    | inr invalid ↦ absurd (err-ne-ok (rw (set_account_metadata, invalid) at h))
    | inl allowed ↦
        let applied = tagged_account now a (e.jsonb m) db in
        let payload = set_metadata (account_target a) m in
        let (_, valid, rest) =
          >>=-eq-ok (validate_given m)
            (λ _. finish (get_account a) applied date log_set_metadata payload)
            (rw (set_account_metadata, allowed) at h) in
        (allowed, valid, finish-Finished (get_account a) applied date log_set_metadata payload rest)
  ]

  pub delete_account_metadata_key-Finished :
      (db_now date : Time) (a : Address) (key : Bytes) (db : Db) {after : Db} {r : AccountRow}
      → delete_account_metadata_key e db_now date a key db ≡ ok (after, r)
      → (validate_key key ≡ ok tt)
        × Finished
            (get_account a)
            (trimmed_account db_now a key db)
            log_delete_metadata
            (delete_metadata (account_target a) key)
            after
            r
  unfolding delete_account_metadata_key
  delete_account_metadata_key-Finished db_now date a key db h =
      let applied = trimmed_account db_now a key db in
      let payload = delete_metadata (account_target a) key in
      let (_, valid, rest) =
        >>=-eq-ok (validate_key key)
          (λ _. finish (get_account a) applied date log_delete_metadata payload) h in
      (valid, finish-Finished (get_account a) applied date log_delete_metadata payload rest)
