-- ===== src/Storage/Metadata.antt =====
-- storage/metadata.go: changes of the metadata on a transaction or an account, each with an entry
-- in the log; `GetTransaction` and the row of `GetAccount` in storage/read.go.
pub mod Targets
pub mod Written
pub mod Changes
pub mod Steps
pub mod Merged
use giro.Prelude.{
  ℕ, ◌/◌, ◌*◌, ◌==◌, Bool, true, false, not, ◌&&◌, Option, none, some, List, [], ◌∷◌, any, ite,
  if◌then◌else◌, Result, ok, err, ◌>>=◌, ◌>>◌, Bytes, Bytes-discrete,
}
use giro.Ledger.Address.{Address, is_valid_address}
use giro.Ledger.Metadata.{
  MetadataFault, empty_metadata_key, is_blank, validate_metadata, merge_metadata, remove_key,
  has_key, contains_metadata,
}
use giro.Storage.Schema.{
  Db, Transaction, AccountRow, Metadata, Time, LogType, log_set_metadata, log_delete_metadata,
  Error, not_found, untranslatable_character, account_not_found, invalid_address, empty_metadata,
  invalid_metadata,
}
use giro.Storage.Encoding.{
  Encoding, Payload, or_undecodable, set_metadata, delete_metadata, transaction_target,
  account_target,
}
use giro.Storage.Log.{Allocation, allocate_log_id, append_log_entry}

-- `validateMetadata`
abbrev pub or_invalid : Option MetadataFault → Result Error (Unit {0})
or_invalid none = ok tt
or_invalid (some fault) = err (invalid_metadata fault)

unfoldable pub validate_given : Metadata → Result Error (Unit {0})
unfolding validate_metadata
validate_given [] = err empty_metadata
validate_given (pair ∷ m) = or_invalid (validate_metadata (pair ∷ m))

abbrev pub validate_key : Bytes → Result Error (Unit {0})
validate_key key = if is_blank key then err (invalid_metadata empty_metadata_key) else ok tt

-- what the cast to jsonb makes of it
abbrev pub or_refused : Option Metadata → Result Error Metadata
or_refused none = err untranslatable_character
or_refused (some m) = ok m

module _ {A : Type 0} (is_target : A → Bool) where
  -- `where ledger = $1 and id = $2`, of a column that is a primary key
  unfoldable pub find_target : List A → Option A
  find_target [] = none
  find_target (r ∷ rs) = if is_target r then some r else find_target rs

  -- `lockTarget`
  unfoldable pub lock_target : Error → List A → Result Error (Unit {0})
  unfolding find_target
  lock_target missing rows = elim (find_target rows) [ none ↦ err missing | some r ↦ ok tt ]

module _ {A : Type 0} where
  -- an update: what it makes of the rows that its condition holds of
  unfoldable pub update_where : (A → Bool) → (A → A) → List A → List A
  update_where hit change [] = []
  update_where hit change (r ∷ rs) = (if hit r then change r else r) ∷ update_where hit change rs

-- The table that a change is about: the row that it names, and the columns that it reads and sets.
module _ {A : Type 0} (is_target : A → Bool) (column : A → Metadata) (set : Metadata → A → A) where
  abbrev pub needs_merge : Metadata → A → Bool
  needs_merge m r = is_target r && not (contains_metadata (column r) m)

  -- its update: the rows, and whether there was one to change
  abbrev pub merge_rows : List A → Metadata → List A × Bool
  merge_rows rows m = (
    update_where (needs_merge m) (λ r. set (merge_metadata (column r) m) r) rows,
    any (needs_merge m) rows,
  )

  -- `lockAndMerge`, with what its metadata is as jsonb
  unfoldable pub lock_and_merge : Error → Option Metadata → List A → Result Error (List A × Bool)
  unfolding lock_target update_where
  lock_and_merge missing given rows = do
    _ ← lock_target is_target missing rows
    m ← or_refused given
    ok (merge_rows rows m)

  abbrev pub needs_delete : Bytes → A → Bool
  needs_delete key r = is_target r && has_key key (column r)

  -- `lockAndDeleteKey`
  unfoldable pub lock_and_delete_key : Error → Bytes → List A → Result Error (List A × Bool)
  unfolding lock_target update_where
  lock_and_delete_key missing key rows =
      lock_target is_target missing rows
      >> ok (
        update_where (needs_delete key) (λ r. set (remove_key key (column r)) r) rows,
        any (needs_delete key) rows,
      )

abbrev pub is_transaction : ℕ → Transaction → Bool
is_transaction id t = t.id == id

abbrev pub set_transaction_column : Metadata → Transaction → Transaction
set_transaction_column m t = record t { metadata = m }

abbrev pub is_account : Address → AccountRow → Bool
is_account a r = ite (Bytes-discrete a r.address) true false

-- with `touchUpdatedAt`
abbrev pub set_account_column : Time → Metadata → AccountRow → AccountRow
set_account_column db_now m r = record r { metadata = m; updated_at = db_now }

-- `time.Now().UTC().Truncate(time.Microsecond)`
abbrev pub truncate_time : Time → Time
truncate_time now = now / 1000 * 1000

-- the upsert of `SetAccountMetadata`
unfoldable pub tag_account : Time → Address → Metadata → List AccountRow → List AccountRow × Bool
tag_account now a m [] = (
  record {
    address = a;
    first_usage = now;
    insertion_date = now;
    updated_at = now;
    metadata = m;
    closed = false;
  }
      ∷ [],
  true,
)
tag_account now a m (r ∷ rs) =
    let rest = tag_account now a m rs in
    ite (Bytes-discrete a r.address)
      (if contains_metadata r.metadata m
        then (r ∷ rs, false)
        else (set_account_column now (merge_metadata r.metadata m) r ∷ rs, true))
      (r ∷ rest.0, rest.1)

-- `GetTransaction`
unfoldable pub get_transaction : Encoding → ℕ → Db → Result Error Transaction
unfolding find_target
get_transaction e id db = elim (find_target (is_transaction id) db.transactions) [
  | none ↦ err (not_found id)
  | some t ↦ or_undecodable (e.hydrate t)
]

-- `GetAccount` without options
unfoldable pub get_account : Address → Db → Result Error AccountRow
unfolding find_target
get_account a db = elim (find_target (is_account a) db.accounts) [
  | none ↦ err (account_not_found a)
  | some r ↦ ok r
]

abbrev pub with_transactions : Db → List Transaction × Bool → Db × Bool
with_transactions db (rows, changed) = (record db { transactions = rows }, changed)

abbrev pub with_accounts : Db → List AccountRow × Bool → Db × Bool
with_accounts db (rows, changed) = (record db { accounts = rows }, changed)

module _ (e : Encoding) where
  -- the block under `if changed`
  unfoldable pub append_change : Time → LogType → Payload → Db → Result Error Db
  unfolding allocate_log_id append_log_entry
  append_change date type payload db = do
    (row, a) ← allocate_log_id db.ledger
    (ledger, logs) ← append_log_entry e a type payload (truncate_time date) [] [] (some row) db.logs
    ok (record db { ledger = ledger; logs = logs })

  abbrev pub record_change : Time → LogType → Payload → Db × Bool → Result Error Db
  record_change date type payload (db, changed) =
      if changed then append_change date type payload db else ok db

  -- `mutateMetadata`, on what `apply` returns
  unfoldable pub mutate_metadata :
      Time → Result Error (Db × Bool) → LogType → Payload → Result Error Db
  unfolding append_change
  mutate_metadata date applied type payload = applied >>= record_change date type payload

  -- `SetTransactionMetadata`
  unfoldable pub set_transaction_metadata :
      Time → ℕ → Metadata → Db → Result Error (Db × Transaction)
  unfolding validate_given lock_and_merge mutate_metadata get_transaction
  set_transaction_metadata date id m db = do
    _ ← validate_given m
    after ←
        mutate_metadata date
          (do
            changed ←
                lock_and_merge (is_transaction id) (λ t. t.metadata) set_transaction_column
                  (not_found id) (e.jsonb m) db.transactions
            ok (with_transactions db changed))
          log_set_metadata (set_metadata (transaction_target id) m)
    t ← get_transaction e id after
    ok (after, t)

  -- `DeleteTransactionMetadataKey`
  unfoldable pub delete_transaction_metadata_key :
      Time → ℕ → Bytes → Db → Result Error (Db × Transaction)
  unfolding lock_and_delete_key mutate_metadata get_transaction
  delete_transaction_metadata_key date id key db = do
    _ ← validate_key key
    after ←
        mutate_metadata date
          (do
            changed ←
                lock_and_delete_key (is_transaction id) (λ t. t.metadata) set_transaction_column
                  (not_found id) key db.transactions
            ok (with_transactions db changed))
          log_delete_metadata (delete_metadata (transaction_target id) key)
    t ← get_transaction e id after
    ok (after, t)

  -- `SetAccountMetadata`; `now` and `date` are its two readings of the clock
  unfoldable pub set_account_metadata :
      Time → Time → Address → Metadata → Db → Result Error (Db × AccountRow)
  unfolding validate_given tag_account mutate_metadata get_account
  set_account_metadata now date a m db =
      if not (is_valid_address a) then err invalid_address else (do
        _ ← validate_given m
        after ←
            mutate_metadata date
              (do
                stored ← or_refused (e.jsonb m)
                ok (with_accounts db (tag_account (truncate_time now) a stored db.accounts)))
              log_set_metadata (set_metadata (account_target a) m)
        r ← get_account a after
        ok (after, r))

  -- `DeleteAccountMetadataKey`
  unfoldable pub delete_account_metadata_key :
      Time → Time → Address → Bytes → Db → Result Error (Db × AccountRow)
  unfolding lock_and_delete_key mutate_metadata get_account
  delete_account_metadata_key db_now date a key db = do
    _ ← validate_key key
    after ←
        mutate_metadata date
          (do
            changed ←
                lock_and_delete_key (is_account a) (λ r. r.metadata) (set_account_column db_now)
                  (account_not_found a) key db.accounts
            ok (with_accounts db changed))
          log_delete_metadata (delete_metadata (account_target a) key)
    r ← get_account a after
    ok (after, r)
