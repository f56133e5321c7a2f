-- ===== src/Storage/Metadata/Steps.antt =====
-- The changes of metadata as steps of the ledger: what they keep, and what they enter in the log.
use giro.Prelude.{
  ◌≡◌, refl, sym, ap, ◌∙◌, Bool, true, false, Option, none, some, err-ne-ok, List, [], ◌∷◌, Result,
  ok, arith, Bytes, ok-injective, ℕ, subst, >>=-eq-ok, All,
}
use giro.Ledger.Address.{Address}
use giro.Ledger.Metadata.{remove_key}
use giro.Storage.Schema.{
  Db, Transaction, AccountRow, VolumeRow, LogType, Metadata, Error, Time, not_found,
  account_not_found,
}
use giro.Storage.Encoding.{
  Encoding, Payload, set_metadata, delete_metadata, transaction_target, account_target,
}
use giro.Storage.Locking.{is_closed}
use giro.Storage.Closure.Emptiness.{ClosedAreEmpty, IsEmptyRow}
use giro.Storage.Bulk.Sound.{IsSound}
use giro.Storage.Metadata.{
  is_transaction, set_transaction_column, is_account, set_account_column, truncate_time,
  update_where, needs_delete, lock_and_merge, lock_and_delete_key, tag_account, with_transactions,
  with_accounts, set_transaction_metadata, delete_transaction_metadata_key, set_account_metadata,
  delete_account_metadata_key,
}
use giro.Storage.Metadata.Targets.{
  lock_and_merge-stored, lock_and_merge-idle, lock_and_delete_key-Changed, lock_and_delete_key-rows,
}
use giro.Storage.Metadata.Written.{
  IsRecorded, Outcome, Outcome-IsSound, Outcome-IsRecorded, Outcome-accounts, Outcome-volumes,
}
use giro.Storage.Metadata.Changes.{
  Finished, transaction-IsColumn, account-IsColumn, merged_transaction, trimmed_transaction,
  tagged_account, trimmed_account, set_transaction_metadata-Finished,
  delete_transaction_metadata_key-Finished, set_account_metadata-Finished,
  delete_account_metadata_key-Finished,
}

-- A change in its transaction, before the log: other rows than the target's tables are not touched,
-- no account is closed or opened, and without a change nothing is different.
pub record Touches (db : Db) (change : Db × Bool) : Type 0 where
  pub idle : change.1 ≡ false → change.0 ≡ db
  pub logs : change.0.logs ≡ db.logs
  pub volumes : change.0.volumes ≡ db.volumes
  pub closed : (a : Address) → is_closed a change.0.accounts ≡ is_closed a db.accounts
  pub sound : (e : Encoding) → IsSound e db → IsSound e change.0

IsSound-transactions :
    (e : Encoding) (db : Db) (rows : List Transaction)
    → IsSound e db
    → IsSound e (record db { transactions = rows })
IsSound-transactions e db rows s = record {
  conserved = s.conserved;
  within = s.within;
  chained = s.chained;
  history = s.history;
}

IsSound-accounts :
    (e : Encoding) (db : Db) (rows : List AccountRow)
    → IsSound e db
    → IsSound e (record db { accounts = rows })
IsSound-accounts e db rows s = record {
  conserved = s.conserved;
  within = s.within;
  chained = s.chained;
  history = s.history;
}

with_transactions-Touches :
    (db : Db) (rows : List Transaction) (changed : Bool)
    → (changed ≡ false → rows ≡ db.transactions)
    → Touches db (with_transactions db (rows, changed))
with_transactions-Touches db rows changed idle = record {
  idle = λ h. ap (λ ts. record db { transactions = ts }) (idle h);
  logs = refl;
  volumes = refl;
  closed = λ a. refl;
  sound = λ e. IsSound-transactions e db rows;
}

with_accounts-Touches :
    (db : Db) (rows : List AccountRow) (changed : Bool)
    → (changed ≡ false → rows ≡ db.accounts)
    → ((a : Address) → is_closed a rows ≡ is_closed a db.accounts)
    → Touches db (with_accounts db (rows, changed))
with_accounts-Touches db rows changed idle closed = record {
  idle = λ h. ap (λ rs. record db { accounts = rs }) (idle h);
  logs = refl;
  volumes = refl;
  closed = closed;
  sound = λ e. IsSound-accounts e db rows;
}

merged_transaction-Touches :
    (id : ℕ) (given : Option Metadata) (db : Db) {change : Db × Bool}
    → merged_transaction id given db ≡ ok change
    → Touches db change
merged_transaction-Touches id given db h =
    let ((rows, changed), locked, result) =
      >>=-eq-ok
        (lock_and_merge (is_transaction id) (λ t. t.metadata) set_transaction_column (not_found id)
          given db.transactions)
        (λ x. ok (with_transactions db x)) h in
    let (m, _, merged) =
      lock_and_merge-stored (is_transaction id) (λ t. t.metadata) set_transaction_column
        (transaction-IsColumn id) (not_found id) given db.transactions locked in
    let idle =
      lock_and_merge-idle (is_transaction id) (λ t. t.metadata) set_transaction_column
        (transaction-IsColumn id) (not_found id) m db.transactions merged in
    subst (Touches db) (ok-injective result) (with_transactions-Touches db rows changed idle)

trimmed_transaction-Touches :
    (id : ℕ) (key : Bytes) (db : Db) {change : Db × Bool}
    → trimmed_transaction id key db ≡ ok change
    → Touches db change
trimmed_transaction-Touches id key db h =
    let ((rows, changed), locked, result) =
      >>=-eq-ok
        (lock_and_delete_key (is_transaction id) (λ t. t.metadata) set_transaction_column
          (not_found id) key db.transactions)
        (λ x. ok (with_transactions db x)) h in
    let c =
      lock_and_delete_key-Changed (is_transaction id) (λ t. t.metadata) set_transaction_column
        (transaction-IsColumn id) (not_found id) key db.transactions locked in
    subst (Touches db) (ok-injective result) (with_transactions-Touches db rows changed c.idle)

is_closed-tag_account :
    (now : Time) (a : Address) (m : Metadata) (rows : List AccountRow) (b : Address)
    → is_closed b (tag_account now a m rows).0 ≡ is_closed b rows
unfolding tag_account is_closed
is_closed-tag_account now a m [] b = ground arith
is_closed-tag_account now a m (r ∷ rows) b = ground (arith, is_closed-tag_account now a m rows b)

tag_account-idle :
    (now : Time) (a : Address) (m : Metadata) (rows : List AccountRow)
    → (tag_account now a m rows).1 ≡ false
    → (tag_account now a m rows).0 ≡ rows
unfolding tag_account
tag_account-idle now a m [] h = absurd (cc h)
tag_account-idle now a m (r ∷ rows) h = ground (arith, tag_account-idle now a m rows)

is_closed-update_where :
    (hit : AccountRow → Bool) (change : AccountRow → AccountRow)
    → ((r : AccountRow) → ((change r).address ≡ r.address) × ((change r).closed ≡ r.closed))
    → (rows : List AccountRow) (b : Address)
    → is_closed b (update_where hit change rows) ≡ is_closed b rows
unfolding update_where is_closed
is_closed-update_where hit change keep [] b = refl
is_closed-update_where hit change keep (r ∷ rows) b =
    let (address, closed) = keep r in ground (arith, is_closed-update_where hit change keep rows b)

trimmed_account-Touches :
    (db_now : Time) (a : Address) (key : Bytes) (db : Db) {change : Db × Bool}
    → trimmed_account db_now a key db ≡ ok change
    → Touches db change
trimmed_account-Touches db_now a key db h =
    let ((rows, changed), locked, result) =
      >>=-eq-ok
        (lock_and_delete_key (is_account a) (λ r. r.metadata) (set_account_column db_now)
          (account_not_found a) key db.accounts)
        (λ x. ok (with_accounts db x)) h in
    let c =
      lock_and_delete_key-Changed (is_account a) (λ r. r.metadata) (set_account_column db_now)
        (account-IsColumn a db_now) (account_not_found a) key db.accounts locked in
    let hit = needs_delete (is_account a) (λ r. r.metadata) (set_account_column db_now) key in
    let closed : (b : Address) → is_closed b rows ≡ is_closed b db.accounts = λ b.
      ap (is_closed b) (
        lock_and_delete_key-rows (is_account a) (λ r. r.metadata) (set_account_column db_now)
          (account-IsColumn a db_now) (account_not_found a) key db.accounts locked)
      ∙ is_closed-update_where hit (λ r. set_account_column db_now (remove_key key r.metadata) r)
          (λ r. (refl, refl)) db.accounts b in
    subst (Touches db) (ok-injective result) (with_accounts-Touches db rows changed c.idle closed)

tagged_account-Touches :
    (now : Time) (a : Address) (given : Option Metadata) (db : Db) {change : Db × Bool}
    → tagged_account now a given db ≡ ok change
    → Touches db change
tagged_account-Touches now a none db h = absurd (err-ne-ok h)
tagged_account-Touches now a (some m) db h =
    let tagged = tag_account (truncate_time now) a m db.accounts in
    subst (Touches db) (ok-injective h) (
      with_accounts-Touches db tagged.0 tagged.1
        (tag_account-idle (truncate_time now) a m db.accounts)
        (is_closed-tag_account (truncate_time now) a m db.accounts))

module _ (e : Encoding) where
  -- Every change of the metadata, as a step of the ledger.
  pub data Changes : Db → Db → Type 0 where
    set_on_transaction :
        {db after : Db} {t : Transaction} (date : Time) (id : ℕ) (m : Metadata)
        → set_transaction_metadata e date id m db ≡ ok (after, t)
        → Changes db after
    delete_on_transaction :
        {db after : Db} {t : Transaction} (date : Time) (id : ℕ) (key : Bytes)
        → delete_transaction_metadata_key e date id key db ≡ ok (after, t)
        → Changes db after
    set_on_account :
        {db after : Db} {r : AccountRow} (now date : Time) (a : Address) (m : Metadata)
        → set_account_metadata e now date a m db ≡ ok (after, r)
        → Changes db after
    delete_on_account :
        {db after : Db} {r : AccountRow} (db_now date : Time) (a : Address) (key : Bytes)
        → delete_account_metadata_key e db_now date a key db ≡ ok (after, r)
        → Changes db after

  -- what the entry of a step records
  abbrev pub payload_of : {db after : Db} → Changes db after → Payload
  payload_of (set_on_transaction date id m h) = set_metadata (transaction_target id) m
  payload_of (delete_on_transaction date id key h) = delete_metadata (transaction_target id) key
  payload_of (set_on_account now date a m h) = set_metadata (account_target a) m
  payload_of (delete_on_account db_now date a key h) = delete_metadata (account_target a) key

  -- A step is a change in its transaction and what `mutateMetadata` makes of it.
  record Taken (payload : Payload) (db after : Db) : Type 0 where
    type : LogType
    change : Db × Bool
    touches : Touches db change
    outcome : Outcome e type payload change after

  taken :
      {A : Type 0} {get : Db → Result Error A} {applied : Result Error (Db × Bool)} {type : LogType}
      {payload : Payload} {db after : Db} {row : A}
      → (f : Finished e get applied type payload after row) → Touches db f.change
      → Taken payload db after
  taken {type = type} f touches = record {
    type = type;
    change = f.change;
    touches = touches;
    outcome = f.outcome;
  }

  Changes-Taken : {db after : Db} (c : Changes db after) → Taken (payload_of c) db after
  Changes-Taken {db} (set_on_transaction date id m h) =
      let f = (set_transaction_metadata-Finished e date id m db h).1 in
      taken f (merged_transaction-Touches id (e.jsonb m) db f.done)
  Changes-Taken {db} (delete_on_transaction date id key h) =
      let f = (delete_transaction_metadata_key-Finished e date id key db h).1 in
      taken f (trimmed_transaction-Touches id key db f.done)
  Changes-Taken {db} (set_on_account now date a m h) =
      let f = (set_account_metadata-Finished e now date a m db h).2 in
      taken f (tagged_account-Touches now a (e.jsonb m) db f.done)
  Changes-Taken {db} (delete_on_account db_now date a key h) =
      let f = (delete_account_metadata_key-Finished e db_now date a key db h).1 in
      taken f (trimmed_account-Touches db_now a key db f.done)

  -- A change of metadata that succeeds leaves the database as it was, or appends to the log one
  -- entry, whose content is the payload of this change.
  pub Changes-IsRecorded :
      {db after : Db} (c : Changes db after) → IsRecorded e (payload_of c) db after
  Changes-IsRecorded c =
      let x = Changes-Taken c in Outcome-IsRecorded e x.outcome x.touches.idle x.touches.logs

  AreEmpty-same :
      (before now : List AccountRow) (rows : List VolumeRow)
      → ((a : Address) → is_closed a now ≡ is_closed a before)
      → All (λ r. is_closed r.key.account before ≡ true → IsEmptyRow r) rows
      → All (λ r. is_closed r.key.account now ≡ true → IsEmptyRow r) rows
  AreEmpty-same before now [] same h = tt
  AreEmpty-same before now (r ∷ rows) same h =
      (λ closed. h.0 (sym (same r.key.account) ∙ closed), AreEmpty-same before now rows same h.1)

  -- If the ledger is sound (inputs equal to outputs in every asset, no balance where its row does
  -- not permit it, a log that verifies and ends where the row of the ledger says, effective
  -- snapshots that are the sums of their moves) and its closed accounts are empty, that is so after
  -- any of the four changes of metadata that succeeds.
  pub Changes-IsSound :
      {db after : Db}
      → Changes db after
      → IsSound e db
      → ClosedAreEmpty db
      → IsSound e after × ClosedAreEmpty after
  Changes-IsSound {db} {after} c sound empty =
      let x = Changes-Taken c in
      let accounts = Outcome-accounts e x.outcome in
      let volumes = Outcome-volumes e x.outcome ∙ x.touches.volumes in
      (
        Outcome-IsSound e x.outcome (x.touches.sound e sound),
        subst (All (λ r. is_closed r.key.account after.accounts ≡ true → IsEmptyRow r))
            (sym volumes)
            (AreEmpty-same db.accounts after.accounts db.volumes
              (λ a. ap (is_closed a) accounts ∙ x.touches.closed a) empty),
      )
