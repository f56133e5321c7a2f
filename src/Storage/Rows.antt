-- ===== src/Storage/Rows.antt =====
-- storage/rows.go: the transaction row and the account rows of a commit.
use giro.Prelude.{
  Bool, true, false, ◌||◌, Option, none, some, List, [], ◌∷◌, ◌++◌, ite, if◌then◌else◌, ltb, ◌==◌,
  any, Result, ok, err, Bytes, Bytes-discrete,
}
use giro.Ledger.Address.{Address}
use giro.Ledger.Volumes.{VolumeUpdate}
use giro.Storage.Schema.{AccountRow, Transaction, Time, Error, duplicate_reference}

abbrev pub is_empty : Bytes → Bool
is_empty [] = true
is_empty (c ∷ cs) = false

abbrev pub same_bytes : Bytes → Bytes → Bool
same_bytes a b = ite (Bytes-discrete a b) true false

-- the primary key (ledger, id), and the unique index on a reference that is not null
unfoldable pub violates_unique : Transaction → Transaction → Bool
violates_unique t row =
    t.id == row.id || (if is_empty t.reference then false else same_bytes t.reference row.reference)

-- `insertTransaction`: the table with the row, and the transaction as `returning` completes it
unfoldable pub insert_transaction :
    Time → Transaction → List Transaction → Result Error (List Transaction × Transaction)
unfolding violates_unique
insert_transaction db_now t rows =
    if any (violates_unique t) rows
    then err (duplicate_reference t.reference)
    else let stored = record t { inserted_at = db_now } in ok (rows ++ stored ∷ [], stored)

abbrev earlier_of : Time → Time → Time
earlier_of a b = if ltb b a then b else a

-- one upsert of `queueAccounts`
unfoldable pub upsert_account : Time → Time → Address → List AccountRow → List AccountRow
upsert_account db_now timestamp a [] =
    record {
      address = a;
      first_usage = timestamp;
      insertion_date = db_now;
      updated_at = db_now;
      metadata = [];
      closed = false;
    }
    ∷ []
upsert_account db_now timestamp a (r ∷ rs) =
    ite (Bytes-discrete a r.address)
      (record r { first_usage = earlier_of r.first_usage timestamp; updated_at = db_now } ∷ rs)
      (r ∷ upsert_account db_now timestamp a rs)

-- the addresses of the updates, without the repetitions that stand next to one another
unfoldable pub distinct_accounts : Option Address → List VolumeUpdate → List Address
distinct_accounts last [] = []
distinct_accounts none (u ∷ us) = u.key.account ∷ distinct_accounts (some u.key.account) us
distinct_accounts (some last) (u ∷ us) =
    let rest = distinct_accounts (some u.key.account) us in
    ite (Bytes-discrete last u.key.account) rest (u.key.account ∷ rest)

unfoldable pub upsert_accounts : Time → Time → List Address → List AccountRow → List AccountRow
unfolding upsert_account
upsert_accounts db_now timestamp [] rows = rows
upsert_accounts db_now timestamp (a ∷ addresses) rows =
    upsert_accounts db_now timestamp addresses (upsert_account db_now timestamp a rows)

-- `queueAccounts`: the accounts table after the batch
unfoldable pub queue_accounts : Time → Time → List VolumeUpdate → List AccountRow → List AccountRow
unfolding distinct_accounts upsert_accounts
queue_accounts db_now timestamp us rows =
    upsert_accounts db_now timestamp (distinct_accounts none us) rows
