-- ===== src/Storage/Closure.antt =====
-- storage/closure.go: accounts that refuse further movement.
pub mod Emptiness
pub mod Commits
use giro.Prelude.{
  ℕ, suc, Bool, true, false, not, ◌&&◌, ◌||◌, Option, none, some, List, [], ◌∷◌, ◌++◌, ite,
  if◌then◌else◌, Result, ok, err, ◌-ℤ◌, ℤ, any, Bytes-discrete, ltb_ℤ,
}
use giro.Ledger.Address.{Address, is_valid_address}
use giro.Ledger.Volumes.{Key, Volumes, balance}
use giro.Storage.Schema.{
  Db, VolumeRow, AccountRow, Time, Error, invalid_address, account_closure_refused,
  account_not_empty, not_closed,
}
use giro.Storage.Locking.{is_world, is_closed}

abbrev pub is_at : Address → Address → Bool
is_at a b = ite (Bytes-discrete a b) true false

-- `input <> output`
abbrev pub holds_balance : VolumeRow → Bool
holds_balance r = ltb_ℤ r.volumes.input r.volumes.output || ltb_ℤ r.volumes.output r.volumes.input

-- whether the query under the lock returns a row
unfoldable pub holds_anything : Address → List VolumeRow → Bool
holds_anything a rows = any (λ r. is_at a r.key.account && holds_balance r) rows

-- `insert into accounts ... on conflict do update set closed = true`
unfoldable pub close_row : Time → Address → List AccountRow → List AccountRow
close_row now a [] =
    record {
      address = a;
      first_usage = now;
      insertion_date = now;
      updated_at = now;
      metadata = [];
      closed = true;
    }
    ∷ []
close_row now a (r ∷ rs) =
    ite (Bytes-discrete a r.address) (record r { closed = true; updated_at = now } ∷ rs)
      (r ∷ close_row now a rs)

-- `CloseAccount`
unfoldable pub close_account : Time → Address → Db → Result Error Db
unfolding holds_anything close_row
close_account now a db =
    if not (is_valid_address a)
    then err invalid_address
    else if is_world a
    then err account_closure_refused
    else if holds_anything a db.volumes
    then err account_not_empty
    else ok (record db { accounts = close_row now a db.accounts })

-- `update accounts set closed = false ... where ... and closed`
unfoldable pub reopen_rows : Time → Address → List AccountRow → List AccountRow
reopen_rows now a [] = []
reopen_rows now a (r ∷ rs) =
    (if is_at a r.address && r.closed then record r { closed = false; updated_at = now } else r)
    ∷ reopen_rows now a rs

-- `ReopenAccount`; the update touches a row exactly when the account is closed
unfoldable pub reopen_account : Time → Address → Db → Result Error Db
unfolding reopen_rows is_closed
reopen_account now a db =
    if not (is_valid_address a)
    then err invalid_address
    else if is_closed a db.accounts
    then ok (record db { accounts = reopen_rows now a db.accounts })
    else err not_closed

-- `ClosedAccountHoldsBalance`
pub record ClosedAccountHoldsBalance : Type 0 where
  pub key : Key
  pub balance : ℤ

-- the join of `VerifyClosedAccounts`: by (address) an account row joins each of its volume rows;
-- in the order of the table in place of `order by address, asset`
unfoldable pub stranded_rows : List AccountRow → List VolumeRow → List ClosedAccountHoldsBalance
unfolding is_closed balance
stranded_rows accounts [] = []
stranded_rows accounts (r ∷ rs) =
    let rest = stranded_rows accounts rs in
    if is_closed r.key.account accounts && holds_balance r
    then record { key = r.key; balance = balance r.volumes } ∷ rest
    else rest

unfoldable pub count_closed : List AccountRow → ℕ
count_closed [] = 0
count_closed (r ∷ rs) = let rest = count_closed rs in if r.closed then suc rest else rest

-- `VerifyClosedAccounts`: how many closed accounts it looked at, and the errors that it joins
unfoldable pub verify_closed_accounts : Db → ℕ × List ClosedAccountHoldsBalance
unfolding stranded_rows count_closed
verify_closed_accounts db = (count_closed db.accounts, stranded_rows db.accounts db.volumes)
