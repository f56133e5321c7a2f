-- ===== src/Storage/Locking.antt =====
-- storage/volumes.go: locking the volume rows of a transaction, and adding its deltas to them.
pub mod Updates
pub mod Rows
use giro.Prelude.{
  ℕ, zero, suc, Bool, true, false, ◌||◌, Option, none, some, List, [], ◌∷◌, ◌++◌, ite, dec_lt,
  if◌then◌else◌, ◌==◌, any, map, Result, ok, err, ◌>>=◌, ℤ, pos, ◌+ℤ◌, Bytes-discrete, length,
}
use giro.Ledger.Address.{Address, world_account}
use giro.Ledger.Volumes.{Key, Key-discrete, Volumes, VolumeUpdate, new_volumes}
use giro.Storage.Schema.{Db, VolumeRow, AccountRow, Error, rows_affected}

-- `locked`: a volume row as it stood when it was locked, and whether its account is closed
pub record Locked : Type 0 where
  pub volumes : Volumes
  pub allow_negative : Bool
  pub allow_positive : Bool
  pub closed : Bool

-- `map[key]locked`
abbrev pub Locks : Type 0
Locks = Key → Option Locked

unfoldable pub find_row : Key → List VolumeRow → Option VolumeRow
find_row k [] = none
find_row k (r ∷ rs) = ite (Key-discrete k r.key) (some r) (find_row k rs)

abbrev pub is_world : Address → Bool
is_world a = ite (Bytes-discrete a world_account) true false

-- the row that the insert creates: world is born with the permission, and `allow_positive` has the
-- column's default
abbrev pub zero_row : Key → VolumeRow
zero_row k = record {
  key = k;
  volumes = new_volumes;
  allow_negative = is_world k.account;
  allow_positive = true;
}

-- `insert into accounts_volumes ... on conflict do nothing`, for one pair
unfoldable pub materialise_row : Key → List VolumeRow → List VolumeRow
unfolding find_row
materialise_row k rows = elim (find_row k rows) [ some r ↦ rows | none ↦ rows ++ zero_row k ∷ [] ]

unfoldable pub materialise : List VolumeUpdate → List VolumeRow → List VolumeRow
unfolding materialise_row
materialise [] rows = rows
materialise (u ∷ us) rows = materialise us (materialise_row u.key rows)

unfoldable pub touches : Key → List VolumeUpdate → Bool
touches k us = any (λ u. ite (Key-discrete k u.key) true false) us

-- `select address from accounts where closed and address = any(...)`, for one address; the
-- query takes no lock, so that a closure may still be committed after it
unfoldable pub is_closed : Address → List AccountRow → Bool
is_closed a rows = any (λ r. ite (Bytes-discrete a r.address) r.closed false) rows

-- an entry of `current`: the row that the select returned, or the one that this transaction made
abbrev pub locked_of : Key → Option VolumeRow → Bool → Locked
locked_of k none closed = record {
  volumes = new_volumes;
  allow_negative = is_world k.account;
  allow_positive = true;
  closed = closed;
}
locked_of k (some r) closed = record {
  volumes = r.volumes;
  allow_negative = r.allow_negative;
  allow_positive = r.allow_positive;
  closed = closed;
}

unfoldable pub read_locks : Db → List VolumeUpdate → Locks
unfolding touches find_row is_closed
read_locks db us k =
    if touches k us
    then some (locked_of k (find_row k db.volumes) (is_closed k.account db.accounts))
    else none

-- `lockVolumes`: what it leaves in the database, and the rows as it read them
unfoldable pub lock_volumes : Db → List VolumeUpdate → Db × Locks
unfolding materialise read_locks
lock_volumes db us =
    let locked_db = record db { volumes = materialise us db.volumes } in
    (locked_db, read_locks locked_db us)

abbrev pub add_volumes : VolumeUpdate → Volumes → Volumes
add_volumes u v = record { input = v.input +ℤ u.input; output = v.output +ℤ u.output }

-- `update accounts_volumes set input = input + $4, output = output + $5 where ...`
unfoldable pub update_rows : VolumeUpdate → List VolumeRow → List VolumeRow
update_rows u [] = []
update_rows u (r ∷ rs) =
    ite (Key-discrete u.key r.key)
      (record r { volumes = add_volumes u r.volumes } ∷ update_rows u rs) (r ∷ update_rows u rs)

-- `tag.RowsAffected()`
unfoldable pub count_rows : Key → List VolumeRow → ℕ
count_rows k [] = 0
count_rows k (r ∷ rs) = ite (Key-discrete k r.key) (suc (count_rows k rs)) (count_rows k rs)

unfoldable pub apply_update : VolumeUpdate → List VolumeRow → Result Error (List VolumeRow)
unfolding count_rows update_rows
apply_update u rows =
    if count_rows u.key rows == 1
    then ok (update_rows u rows)
    else err (rows_affected u.key (count_rows u.key rows))

-- `applyVolumes`
unfoldable pub apply_volumes : List VolumeUpdate → List VolumeRow → Result Error (List VolumeRow)
unfolding apply_update
apply_volumes [] rows = ok rows
apply_volumes (u ∷ us) rows = do updated ← apply_update u rows; apply_volumes us updated
