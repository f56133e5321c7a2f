-- ===== src/Storage/Policy.antt =====
-- storage/policy.go: which accounts may hold a balance below zero, or above it.
pub mod Permissions
use giro.Prelude.{
  ℕ, Bool, true, false, not, ◌&&◌, ◌||◌, Option, none, some, List, [], ◌∷◌, ◌++◌, ite,
  if◌then◌else◌, Result, ok, err, ◌-ℤ◌, ltb_ℤ, ℤ, length,
}
use giro.Ledger.Address.{Address, is_valid_address}
use giro.Ledger.Asset.{Asset, is_valid_asset}
use giro.Ledger.Volumes.{Key, Key-discrete, new_volumes, balance}
use giro.Storage.Schema.{
  Db, VolumeRow, Error, invalid_address, invalid_asset_name, world_must_allow_negative,
  database_failure,
}
use giro.Storage.Assets.{contains}
use giro.Storage.Locking.{find_row, is_world}

-- `on conflict (ledger, address, asset) do update`, for one column; `fresh` is the inserted row
unfoldable pub upsert_row :
    Key → (VolumeRow → VolumeRow) → VolumeRow → List VolumeRow → List VolumeRow
upsert_row k set fresh [] = fresh ∷ []
upsert_row k set fresh (r ∷ rs) =
    ite (Key-discrete k r.key) (set r ∷ rs) (r ∷ upsert_row k set fresh rs)

abbrev pub set_negative : Bool → VolumeRow → VolumeRow
set_negative allow r = record r { allow_negative = allow }

abbrev pub set_positive : Bool → VolumeRow → VolumeRow
set_positive allow r = record r { allow_positive = allow }

-- a row that an insert makes with the columns' defaults
abbrev pub default_row : Key → VolumeRow
default_row k = record {
  key = k;
  volumes = new_volumes;
  allow_negative = false;
  allow_positive = true;
}

-- the guards that both setters start with
unfoldable pub policy_fault : Key → Bool → Option Error
policy_fault k allow =
    if not (is_valid_address k.account)
    then some invalid_address
    else if not (is_valid_asset k.asset)
    then some invalid_asset_name
    else if is_world k.account && not allow
    then some world_must_allow_negative
    else none

-- the foreign key of a volume row to the registered assets; a row that is there satisfies it
abbrev pub is_registered : Key → Db → Option VolumeRow → Bool
is_registered k db (some r) = true
is_registered k db none = contains k.asset db.assets

abbrev pub set_permission : Key → Bool → (Bool → VolumeRow → VolumeRow) → Db → Result Error Db
set_permission k allow set db = elim (policy_fault k allow) [
  | some error ↦ err error
  | none ↦
      if is_registered k db (find_row k db.volumes)
      then ok
          (record db { volumes = upsert_row k (set allow) (set allow (default_row k)) db.volumes })
      else err database_failure
]

-- `SetAllowNegative`
unfoldable pub set_allow_negative : Key → Bool → Db → Result Error Db
unfolding policy_fault upsert_row find_row
set_allow_negative k allow db = set_permission k allow set_negative db

-- `SetAllowPositive`
unfoldable pub set_allow_positive : Key → Bool → Db → Result Error Db
unfolding policy_fault upsert_row find_row
set_allow_positive k allow db = set_permission k allow set_positive db

abbrev pub negative_of : Key → Option VolumeRow → Bool
negative_of k none = is_world k.account
negative_of k (some r) = r.allow_negative

-- `AllowsNegative`
unfoldable pub allows_negative : Key → Db → Bool
unfolding find_row
allows_negative k db = negative_of k (find_row k db.volumes)

-- `UnpermittedNegative`
pub record UnpermittedNegative : Type 0 where
  pub key : Key
  pub balance : ℤ

-- the query's `where`
unfoldable pub is_unpermitted : VolumeRow → Bool
is_unpermitted r =
    (not r.allow_negative && ltb_ℤ r.volumes.input r.volumes.output)
    || (not r.allow_positive && ltb_ℤ r.volumes.output r.volumes.input)

-- its query, in the order of the table in place of `order by address, asset`
unfoldable pub unpermitted_rows : List VolumeRow → List UnpermittedNegative
unfolding is_unpermitted balance
unpermitted_rows [] = []
unpermitted_rows (r ∷ rs) =
    let rest = unpermitted_rows rs in
    if is_unpermitted r then record { key = r.key; balance = balance r.volumes } ∷ rest else rest

-- `VerifyBalancePermissions`: how many rows it looked at, and the errors that it joins
unfoldable pub verify_balance_permissions : Db → ℕ × List UnpermittedNegative
unfolding unpermitted_rows
verify_balance_permissions db = (length db.volumes, unpermitted_rows db.volumes)
