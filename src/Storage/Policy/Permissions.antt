-- ===== src/Storage/Policy/Permissions.antt =====
-- What the setters change, and that the check of the permissions decides the invariant of a commit.
use giro.Prelude.{
  ◌≡◌, ◌≢◌, refl, sym, ap, ◌∙◌, subst, Bool, true, false, Option, none, some, List, [], ◌∷◌, ok,
  inl, inr, ◌↔◌, arith, ℤ, pos, int_laws, All, Bool-cases, Option-cases, ok-injective, err-ne-ok,
}
use giro.Ledger.Address.{world_account, is_valid_address}
use giro.Ledger.Asset.{Asset, is_valid_asset}
use giro.Ledger.Volumes.{Key, Key-discrete}
use giro.Storage.Schema.{Db, VolumeRow}
use giro.Storage.Assets.{contains}
use giro.Storage.Locking.{find_row, is_world}
use giro.Storage.Locking.Updates.{sum_rows}
use giro.Storage.Policy.{
  upsert_row, set_negative, set_positive, default_row, policy_fault, set_permission, is_registered,
  set_allow_negative, set_allow_positive, negative_of, allows_negative, is_unpermitted,
  unpermitted_rows, verify_balance_permissions,
}
use giro.Storage.Commit.Conservation.{IsConserved, row_input, row_output}
use giro.Storage.Commit.Bounds.{RowIsWithin, IsWithin}

module _ (k : Key) (set : VolumeRow → VolumeRow) (fresh : VolumeRow) where
  upsert_row-hit :
      (r : VolumeRow) (rs : List VolumeRow)
      → k ≡ r.key
      → upsert_row k set fresh (r ∷ rs) ≡ set r ∷ rs
  unfolding upsert_row
  upsert_row-hit r rs same = ground arith

  upsert_row-miss :
      (r : VolumeRow) (rs : List VolumeRow)
      → k ≢ r.key
      → upsert_row k set fresh (r ∷ rs) ≡ r ∷ upsert_row k set fresh rs
  unfolding upsert_row
  upsert_row-miss r rs other = ground arith

  -- A weight that the update keeps, and that the inserted row does not have, sums to the same.
  sum_rows-upsert_row :
      (w : VolumeRow → ℤ)
      → ((r : VolumeRow) → w (set r) ≡ w r)
      → w fresh ≡ pos 0
      → (rows : List VolumeRow) → sum_rows w (upsert_row k set fresh rows) ≡ sum_rows w rows
  sum_rows-upsert_row w keeps nothing [] = unfold upsert_row in rw nothing (omega int_laws)
  sum_rows-upsert_row w keeps nothing (r ∷ rs) = elim (Key-discrete k r.key) [
    | yes same ↦ rw (upsert_row-hit r rs same, keeps r)
    | no other ↦ rw (upsert_row-miss r rs other, sum_rows-upsert_row w keeps nothing rs)
  ]

  find_row-upsert_row_ne :
      (j : Key)
      → j ≢ k
      → fresh.key ≡ k
      → ((r : VolumeRow) → (set r).key ≡ r.key)
      → (rows : List VolumeRow) → find_row j (upsert_row k set fresh rows) ≡ find_row j rows
  unfolding find_row upsert_row
  find_row-upsert_row_ne j ne made keeps [] = ground arith
  find_row-upsert_row_ne j ne made keeps (r ∷ rs) =
      ground (arith, find_row-upsert_row_ne j ne made keeps rs, keeps r)

-- What the update leaves at its own key.
abbrev pub upserted : (VolumeRow → VolumeRow) → VolumeRow → Option VolumeRow → VolumeRow
upserted set fresh none = fresh
upserted set fresh (some r) = set r

find_row-upsert_row :
    (k : Key) (set : VolumeRow → VolumeRow) (fresh : VolumeRow)
    → fresh.key ≡ k
    → ((r : VolumeRow) → (set r).key ≡ r.key)
    → (rows : List VolumeRow)
    → find_row k (upsert_row k set fresh rows) ≡ some (upserted set fresh (find_row k rows))
unfolding find_row upsert_row
find_row-upsert_row k set fresh made keeps [] = ground arith
find_row-upsert_row k set fresh made keeps (r ∷ rs) =
    ground (arith, find_row-upsert_row k set fresh made keeps rs, keeps r)

set_permission-eq-ok :
    (k : Key) (allow : Bool) (set : Bool → VolumeRow → VolumeRow) (db : Db) {after : Db}
    → set_permission k allow set db ≡ ok after
    → after
      ≡ record db { volumes = upsert_row k (set allow) (set allow (default_row k)) db.volumes }
set_permission-eq-ok k allow set db h = elim (Option-cases (policy_fault k allow)) [
  | inl fine ↦ elim (Bool-cases (is_registered k db (find_row k db.volumes))) [
    | inl there ↦ sym (ok-injective (rw (set_permission, fine, there) at h))
    | inr refused ↦ absurd (err-ne-ok (rw (set_permission, fine, refused) at h))
  ]
  | inr (error, found) ↦ absurd (err-ne-ok (rw (set_permission, found) at h))
]

-- SetAllowNegative, when it succeeds, is what AllowsNegative reports for that account and asset,
-- changes the answer for no other, and keeps the inputs of every asset equal to its outputs.
pub set_allow_negative-allows_negative :
    (k : Key) (allow : Bool) (db : Db) {after : Db}
    → set_allow_negative k allow db ≡ ok after
    → (allows_negative k after ≡ allow)
      × ((j : Key) → j ≢ k → allows_negative j after ≡ allows_negative j db)
      × (IsConserved db → IsConserved after)
unfolding set_allow_negative allows_negative
set_allow_negative-allows_negative k allow db h =
    let rows = upsert_row k (set_negative allow) (set_negative allow (default_row k)) db.volumes in
    let same = set_permission-eq-ok k allow set_negative db h in
    subst
      (λ s.
        (negative_of k (find_row k s.volumes) ≡ allow)
        × ((j : Key)
            → j ≢ k
            → negative_of j (find_row j s.volumes) ≡ negative_of j (find_row j db.volumes))
        × (IsConserved db → IsConserved s))
      (sym same)
      (
        ap (negative_of k) (
              find_row-upsert_row k (set_negative allow) (set_negative allow (default_row k)) refl
                (λ r. refl) db.volumes)
            ∙ stored (find_row k db.volumes),
        λ j ne. ap (negative_of j) (
            find_row-upsert_row_ne k (set_negative allow) (set_negative allow (default_row k)) j ne
              refl (λ r. refl) db.volumes),
        λ conserved a.
            sum_rows-upsert_row k (set_negative allow) (set_negative allow (default_row k))
              (row_input a) (λ r. refl) (ground arith) db.volumes
            ∙ conserved a
            ∙ sym (
                sum_rows-upsert_row k (set_negative allow) (set_negative allow (default_row k))
                  (row_output a) (λ r. refl) (ground arith) db.volumes),
      )
  where
    stored :
        (found : Option VolumeRow)
        → (upserted (set_negative allow) (set_negative allow (default_row k)) found).allow_negative
          ≡ allow
    stored none = refl
    stored (some r) = refl

unpermitted_rows-permitted :
    (r : VolumeRow) (rs : List VolumeRow)
    → is_unpermitted r ≡ false
    → unpermitted_rows (r ∷ rs) ≡ unpermitted_rows rs
unfolding unpermitted_rows
unpermitted_rows-permitted r rs fine = rw fine

unpermitted_rows-unpermitted :
    (r : VolumeRow) (rs : List VolumeRow) → is_unpermitted r ≡ true → unpermitted_rows (r ∷ rs) ≢ []
unfolding unpermitted_rows
unpermitted_rows-unpermitted r rs bad h = cc (rw bad at h)

is_unpermitted-RowIsWithin : (r : VolumeRow) → is_unpermitted r ≡ false → RowIsWithin r
unfolding is_unpermitted
is_unpermitted-RowIsWithin r fine = ground arith

RowIsWithin-is_unpermitted : (r : VolumeRow) → RowIsWithin r → is_unpermitted r ≡ false
unfolding is_unpermitted
RowIsWithin-is_unpermitted r within = ground arith

unpermitted_rows-All : (rows : List VolumeRow) → unpermitted_rows rows ≡ [] ↔ All RowIsWithin rows
unpermitted_rows-All rows = (only_if rows, when rows)
  where
    only_if : (rows : List VolumeRow) → unpermitted_rows rows ≡ [] → All RowIsWithin rows
    only_if [] h = tt
    only_if (r ∷ rs) h = elim (Bool-cases (is_unpermitted r)) [
      | inl bad ↦ absurd (unpermitted_rows-unpermitted r rs bad h)
      | inr fine ↦ (
        is_unpermitted-RowIsWithin r fine,
        only_if rs (sym (unpermitted_rows-permitted r rs fine) ∙ h),
      )
    ]

    when : (rows : List VolumeRow) → All RowIsWithin rows → unpermitted_rows rows ≡ []
    when [] h = unfold unpermitted_rows in refl
    when (r ∷ rs) h =
        unpermitted_rows-permitted r rs (RowIsWithin-is_unpermitted r h.0) ∙ when rs h.1

-- VerifyBalancePermissions finds nothing exactly when no row holds a balance on a side of zero that
-- it does not permit.
pub verify_balance_permissions-IsWithin :
    (db : Db) → (verify_balance_permissions db).1 ≡ [] ↔ IsWithin db
unfolding verify_balance_permissions
verify_balance_permissions-IsWithin db = unpermitted_rows-All db.volumes

abbrev pub world_key : Asset → Key
world_key a = record { account = world_account; asset = a }

is_world_refl : is_world world_account ≡ true
is_world_refl = ground arith

world-is_valid_address : is_valid_address world_account ≡ true
unfolding is_valid_address
world-is_valid_address = refl

policy_fault-world : (a : Asset) → is_valid_asset a ≡ true → policy_fault (world_key a) true ≡ none
unfolding policy_fault
policy_fault-world a valid = rw (world-is_valid_address, valid, is_world_refl) refl

-- In a valid and registered asset in which world has no row yet, SetAllowPositive with true
-- succeeds on world, and AllowsNegative, which reported true for it, reports false afterwards.
pub set_allow_positive-world :
    (a : Asset) (db : Db)
    → is_valid_asset a ≡ true
    → contains a db.assets ≡ true
    → find_row (world_key a) db.volumes ≡ none
    → (after : Db) × (set_allow_positive (world_key a) true db ≡ ok after)
      × (allows_negative (world_key a) db ≡ true)
      × (allows_negative (world_key a) after ≡ false)
unfolding set_allow_positive allows_negative
set_allow_positive-world a db valid registered missing =
    let k = world_key a in
    let set = set_positive true in
    (
      record db { volumes = upsert_row k set (set (default_row k)) db.volumes },
      rw (set_permission, policy_fault-world a valid, missing, registered) refl,
      ap (negative_of k) missing ∙ is_world_refl,
      rw (find_row-upsert_row k set (set (default_row k)) refl (λ r. refl) db.volumes, missing)
          refl,
    )
