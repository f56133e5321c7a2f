-- ===== src/Storage/Closure/Emptiness.antt =====
-- Closed accounts hold nothing: what closing requires, what a commit keeps, what the check finds.
use giro.Prelude.{
  ◌≡◌, ◌≢◌, refl, sym, ap, ◌∙◌, subst, true, false, ◌||◌, none, List, [], ◌∷◌, ok, inl, inr, arith,
  ℤ, pos, negsuc, ltb_ℤ, All, Bool-cases, ok-injective, err-ne-ok, Bytes-discrete,
}
use giro.Ledger.Address.{Address, is_valid_address}
use giro.Ledger.Volumes.{VolumeUpdate}
use giro.Storage.Schema.{Db, VolumeRow, AccountRow, Time}
use giro.Storage.Locking.{is_world, is_closed}
use giro.Storage.Rows.{distinct_accounts, upsert_account, upsert_accounts, queue_accounts}
use giro.Storage.Closure.{holds_anything, close_row, close_account, reopen_rows, reopen_account}

abbrev pub IsEmptyRow : VolumeRow → Type 0
IsEmptyRow r = r.volumes.input ≡ r.volumes.output

-- Whatever account is closed holds nothing in any asset.
abbrev pub ClosedAreEmpty : Db → Type 0
ClosedAreEmpty db = All (λ r. is_closed r.key.account db.accounts ≡ true → IsEmptyRow r) db.volumes

pub same_of_ltb : (a b : ℤ) → (ltb_ℤ a b || ltb_ℤ b a) ≡ false → a ≡ b
same_of_ltb (pos m) (pos n) h = ground arith
same_of_ltb (pos m) (negsuc n) h = ground arith
same_of_ltb (negsuc m) (pos n) h = ground arith
same_of_ltb (negsuc m) (negsuc n) h = ground arith

pub ltb_refl : (a b : ℤ) → a ≡ b → (ltb_ℤ a b || ltb_ℤ b a) ≡ false
ltb_refl a b same = rw same (ground arith)

is_closed-close_row :
    (now : Time) (a : Address) (rows : List AccountRow) → is_closed a (close_row now a rows) ≡ true
unfolding close_row is_closed
is_closed-close_row now a [] = ground arith
is_closed-close_row now a (r ∷ rs) = ground (arith, is_closed-close_row now a rs)

pub is_closed-close_row_ne :
    (now : Time) (a b : Address) (rows : List AccountRow)
    → b ≢ a
    → is_closed b (close_row now a rows) ≡ is_closed b rows
unfolding close_row is_closed
is_closed-close_row_ne now a b [] ne = ground arith
is_closed-close_row_ne now a b (r ∷ rs) ne = ground (arith, is_closed-close_row_ne now a b rs ne)

is_closed-reopen_rows :
    (now : Time) (a : Address) (rows : List AccountRow)
    → is_closed a (reopen_rows now a rows) ≡ false
unfolding reopen_rows is_closed
is_closed-reopen_rows now a [] = refl
is_closed-reopen_rows now a (r ∷ rs) = ground (arith, is_closed-reopen_rows now a rs)

is_closed-reopen_rows_ne :
    (now : Time) (a b : Address) (rows : List AccountRow)
    → b ≢ a
    → is_closed b (reopen_rows now a rows) ≡ is_closed b rows
unfolding reopen_rows is_closed
is_closed-reopen_rows_ne now a b [] ne = refl
is_closed-reopen_rows_ne now a b (r ∷ rs) ne =
    ground (arith, is_closed-reopen_rows_ne now a b rs ne)

-- The rows of an account that holds nothing.
holds_anything-All :
    (a : Address) (rows : List VolumeRow)
    → holds_anything a rows ≡ false
    → All (λ r. r.key.account ≡ a → IsEmptyRow r) rows
holds_anything-All a [] h = tt
holds_anything-All a (r ∷ rs) h = (
  λ at. same_of_ltb r.volumes.input r.volumes.output (unfold holds_anything in ground arith),
  holds_anything-All a rs (unfold holds_anything in ground arith),
)

All-closed_row :
    (now : Time) (a : Address) (accounts : List AccountRow) (rows : List VolumeRow)
    → All (λ r. r.key.account ≡ a → IsEmptyRow r) rows
    → All (λ r. is_closed r.key.account accounts ≡ true → IsEmptyRow r) rows
    → All (λ r. is_closed r.key.account (close_row now a accounts) ≡ true → IsEmptyRow r) rows
All-closed_row now a accounts [] fresh old = tt
All-closed_row now a accounts (r ∷ rs) fresh old = (
  λ shut. elim (Bytes-discrete r.key.account a) [
    | yes at ↦ fresh.0 at
    | no ne ↦ old.0 (sym (is_closed-close_row_ne now a r.key.account accounts ne) ∙ shut)
  ],
  All-closed_row now a accounts rs fresh.1 old.1,
)

close_account-eq-ok :
    (now : Time) (a : Address) (db : Db) {after : Db}
    → close_account now a db ≡ ok after
    → (holds_anything a db.volumes ≡ false)
      × (is_world a ≡ false)
      × (after ≡ record db { accounts = close_row now a db.accounts })
unfolding close_account
close_account-eq-ok now a db h = elim (Bool-cases (is_valid_address a)) [
  | inr bad ↦ absurd (err-ne-ok (rw bad at h))
  | inl valid ↦ elim (Bool-cases (is_world a)) [
    | inl world ↦ absurd (err-ne-ok (rw (valid, world) at h))
    | inr other ↦ elim (Bool-cases (holds_anything a db.volumes)) [
      | inl holds ↦ absurd (err-ne-ok (rw (valid, other, holds) at h))
      | inr nothing ↦ (nothing, other, sym (ok-injective (rw (valid, other, nothing) at h)))
    ]
  ]
]

-- CloseAccount, when it succeeds, leaves the account closed and without a balance in any asset,
-- closes or opens no other, and keeps it so that closed accounts hold nothing.
pub close_account-ClosedAreEmpty :
    (now : Time) (a : Address) (db : Db) {after : Db}
    → close_account now a db ≡ ok after
    → (is_closed a after.accounts ≡ true)
      × All (λ r. r.key.account ≡ a → IsEmptyRow r) after.volumes
      × ((b : Address) → b ≢ a → is_closed b after.accounts ≡ is_closed b db.accounts)
      × (ClosedAreEmpty db → ClosedAreEmpty after)
close_account-ClosedAreEmpty now a db h =
    let (nothing, other, same) = close_account-eq-ok now a db h in
    let empty = holds_anything-All a db.volumes nothing in
    subst
      (λ s.
        (is_closed a s.accounts ≡ true)
        × All (λ r. r.key.account ≡ a → IsEmptyRow r) s.volumes
        × ((b : Address) → b ≢ a → is_closed b s.accounts ≡ is_closed b db.accounts)
        × (ClosedAreEmpty db → ClosedAreEmpty s))
      (sym same)
      (
        is_closed-close_row now a db.accounts,
        empty,
        λ b ne. is_closed-close_row_ne now a b db.accounts ne,
        λ old. All-closed_row now a db.accounts db.volumes empty old,
      )

reopen_account-eq-ok :
    (now : Time) (a : Address) (db : Db) {after : Db}
    → reopen_account now a db ≡ ok after
    → (is_closed a db.accounts ≡ true)
      × (after ≡ record db { accounts = reopen_rows now a db.accounts })
unfolding reopen_account
reopen_account-eq-ok now a db h = elim (Bool-cases (is_valid_address a)) [
  | inr bad ↦ absurd (err-ne-ok (rw bad at h))
  | inl valid ↦ elim (Bool-cases (is_closed a db.accounts)) [
    | inr open_account ↦ absurd (err-ne-ok (rw (valid, open_account) at h))
    | inl shut ↦ (shut, sym (ok-injective (rw (valid, shut) at h)))
  ]
]

-- ReopenAccount, when it succeeds, found the account closed, leaves it open, and closes or opens
-- no other.
pub reopen_account-opens :
    (now : Time) (a : Address) (db : Db) {after : Db}
    → reopen_account now a db ≡ ok after
    → (is_closed a db.accounts ≡ true)
      × (is_closed a after.accounts ≡ false)
      × ((b : Address) → b ≢ a → is_closed b after.accounts ≡ is_closed b db.accounts)
reopen_account-opens now a db h =
    let (shut, same) = reopen_account-eq-ok now a db h in
    (
      shut,
      ap (λ s. is_closed a s.accounts) same ∙ is_closed-reopen_rows now a db.accounts,
      λ b ne.
          ap (λ s. is_closed b s.accounts) same ∙ is_closed-reopen_rows_ne now a b db.accounts ne,
    )

-- A commit closes and opens nothing.
is_closed-upsert_account :
    (db_now timestamp : Time) (a b : Address) (rows : List AccountRow)
    → is_closed b (upsert_account db_now timestamp a rows) ≡ is_closed b rows
unfolding upsert_account is_closed
is_closed-upsert_account db_now timestamp a b [] = ground arith
is_closed-upsert_account db_now timestamp a b (r ∷ rs) =
    ground (arith, is_closed-upsert_account db_now timestamp a b rs)

is_closed-upsert_accounts :
    (db_now timestamp : Time) (addresses : List Address) (b : Address) (rows : List AccountRow)
    → is_closed b (upsert_accounts db_now timestamp addresses rows) ≡ is_closed b rows
unfolding upsert_accounts
is_closed-upsert_accounts db_now timestamp [] b rows = refl
is_closed-upsert_accounts db_now timestamp (a ∷ addresses) b rows =
    is_closed-upsert_accounts db_now timestamp addresses b (upsert_account db_now timestamp a rows)
    ∙ is_closed-upsert_account db_now timestamp a b rows

pub is_closed-queue_accounts :
    (db_now timestamp : Time) (us : List VolumeUpdate) (b : Address) (rows : List AccountRow)
    → is_closed b (queue_accounts db_now timestamp us rows) ≡ is_closed b rows
unfolding queue_accounts
is_closed-queue_accounts db_now timestamp us b rows =
    is_closed-upsert_accounts db_now timestamp (distinct_accounts none us) b rows
