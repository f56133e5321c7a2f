-- ===== src/Storage/Closure/Commits.antt =====
-- Closed accounts hold nothing after a commit, but for those that others close during it, and the
-- check of that decides it.
use giro.Prelude.{
  ◌≡◌, ◌≢◌, refl, sym, ap, ◌∙◌, Bool, true, false, ◌&&◌, some, List, [], ◌∷◌, ok, inl, inr, ◌↔◌,
  ◌⊎◌, Bytes-discrete, arith, All, Bool-cases,
}
use giro.Ledger.Address.{Address}
use giro.Ledger.Posting.{Postings}
use giro.Ledger.Volumes.{Key, VolumeUpdate}
use giro.Ledger.Volumes.Order.{IsSorted-IsDistinct, volume_updates-IsSorted}
use giro.Storage.Schema.{Db, VolumeRow, AccountRow, Transaction, Time}
use giro.Storage.Locking.{find_row, is_closed, lock_volumes}
use giro.Storage.Locking.Updates.{with_update}
use giro.Storage.Locking.Rows.{AtRows, All-apply_volumes, All-materialise}
use giro.Storage.Log.{Allocation}
use giro.Storage.Closure.{holds_balance, close_row, stranded_rows, verify_closed_accounts}
use giro.Storage.Closure.Emptiness.{
  IsEmptyRow, ClosedAreEmpty, is_closed-close_row_ne, is_closed-queue_accounts, same_of_ltb,
  ltb_refl,
}
use giro.Storage.Commit.{ApplyOptions, Moment, apply_transaction}
use giro.Storage.Commit.Inversion.{apply_transaction-Applied}
use giro.Storage.Commit.LockedRows.{updates-locked}
use giro.Storage.Commit.Bounds.{check_closed-All}

find_row-key :
    (k : Key) (rows : List VolumeRow) (r : VolumeRow) → find_row k rows ≡ some r → k ≡ r.key
unfolding find_row
find_row-key k [] r h = cc
find_row-key k (s ∷ rows) r h = ground (arith, find_row-key k rows r)

module _ (accounts : List AccountRow) where
  abbrev IsEmptyIfClosed : VolumeRow → Type 0
  IsEmptyIfClosed r = is_closed r.key.account accounts ≡ true → IsEmptyRow r

  AtRows-unclosed :
      (rows : List VolumeRow) (us : List VolumeUpdate)
      → All (λ u. is_closed u.key.account accounts ≡ false) us
      → AtRows (λ u r. IsEmptyIfClosed (with_update u r)) rows us
  AtRows-unclosed rows [] h = tt
  AtRows-unclosed rows (u ∷ us) h = (
    λ r found shut. absurd (
        cc (
          sym h.0
          ∙ ap (λ k. is_closed k.account accounts) (find_row-key u.key rows r found)
          ∙ shut)),
    AtRows-unclosed rows us h.1,
  )

  stranded_rows-empty :
      (r : VolumeRow) (rs : List VolumeRow)
      → (is_closed r.key.account accounts && holds_balance r) ≡ false
      → stranded_rows accounts (r ∷ rs) ≡ stranded_rows accounts rs
  unfolding stranded_rows
  stranded_rows-empty r rs fine = rw fine

  stranded_rows-stranded :
      (r : VolumeRow) (rs : List VolumeRow)
      → (is_closed r.key.account accounts && holds_balance r) ≡ true
      → stranded_rows accounts (r ∷ rs) ≢ []
  unfolding stranded_rows
  stranded_rows-stranded r rs bad h = cc (rw bad at h)

  and_false : (a b : Bool) → (a && b) ≡ false → a ≡ true → b ≡ false
  and_false true b h e = h
  and_false false b h e = cc

  stranded_rows-All :
      (rows : List VolumeRow) → stranded_rows accounts rows ≡ [] ↔ All IsEmptyIfClosed rows
  stranded_rows-All rows = (only_if rows, when rows)
    where
      only_if :
          (rows : List VolumeRow) → stranded_rows accounts rows ≡ [] → All IsEmptyIfClosed rows
      only_if [] h = tt
      only_if (r ∷ rs) h = elim (Bool-cases (is_closed r.key.account accounts && holds_balance r)) [
        | inl bad ↦ absurd (stranded_rows-stranded r rs bad h)
        | inr fine ↦ (
          λ shut.
              same_of_ltb r.volumes.input r.volumes.output
                (and_false _ (holds_balance r) fine shut),
          only_if rs (sym (stranded_rows-empty r rs fine) ∙ h),
        )
      ]

      fine_of :
          (r : VolumeRow)
          → IsEmptyIfClosed r
          → (is_closed r.key.account accounts && holds_balance r) ≡ false
      fine_of r h = elim (Bool-cases (is_closed r.key.account accounts)) [
        | inl shut ↦ rw shut (ltb_refl r.volumes.input r.volumes.output (h shut))
        | inr free ↦ rw free refl
      ]

      when : (rows : List VolumeRow) → All IsEmptyIfClosed rows → stranded_rows accounts rows ≡ []
      when [] h = unfold stranded_rows in refl
      when (r ∷ rs) h = stranded_rows-empty r rs (fine_of r h.0) ∙ when rs h.1

All-closed_by :
    (accounts accounts' : List AccountRow)
    → ((b : Address) → is_closed b accounts' ≡ is_closed b accounts)
    → (rows : List VolumeRow) → All (IsEmptyIfClosed accounts) rows
    → All (IsEmptyIfClosed accounts') rows
All-closed_by accounts accounts' same [] h = tt
All-closed_by accounts accounts' same (r ∷ rs) h =
    (λ shut. h.0 (sym (same r.key.account) ∙ shut), All-closed_by accounts accounts' same rs h.1)

-- Other sessions close accounts.
abbrev pub close_rows : Time → List Address → List AccountRow → List AccountRow
close_rows now [] rows = rows
close_rows now (a ∷ as') rows = close_row now a (close_rows now as' rows)

abbrev pub IsAmong : Address → List Address → Type 0
IsAmong a [] = ⊥
IsAmong a (b ∷ bs) = (a ≡ b) ⊎ IsAmong a bs

is_closed-close_rows :
    (now : Time) (closed : List Address) (rows : List AccountRow) (b : Address)
    → is_closed b (close_rows now closed rows) ≡ true
    → (is_closed b rows ≡ true) ⊎ IsAmong b closed
is_closed-close_rows now [] rows b h = inl h
is_closed-close_rows now (a ∷ as') rows b h = elim (Bytes-discrete b a) [
  | yes same ↦ inr (inl same)
  | no other ↦
      elim (is_closed-close_rows now as' rows b
        (sym (is_closed-close_row_ne now a b (close_rows now as' rows) other) ∙ h)) [
          | inl before ↦ inl before
          | inr among ↦ inr (inr among)
        ]
]

-- A row of a closed account is empty, or the account is one of those closed by other sessions.
abbrev pub IsEmptyOrRecent : Time → List Address → List AccountRow → VolumeRow → Type 0
IsEmptyOrRecent now closed accounts r =
    is_closed r.key.account (close_rows now closed accounts) ≡ true
    → IsEmptyRow r ⊎ IsAmong r.key.account closed

All-recent :
    (now : Time) (closed : List Address) (accounts : List AccountRow) (rows : List VolumeRow)
    → All (IsEmptyIfClosed accounts) rows
    → All (IsEmptyOrRecent now closed accounts) rows
All-recent now closed accounts [] h = tt
All-recent now closed accounts (r ∷ rows) h = (
  λ shut. elim (is_closed-close_rows now closed accounts r.key.account shut) [
    | inl before ↦ inl (h.0 before)
    | inr among ↦ inr among
  ],
  All-recent now closed accounts rows h.1,
)

-- If whatever account is closed holds nothing in any asset, and other sessions close accounts after
-- applyTransaction has looked for closed ones, then after an applyTransaction that succeeds every
-- account that is closed holds nothing in any asset, but for those that these sessions closed.
pub apply_transaction-close_rows :
    (m : Moment) (opts : ApplyOptions) (p : Postings) (db : Db) {after : Db} {t : Transaction}
    {alloc : Allocation}
    → ClosedAreEmpty db
    → apply_transaction m opts p db ≡ ok (after, t, alloc)
    → (now : Time) (closed : List Address)
    → All (IsEmptyOrRecent now closed after.accounts) after.volumes
unfolding lock_volumes
apply_transaction-close_rows m opts p db {after} h e now closed =
    let x = apply_transaction-Applied m opts p db e in
    let locked_db = (lock_volumes db x.named).0 in
    let unclosed =
      check_closed-All locked_db (lock_volumes db x.named).1 x.updates (updates-locked x)
        x.unclosed in
    All-recent now closed after.accounts after.volumes (
      All-closed_by db.accounts after.accounts
        (λ b.
          ap (is_closed b) x.written.accounts
          ∙ is_closed-queue_accounts m.db_now x.written.timestamp x.updates b db.accounts)
        after.volumes
        (All-apply_volumes (IsEmptyIfClosed db.accounts) x.updates locked_db.volumes
          (IsSorted-IsDistinct x.updates (volume_updates-IsSorted x.postings x.recounted))
          (AtRows-unclosed db.accounts locked_db.volumes x.updates unclosed)
          (All-materialise (IsEmptyIfClosed db.accounts) (λ k shut. refl) x.named db.volumes h)
          x.written.volumes))

-- VerifyClosedAccounts finds nothing exactly when every closed account holds nothing.
pub verify_closed_accounts-ClosedAreEmpty :
    (db : Db) → (verify_closed_accounts db).1 ≡ [] ↔ ClosedAreEmpty db
unfolding verify_closed_accounts
verify_closed_accounts-ClosedAreEmpty db = stranded_rows-All db.accounts db.volumes
