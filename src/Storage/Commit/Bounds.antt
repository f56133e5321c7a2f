-- ===== src/Storage/Commit/Bounds.antt =====
-- The balance guard and the closure guard, against the rows that a commit leaves.
use giro.Prelude.{
  ◌≡◌, sym, ap, ◌∙◌, Bool, true, false, Option, none, some, List, [], ◌∷◌, ok, inl, inr, ◌⊎◌, arith,
  ◌≤ℤ◌, err-ne-ok, Bool-cases, Option-cases, All,
}
use giro.Ledger.Posting.{Postings}
use giro.Ledger.Volumes.{Key, VolumeUpdate, volume_updates}
use giro.Ledger.Volumes.Order.{IsSorted-IsDistinct, volume_updates-IsSorted}
use giro.Storage.Schema.{Db, VolumeRow, Transaction}
use giro.Storage.Locking.{Locks, find_row, is_closed, lock_volumes, locked_of, zero_row}
use giro.Storage.Locking.Updates.{with_update}
use giro.Storage.Locking.Rows.{AtRows, All-apply_volumes, All-materialise}
use giro.Storage.Guards.{locked_at, balance_fault, check_balances, check_closed}
use giro.Storage.Log.{Allocation}
use giro.Storage.Commit.{ApplyOptions, Moment, apply_transaction}
use giro.Storage.Commit.LockedRows.{read_lock, updates-locked}
use giro.Storage.Commit.Inversion.{Applied, written-transaction, apply_transaction-Applied}

-- A row's balance is on no side of zero that the row does not permit.
pub record RowIsWithin (r : VolumeRow) : Type 0 where
  pub below : (r.allow_negative ≡ true) ⊎ (r.volumes.output ≤ℤ r.volumes.input)
  pub above : (r.allow_positive ≡ true) ⊎ (r.volumes.input ≤ℤ r.volumes.output)

-- No account of the ledger holds a balance that it is not permitted to hold.
abbrev pub IsWithin : Db → Type 0
IsWithin db = All RowIsWithin db.volumes

balance_fault-RowIsWithin :
    (closed : Bool) (u : VolumeUpdate) (r : VolumeRow)
    → balance_fault (locked_of u.key (some r) closed) u ≡ none
    → RowIsWithin (with_update u r)
unfolding balance_fault
balance_fault-RowIsWithin closed u r h = ground arith

check_balances-All :
    (before : Locks) (us : List VolumeUpdate)
    → check_balances before us ≡ ok tt
    → All (λ u. balance_fault (locked_at before u.key) u ≡ none) us
unfolding check_balances
check_balances-All before [] h = tt
check_balances-All before (u ∷ us) h =
    elim (Option-cases (balance_fault (locked_at before u.key) u)) [
      | inl fine ↦ (fine, check_balances-All before us (rw (check_balances, fine) at h))
      | inr (error, found) ↦ absurd (err-ne-ok (rw (check_balances, found) at h))
    ]

module _ (db : Db) (before : Locks) where
  abbrev IsLocked : VolumeUpdate → Type 0
  IsLocked u = before u.key ≡ some (read_lock db u.key)

  pub locked_at-eq :
      (k : Key) → before k ≡ some (read_lock db k) → locked_at before k ≡ read_lock db k
  locked_at-eq k h = ground arith

  updated-RowIsWithin :
      (us : List VolumeUpdate)
      → All IsLocked us
      → All (λ u. balance_fault (locked_at before u.key) u ≡ none) us
      → AtRows (λ u r. RowIsWithin (with_update u r)) db.volumes us
  updated-RowIsWithin [] locks fine = tt
  updated-RowIsWithin (u ∷ us) locks fine = (
    λ r found. balance_fault-RowIsWithin (is_closed u.key.account db.accounts) u r (
        ap (λ o. balance_fault (locked_of u.key o (is_closed u.key.account db.accounts)) u)
          (sym found)
        ∙ ap (λ l. balance_fault l u) (sym (locked_at-eq u.key locks.0))
        ∙ fine.0),
    updated-RowIsWithin us locks.1 fine.1,
  )

  pub check_closed-All :
      (us : List VolumeUpdate)
      → All IsLocked us
      → check_closed before us ≡ ok tt
      → All (λ u. is_closed u.key.account db.accounts ≡ false) us
  unfolding check_closed
  check_closed-All [] locks h = tt
  check_closed-All (u ∷ us) locks h = elim (Bool-cases (locked_at before u.key).closed) [
    | inl shut ↦ absurd (err-ne-ok (rw (check_closed, shut) at h))
    | inr open_account ↦ (
      closed_of (find_row u.key db.volumes)
          (ap (λ l. l.closed) (sym (locked_at-eq u.key locks.0)) ∙ open_account),
      check_closed-All us locks.1 (rw (check_closed, open_account) at h),
    )
  ]
    where
      closed_of :
          (o : Option VolumeRow)
          → (locked_of u.key o (is_closed u.key.account db.accounts)).closed ≡ false
          → is_closed u.key.account db.accounts ≡ false
      closed_of none c = c
      closed_of (some r) c = c

zero-RowIsWithin : (k : Key) → RowIsWithin (zero_row k)
zero-RowIsWithin k = record { below = inr (omega arith); above = inr (omega arith) }

pub materialise-IsWithin :
    (us : List VolumeUpdate) (db : Db) → IsWithin db → IsWithin (lock_volumes db us).0
unfolding lock_volumes
materialise-IsWithin us db h = All-materialise RowIsWithin zero-RowIsWithin us db.volumes h

pub Applied-IsWithin :
    {m : Moment} {opts : ApplyOptions} {p : Postings} {db after : Db} {t : Transaction}
    {alloc : Allocation}
    → Applied m opts p db after t alloc
    → IsWithin db
    → IsWithin after
unfolding lock_volumes
Applied-IsWithin {db = db} x h =
    let locked_db = (lock_volumes db x.named).0 in
    All-apply_volumes RowIsWithin x.updates locked_db.volumes
      (IsSorted-IsDistinct x.updates (volume_updates-IsSorted x.postings x.recounted))
      (updated-RowIsWithin locked_db (lock_volumes db x.named).1 x.updates (updates-locked x)
        (check_balances-All (lock_volumes db x.named).1 x.updates x.within))
      (materialise-IsWithin x.named db h) x.written.volumes

-- If no volume row holds a balance on a side of zero that the row does not permit, none does after
-- a successful applyTransaction.
pub apply_transaction-IsWithin :
    (m : Moment) (opts : ApplyOptions) (p : Postings) (db : Db) {after : Db} {t : Transaction}
    {alloc : Allocation}
    → IsWithin db
    → apply_transaction m opts p db ≡ ok (after, t, alloc)
    → IsWithin after
apply_transaction-IsWithin m opts p db h e =
    Applied-IsWithin (apply_transaction-Applied m opts p db e) h

-- The deltas of the postings that a successful applyTransaction stores exist, and none of their
-- accounts is closed.
pub apply_transaction-unclosed :
    (m : Moment) (opts : ApplyOptions) (p : Postings) (db : Db) {after : Db} {t : Transaction}
    {alloc : Allocation}
    → apply_transaction m opts p db ≡ ok (after, t, alloc)
    → (us : List VolumeUpdate) × (volume_updates t.postings ≡ ok us)
      × All (λ u. is_closed u.key.account db.accounts ≡ false) us
unfolding lock_volumes
apply_transaction-unclosed m opts p db e =
    let x = apply_transaction-Applied m opts p db e in
    (
      x.updates,
      ap (λ s. volume_updates s.postings) (written-transaction x.written) ∙ x.recounted,
      check_closed-All (lock_volumes db x.named).0 (lock_volumes db x.named).1 x.updates
          (updates-locked x) x.unclosed,
    )
