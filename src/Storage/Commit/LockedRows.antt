-- ===== src/Storage/Commit/LockedRows.antt =====
-- Every row that a commit updates is one that it has locked, sweeps included.
use giro.Prelude.{
  ◌≡◌, sym, ap, ◌∙◌, true, some, List, [], ◌∷◌, ok, ok-injective, >>=-eq-ok, Bool-cases, inl, inr,
  All, any,
}
use giro.Ledger.Posting.{Postings, has_up_to}
use giro.Ledger.Volumes.{Key, VolumeUpdate, volume_updates}
use giro.Ledger.Volumes.Keys.{names_key, has_key, has_key-volume_updates, All-has_key}
use giro.Storage.Schema.{Db, Transaction}
use giro.Storage.Locking.{
  Locked, Locks, find_row, is_closed, touches, read_locks, lock_volumes, locked_of, materialise,
}
use giro.Storage.Sweep.{resolve_up_to}
use giro.Storage.Sweep.Resolution.{resolve_up_to-names_key}
use giro.Storage.Log.{Allocation}
use giro.Storage.Commit.{ApplyOptions, Moment, or_nil_amount, resolve}
use giro.Storage.Commit.Inversion.{Applied}

resolve-names_key :
    (k : Key) (p : Postings) (before : Locks) (named : List VolumeUpdate) {q : Postings}
    {us : List VolumeUpdate}
    → resolve p before named ≡ ok (q, us)
    → any (names_key k) q ≡ any (names_key k) p
unfolding resolve
resolve-names_key k p before named h = elim (Bool-cases (has_up_to p)) [
  | inl sweeps ↦
      let h' = rw (sweeps, resolve) at h in
      let (q, swept, h1) = >>=-eq-ok (resolve_up_to p before) _ h' in
      let (us, recounted, h2) = >>=-eq-ok (or_nil_amount (volume_updates q)) _ h1 in
      ap (λ z. any (names_key k) z.0) (sym (ok-injective h2))
      ∙ resolve_up_to-names_key before k p swept
  | inr fixed ↦
      let h' = rw (fixed, resolve) at h in ap (λ z. any (names_key k) z.0) (sym (ok-injective h'))
]

-- What `before` holds of a key among the locked ones: its row, and whether its account is closed.
abbrev pub read_lock : Db → Key → Locked
read_lock db k = locked_of k (find_row k db.volumes) (is_closed k.account db.accounts)

read_locks-eq :
    (db : Db) (us : List VolumeUpdate) (k : Key)
    → has_key k us ≡ true
    → read_locks db us k ≡ some (read_lock db k)
unfolding read_locks touches
read_locks-eq db us k h = rw h

module _ {m : Moment} {opts : ApplyOptions} {p : Postings} {db after : Db} {t : Transaction}
    {alloc : Allocation} (x : Applied m opts p db after t alloc) where
  has_key-named : (k : Key) → has_key k x.updates ≡ has_key k x.named
  has_key-named k =
      has_key-volume_updates k x.postings x.recounted
      ∙ resolve-names_key k p (lock_volumes db x.named).1 x.named x.resolved
      ∙ sym (has_key-volume_updates k p x.counted)

  All-locked :
      (us : List VolumeUpdate)
      → All (λ u. has_key u.key x.updates ≡ true) us
      → All
          (λ u.
            (lock_volumes db x.named).1 u.key ≡ some (read_lock (lock_volumes db x.named).0 u.key))
          us
  unfolding lock_volumes
  All-locked [] h = tt
  All-locked (u ∷ us) h = (
    read_locks-eq (record db { volumes = materialise x.named db.volumes }) x.named u.key
        (sym (has_key-named u.key) ∙ h.0),
    All-locked us h.1,
  )

  -- The row of every delta that is written was locked, also where the deltas were recomputed.
  pub updates-locked :
      All
        (λ u.
          (lock_volumes db x.named).1 u.key ≡ some (read_lock (lock_volumes db x.named).0 u.key))
        x.updates
  updates-locked = All-locked x.updates (All-has_key x.updates)
