-- ===== src/Storage/Commit/PostCommit.antt =====
-- The post-commit volumes of a transaction, against the rows that its commit leaves.
use giro.Prelude.{
  ◌≡◌, ◌≢◌, refl, sym, ap, ◌∙◌, subst, Option, none, some, List, [], ◌∷◌, ok, arith, All, >>=-eq-ok,
}
use giro.Ledger.Posting.{Postings}
use giro.Ledger.Volumes.{Key, VolumeUpdate}
use giro.Ledger.Volumes.Order.{IsDistinct, IsSorted-IsDistinct, volume_updates-IsSorted}
use giro.Storage.Schema.{Db, VolumeRow, Transaction, PostCommitVolumes}
use giro.Storage.Locking.{
  Locks, find_row, is_closed, count_rows, update_rows, apply_update, apply_volumes, add_volumes,
  lock_volumes, locked_of,
}
use giro.Storage.Locking.Updates.{with_update, apply_update-eq-ok, find_row-update_rows_ne}
use giro.Storage.Locking.Rows.{AtRows, find_row-apply_volumes}
use giro.Storage.Guards.{post_commit_volumes}
use giro.Storage.Log.{Allocation}
use giro.Storage.Commit.{ApplyOptions, Moment, apply_transaction}
use giro.Storage.Commit.LockedRows.{read_lock, updates-locked}
use giro.Storage.Commit.Bounds.{locked_at-eq}
use giro.Storage.Commit.Inversion.{apply_transaction-Applied, written-transaction}

count_rows-none : (k : Key) (rows : List VolumeRow) → find_row k rows ≡ none → count_rows k rows ≡ 0
unfolding find_row count_rows
count_rows-none k [] h = refl
count_rows-none k (r ∷ rs) h = ground (arith, count_rows-none k rs)

-- Every row that an update is applied to is there.
apply_volumes-found :
    (us : List VolumeUpdate) (rows : List VolumeRow) {rows' : List VolumeRow}
    → IsDistinct us
    → apply_volumes us rows ≡ ok rows'
    → All (λ u. (r : VolumeRow) × (find_row u.key rows ≡ some r)) us
unfolding apply_volumes
apply_volumes-found [] rows ds e = tt
apply_volumes-found (u ∷ us) rows ds e =
    let (updated, applied, rest) = >>=-eq-ok (apply_update u rows) (apply_volumes us) e in
    let (one, same) = apply_update-eq-ok u rows applied in
    (
      here one (find_row u.key rows) refl,
      back us ds.0 (
          subst (λ t. All (λ v. (r : VolumeRow) × (find_row v.key t ≡ some r)) us) same
            (apply_volumes-found us updated ds.1 rest)),
    )
  where
    here :
        count_rows u.key rows ≡ 1
        → (o : Option VolumeRow) → find_row u.key rows ≡ o
        → (r : VolumeRow) × (find_row u.key rows ≡ some r)
    here one none h = absurd (omega (arith, count_rows-none u.key rows h))
    here one (some r) h = (r, h)

    back :
        (vs : List VolumeUpdate)
        → All (λ v. v.key ≢ u.key) vs
        → All (λ v. (r : VolumeRow) × (find_row v.key (update_rows u rows) ≡ some r)) vs
        → All (λ v. (r : VolumeRow) × (find_row v.key rows ≡ some r)) vs
    back [] ne h = tt
    back (v ∷ vs) ne h =
        ((h.0.0, sym (find_row-update_rows_ne u v.key rows ne.0) ∙ h.0.1), back vs ne.1 h.1)

-- The table holds these volumes for these accounts and assets.
abbrev pub AreStored : List VolumeRow → PostCommitVolumes → Type 0
AreStored rows pcv =
    All (λ entry. (r : VolumeRow) × (find_row entry.0 rows ≡ some r) × (r.volumes ≡ entry.1)) pcv

post_commit_volumes-AreStored :
    (db : Db) (before : Locks) (rows' : List VolumeRow) (us : List VolumeUpdate)
    → All (λ u. before u.key ≡ some (read_lock db u.key)) us
    → All (λ u. (r : VolumeRow) × (find_row u.key db.volumes ≡ some r)) us
    → AtRows (λ u r. find_row u.key rows' ≡ some (with_update u r)) db.volumes us
    → AreStored rows' (post_commit_volumes before us)
unfolding post_commit_volumes
post_commit_volumes-AreStored db before rows' [] locks found ends = tt
post_commit_volumes-AreStored db before rows' (u ∷ us) locks found ends =
    let (r, there) = found.0 in
    (
      (
        with_update u r,
        ends.0 r there,
        ap (λ o. add_volumes u (locked_of u.key o (is_closed u.key.account db.accounts)).volumes)
              (sym there)
            ∙ ap (λ l. add_volumes u l.volumes) (sym (locked_at-eq db before u.key locks.0)),
      ),
      post_commit_volumes-AreStored db before rows' us locks.1 found.1 ends.1,
    )

-- The post-commit volumes that a successful applyTransaction returns are those of the rows that
-- the volume table has afterwards for these accounts and assets.
pub apply_transaction-AreStored :
    (m : Moment) (opts : ApplyOptions) (p : Postings) (db : Db) {after : Db} {t : Transaction}
    {alloc : Allocation}
    → apply_transaction m opts p db ≡ ok (after, t, alloc)
    → AreStored after.volumes t.post_commit_volumes
unfolding lock_volumes
apply_transaction-AreStored m opts p db {after} e =
    let x = apply_transaction-Applied m opts p db e in
    let locked_db = (lock_volumes db x.named).0 in
    let distinct = IsSorted-IsDistinct x.updates (volume_updates-IsSorted x.postings x.recounted) in
    subst (AreStored after.volumes)
      (sym (ap (λ s. s.post_commit_volumes) (written-transaction x.written)))
      (post_commit_volumes-AreStored locked_db (lock_volumes db x.named).1 after.volumes x.updates
        (updates-locked x)
        (apply_volumes-found x.updates locked_db.volumes distinct x.written.volumes)
        (find_row-apply_volumes x.updates locked_db.volumes distinct x.written.volumes))
