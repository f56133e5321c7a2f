-- ===== src/Storage/Commit/Conservation.antt =====
-- Money is neither created nor destroyed by a commit.
use giro.Prelude.{
  ◌≡◌, sym, ◌∙◌, subst, ite, ok, inl, inr, arith, ℤ, pos, ◌+ℤ◌, +ℤ-zero, Bytes, Bytes-discrete,
}
use giro.Ledger.Asset.{Asset}
use giro.Ledger.Posting.{Postings}
use giro.Ledger.Volumes.{Key, VolumeUpdate}
use giro.Ledger.Volumes.Totals.{asset_input, asset_output, volume_updates-conserve}
use giro.Storage.Schema.{Db, VolumeRow, Transaction}
use giro.Storage.Locking.{lock_volumes}
use giro.Storage.Locking.Updates.{
  sum_rows, with_update, sum_rows-materialise, sum_rows-apply_volumes,
}
use giro.Storage.Encoding.{Encoding}
use giro.Storage.Log.{Allocation}
use giro.Storage.Commit.{
  CommitOptions, ApplyOptions, Moment, Attempt, commit_once, apply_transaction,
}
use giro.Storage.Commit.Inversion.{Applied, apply_transaction-Applied, commit_once-cases}

-- The counters of one asset, summed over the table.
abbrev pub row_input : Asset → VolumeRow → ℤ
row_input a r = ite (Bytes-discrete a r.key.asset) r.volumes.input (pos 0)

abbrev pub row_output : Asset → VolumeRow → ℤ
row_output a r = ite (Bytes-discrete a r.key.asset) r.volumes.output (pos 0)

-- In every asset, all that has come into accounts has gone out of accounts: the balances sum to 0.
abbrev pub IsConserved : Db → Type 0
IsConserved db =
    (a : Asset) → sum_rows (row_input a) db.volumes ≡ sum_rows (row_output a) db.volumes

module _ (a : Asset) (u : VolumeUpdate) (r : VolumeRow) (same : u.key ≡ r.key) where
  row_input-with_update : row_input a (with_update u r) ≡ row_input a r +ℤ asset_input a u
  row_input-with_update = rw same (ground (arith, +ℤ-zero (pos 0)))

  row_output-with_update : row_output a (with_update u r) ≡ row_output a r +ℤ asset_output a u
  row_output-with_update = rw same (ground (arith, +ℤ-zero (pos 0)))

row_input-zero : (a : Asset) (k : Key) → ite (Bytes-discrete a k.asset) (pos 0) (pos 0) ≡ pos 0
row_input-zero a k = ground arith

pub Applied-IsConserved :
    {m : Moment} {opts : ApplyOptions} {p : Postings} {db after : Db} {t : Transaction}
    {alloc : Allocation}
    → Applied m opts p db after t alloc
    → IsConserved db
    → IsConserved after
unfolding lock_volumes
Applied-IsConserved {db = db} x h a =
    sum_rows-apply_volumes (row_input a) (asset_input a) (row_input-with_update a) x.updates _
      x.written.volumes
    ∙ rw
        (
          sum_rows-materialise (row_input a) (row_input-zero a) x.named db.volumes,
          h a,
          volume_updates-conserve a x.postings x.recounted,
        )
        (sym (
          sum_rows-apply_volumes (row_output a) (asset_output a) (row_output-with_update a)
            x.updates _ x.written.volumes
          ∙ rw (sum_rows-materialise (row_output a) (row_input-zero a) x.named db.volumes)))

-- If in every asset the inputs of all accounts sum to their outputs, a successful applyTransaction
-- leaves it so, sweeps included.
pub apply_transaction-IsConserved :
    (m : Moment) (opts : ApplyOptions) (p : Postings) (db : Db) {after : Db} {t : Transaction}
    {alloc : Allocation}
    → IsConserved db
    → apply_transaction m opts p db ≡ ok (after, t, alloc)
    → IsConserved after
apply_transaction-IsConserved m opts p db h e =
    Applied-IsConserved (apply_transaction-Applied m opts p db e) h

-- If in every asset the inputs of all accounts sum to their outputs, a successful attempt of
-- commitOnce leaves it so, whether it wrote, replayed a key, lost a race for one, or was a dry
-- run.
pub commit_once-IsConserved :
    (e : Encoding) (a : Attempt) (p : Postings) (opts : CommitOptions) (ik_hash : Bytes)
    {after : Db} {t : Transaction}
    → IsConserved a.db
    → commit_once e a p opts ik_hash ≡ ok (after, t)
    → IsConserved after
commit_once-IsConserved e a p opts ik_hash h c = elim (commit_once-cases e a p opts ik_hash c) [
  | inl same ↦ subst IsConserved (sym same) h
  | inr x ↦ subst IsConserved (sym x.result) (Applied-IsConserved x.by_apply h)
]
