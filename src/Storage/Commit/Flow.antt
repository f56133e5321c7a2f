-- ===== src/Storage/Commit/Flow.antt =====
-- What a commit adds to the stored volumes of each account and asset.
use giro.Prelude.{◌≡◌, refl, sym, ap, ◌∙◌, subst, ite, ok, arith, ℤ, pos, ◌+ℤ◌, +ℤ-zero}
use giro.Ledger.Posting.{Postings}
use giro.Ledger.Volumes.{Key, Key-discrete, VolumeUpdate}
use giro.Ledger.Volumes.Totals.{
  flow, inflow, outflow, key_input, key_output, volume_updates-eq-flow,
}
use giro.Storage.Schema.{Db, VolumeRow, Transaction}
use giro.Storage.Locking.{lock_volumes, materialise}
use giro.Storage.Locking.Updates.{
  sum_rows, with_update, sum_rows-materialise, sum_rows-apply_volumes,
}
use giro.Storage.Log.{Allocation}
use giro.Storage.Commit.{ApplyOptions, Moment, apply_transaction}
use giro.Storage.Commit.Inversion.{Applied, apply_transaction-Applied, written-transaction}

-- The stored counters of one account and asset.
abbrev key_row_input : Key → VolumeRow → ℤ
key_row_input k r = ite (Key-discrete k r.key) r.volumes.input (pos 0)

abbrev key_row_output : Key → VolumeRow → ℤ
key_row_output k r = ite (Key-discrete k r.key) r.volumes.output (pos 0)

abbrev pub stored_input : Key → Db → ℤ
stored_input k db = sum_rows (key_row_input k) db.volumes

abbrev pub stored_output : Key → Db → ℤ
stored_output k db = sum_rows (key_row_output k) db.volumes

-- The counters of one account and asset have grown by what the postings bring in and take out.
abbrev pub GrownBy : Key → Postings → Db → Db → Type 0
GrownBy k p db after =
    (stored_input k after ≡ stored_input k db +ℤ flow (inflow k) p)
    × (stored_output k after ≡ stored_output k db +ℤ flow (outflow k) p)

module _ (k : Key) (u : VolumeUpdate) (r : VolumeRow) (same : u.key ≡ r.key) where
  key_row_input-with_update : key_row_input k (with_update u r) ≡ key_row_input k r +ℤ key_input k u
  key_row_input-with_update = rw same (ground (arith, +ℤ-zero (pos 0)))

  key_row_output-with_update :
      key_row_output k (with_update u r) ≡ key_row_output k r +ℤ key_output k u
  key_row_output-with_update = rw same (ground (arith, +ℤ-zero (pos 0)))

key_row-zero : (k j : Key) → ite (Key-discrete k j) (pos 0) (pos 0) ≡ pos 0
key_row-zero k j = ground arith

pub Applied-GrownBy :
    {m : Moment} {opts : ApplyOptions} {p : Postings} {db after : Db} {t : Transaction}
    {alloc : Allocation} (k : Key)
    → (x : Applied m opts p db after t alloc) → GrownBy k x.postings db after
unfolding lock_volumes
Applied-GrownBy {db = db} k x =
    let (ins, outs) = volume_updates-eq-flow k x.postings x.recounted in
    (
      sum_rows-apply_volumes (key_row_input k) (key_input k) (key_row_input-with_update k) x.updates
            (materialise x.named db.volumes) x.written.volumes
          ∙ rw (sum_rows-materialise (key_row_input k) (key_row-zero k) x.named db.volumes, ins)
              refl,
      sum_rows-apply_volumes (key_row_output k) (key_output k) (key_row_output-with_update k)
            x.updates (materialise x.named db.volumes) x.written.volumes
          ∙ rw (sum_rows-materialise (key_row_output k) (key_row-zero k) x.named db.volumes, outs)
              refl,
    )

-- A successful applyTransaction adds to the stored input and output of every account and asset
-- exactly what the postings that it stores bring in and take out.
pub apply_transaction-GrownBy :
    (m : Moment) (opts : ApplyOptions) (p : Postings) (db : Db) (k : Key) {after : Db}
    {t : Transaction} {alloc : Allocation}
    → apply_transaction m opts p db ≡ ok (after, t, alloc)
    → GrownBy k t.postings db after
apply_transaction-GrownBy m opts p db k {after} e =
    let x = apply_transaction-Applied m opts p db e in
    subst (λ q. GrownBy k q db after) (sym (ap (λ s. s.postings) (written-transaction x.written)))
      (Applied-GrownBy k x)
