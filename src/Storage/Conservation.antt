-- ===== src/Storage/Conservation.antt =====
-- storage/verify_runs.go: `VerifyConservation`, the check of the master invariant.
pub mod Decides
use giro.Prelude.{
  ℕ, Bool, true, false, ◌||◌, List, [], ◌∷◌, if◌then◌else◌, ℤ, ◌-ℤ◌, ltb_ℤ, length, Ordering,
  compare_bytes,
}
use giro.Ledger.Asset.{Asset}
use giro.Storage.Schema.{Db, VolumeRow}
use giro.Storage.Locking.Updates.{sum_rows}
use giro.Storage.Commit.Conservation.{row_input, row_output}

-- `group by asset order by asset`: the assets of the rows, sorted, each once
unfoldable pub insert_asset : Asset → List Asset → List Asset
unfolding compare_bytes
insert_asset a [] = a ∷ []
insert_asset a (b ∷ bs) = elim (compare_bytes a b) [
  | Ordering.lt ↦ a ∷ b ∷ bs
  | Ordering.eq ↦ b ∷ bs
  | Ordering.gt ↦ b ∷ insert_asset a bs
]

unfoldable pub group_assets : List VolumeRow → List Asset
unfolding insert_asset
group_assets [] = []
group_assets (r ∷ rs) = insert_asset r.key.asset (group_assets rs)

-- `sum(input) - sum(output)`, and whether it is not zero
abbrev pub drift : Asset → List VolumeRow → ℤ
drift a rows = sum_rows (row_input a) rows -ℤ sum_rows (row_output a) rows

abbrev pub has_drifted : Asset → List VolumeRow → Bool
has_drifted a rows =
    ltb_ℤ (sum_rows (row_input a) rows) (sum_rows (row_output a) rows)
    || ltb_ℤ (sum_rows (row_output a) rows) (sum_rows (row_input a) rows)

unfoldable pub drifted_assets : List VolumeRow → List Asset → List (Asset × ℤ)
drifted_assets rows [] = []
drifted_assets rows (a ∷ as') =
    let rest = drifted_assets rows as' in
    if has_drifted a rows then (a, drift a rows) ∷ rest else rest

-- `VerifyConservation`: the rows that it counted over all groups, and the drifts that it reports
unfoldable pub verify_conservation : Db → ℕ × List (Asset × ℤ)
unfolding group_assets drifted_assets
verify_conservation db = (length db.volumes, drifted_assets db.volumes (group_assets db.volumes))
