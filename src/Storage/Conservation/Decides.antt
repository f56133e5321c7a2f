-- ===== src/Storage/Conservation/Decides.antt =====
-- `VerifyConservation` decides the invariant that a commit keeps.
use giro.Prelude.{
  ◌≡◌, ◌≢◌, refl, sym, ap, ◌∙◌, subst, true, false, List, [], ◌∷◌, if◌then◌else◌, inl, inr, ◌⊎◌,
  ◌↔◌, arith, ℤ, pos, ◌+ℤ◌, All, Bool-cases, Bytes-discrete, compare_bytes, compare_bytes-eq,
  zero-+ℤ,
}
use giro.Ledger.Asset.{Asset}
use giro.Ledger.Volumes.Order.{Ordering-cases}
use giro.Storage.Schema.{Db, VolumeRow}
use giro.Storage.Locking.Updates.{sum_rows}
use giro.Storage.Commit.Conservation.{IsConserved, row_input, row_output}
use giro.Storage.Closure.Emptiness.{same_of_ltb, ltb_refl}
use giro.Storage.Conservation.{
  insert_asset, group_assets, drift, has_drifted, drifted_assets, verify_conservation,
}

module _ (P : Asset → Type 0) where
  All-insert_asset : (a : Asset) (bs : List Asset) → All P (insert_asset a bs) → P a × All P bs
  unfolding insert_asset
  All-insert_asset a [] h = h
  All-insert_asset a (b ∷ bs) h = elim (Ordering-cases (compare_bytes a b)) [
    | inl lt ↦ rw (insert_asset, lt) at h
    | inr (inl eq) ↦
        let h1 : All P (b ∷ bs) = rw (insert_asset, eq) at h in
        (subst P (sym (compare_bytes-eq a b eq)) h1.0, h1)
    | inr (inr gt) ↦
        let h1 : All P (b ∷ insert_asset a bs) = rw (insert_asset, gt) at h in
        let rest = All-insert_asset a bs h1.1 in (rest.0, (h1.0, rest.1))
  ]

  All-group_assets :
      (rows : List VolumeRow) → All P (group_assets rows) → All (λ r. P r.key.asset) rows
  unfolding group_assets
  All-group_assets [] h = tt
  All-group_assets (r ∷ rs) h =
      let both = All-insert_asset r.key.asset (group_assets rs) h in
      (both.0, All-group_assets rs both.1)

  -- An asset is that of a row, or nothing of it is stored.
  held_or_nothing :
      (a : Asset) (rows : List VolumeRow)
      → All (λ r. P r.key.asset) rows
      → P a ⊎ ((sum_rows (row_input a) rows ≡ pos 0) × (sum_rows (row_output a) rows ≡ pos 0))
  held_or_nothing a [] h = inr (refl, refl)
  held_or_nothing a (r ∷ rs) h = elim (Bytes-discrete a r.key.asset) [
    | yes same ↦ inl (subst P (sym same) h.0)
    | no other ↦ elim (held_or_nothing a rs h.1) [
      | inl held ↦ inl held
      | inr (ins, outs) ↦ inr (
        rw (ins) (weightless (row_input a r) (ground arith)),
        rw (outs) (weightless (row_output a r) (ground arith)),
      )
    ]
  ]
    where
      weightless : (x : ℤ) → x ≡ pos 0 → x +ℤ pos 0 ≡ pos 0
      weightless x h = rw h (zero-+ℤ (pos 0))

drifted_assets_fine :
    (rows : List VolumeRow) (a : Asset) (assets : List Asset)
    → has_drifted a rows ≡ false
    → drifted_assets rows (a ∷ assets) ≡ drifted_assets rows assets
unfolding drifted_assets
drifted_assets_fine rows a assets fine =
    ap
      (λ b.
        if b then (a, drift a rows) ∷ drifted_assets rows assets else drifted_assets rows assets)
      fine

drifted_assets_drifted :
    (rows : List VolumeRow) (a : Asset) (assets : List Asset)
    → has_drifted a rows ≡ true
    → drifted_assets rows (a ∷ assets) ≢ []
unfolding drifted_assets
drifted_assets_drifted rows a assets drifted h = cc (
    sym (
      ap
        (λ b.
          if b then (a, drift a rows) ∷ drifted_assets rows assets else drifted_assets rows assets)
        drifted)
    ∙ h)

drifted_assets-All :
    (rows : List VolumeRow) (assets : List Asset)
    → drifted_assets rows assets ≡ []
    → All (λ a. sum_rows (row_input a) rows ≡ sum_rows (row_output a) rows) assets
drifted_assets-All rows [] h = tt
drifted_assets-All rows (a ∷ assets) h = elim (Bool-cases (has_drifted a rows)) [
  | inl drifted ↦ absurd (drifted_assets_drifted rows a assets drifted h)
  | inr fine ↦ (
    same_of_ltb (sum_rows (row_input a) rows) (sum_rows (row_output a) rows) fine,
    drifted_assets-All rows assets (sym (drifted_assets_fine rows a assets fine) ∙ h),
  )
]

IsConserved-drifted_assets :
    (db : Db) (assets : List Asset) → IsConserved db → drifted_assets db.volumes assets ≡ []
IsConserved-drifted_assets db [] h = unfold drifted_assets in refl
IsConserved-drifted_assets db (a ∷ assets) h =
    drifted_assets_fine db.volumes a assets
      (ltb_refl (sum_rows (row_input a) db.volumes) (sum_rows (row_output a) db.volumes) (h a))
    ∙ IsConserved-drifted_assets db assets h

-- VerifyConservation reports no drift exactly when in every asset the inputs of all accounts sum to
-- their outputs.
pub verify_conservation-IsConserved : (db : Db) → (verify_conservation db).1 ≡ [] ↔ IsConserved db
unfolding verify_conservation
verify_conservation-IsConserved db =
    (only_if, IsConserved-drifted_assets db (group_assets db.volumes))
  where
    only_if : drifted_assets db.volumes (group_assets db.volumes) ≡ [] → IsConserved db
    only_if h a =
        elim (held_or_nothing
          (λ b. sum_rows (row_input b) db.volumes ≡ sum_rows (row_output b) db.volumes) a db.volumes
          (All-group_assets
            (λ b. sum_rows (row_input b) db.volumes ≡ sum_rows (row_output b) db.volumes) db.volumes
            (drifted_assets-All db.volumes (group_assets db.volumes) h))) [
              | inl held ↦ held
              | inr (ins, outs) ↦ ins ∙ sym outs
            ]
