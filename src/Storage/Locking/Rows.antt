-- ===== src/Storage/Locking/Rows.antt =====
-- The single rows of the table through `lockVolumes` and `applyVolumes`.
use giro.Prelude.{
  ◌≡◌, ◌≢◌, sym, ap, ◌∙◌, subst, some, List, [], ◌∷◌, ◌++◌, ok, ok-injective, >>=-eq-ok,
  Option-cases, inl, inr, All, All-append, arith,
}
use giro.Ledger.Volumes.{Key, VolumeUpdate}
use giro.Ledger.Volumes.Order.{IsDistinct}
use giro.Storage.Schema.{VolumeRow}
use giro.Storage.Locking.{
  find_row, zero_row, materialise_row, materialise, update_rows, apply_update, apply_volumes,
}
use giro.Storage.Locking.Updates.{
  with_update, apply_update-eq-ok, find_row-update_rows_ne, find_row-update_rows_self,
  All-update_rows,
}

-- A row that an update has left alone is found as it was.
pub find_row-apply_volumes_ne :
    (k : Key) (us : List VolumeUpdate) (rows : List VolumeRow) {rows' : List VolumeRow}
    → All (λ u. u.key ≢ k) us
    → apply_volumes us rows ≡ ok rows'
    → find_row k rows' ≡ find_row k rows
unfolding apply_volumes
find_row-apply_volumes_ne k [] rows h e = ap (find_row k) (sym (ok-injective e))
find_row-apply_volumes_ne k (u ∷ us) rows h e =
    let (updated, applied, rest) = >>=-eq-ok (apply_update u rows) (apply_volumes us) e in
    find_row-apply_volumes_ne k us updated h.1 rest
    ∙ ap (find_row k) (apply_update-eq-ok u rows applied).1
    ∙ find_row-update_rows_ne u k rows (λ same. h.0 (sym same))

-- What is to hold of each update's row, as the table has it.
abbrev pub AtRows :
    (VolumeUpdate → VolumeRow → Type 0) → List VolumeRow → List VolumeUpdate → Type 0
AtRows Q rows us = All (λ u. (r : VolumeRow) → find_row u.key rows ≡ some r → Q u r) us

AtRows-update_rows :
    (Q : VolumeUpdate → VolumeRow → Type 0) (u : VolumeUpdate) (rows : List VolumeRow)
    (us : List VolumeUpdate)
    → All (λ v. v.key ≢ u.key) us
    → AtRows Q rows us
    → AtRows Q (update_rows u rows) us
AtRows-update_rows Q u rows [] ne h = tt
AtRows-update_rows Q u rows (v ∷ us) ne h = (
  λ r found. h.0 r (sym (find_row-update_rows_ne u v.key rows ne.0) ∙ found),
  AtRows-update_rows Q u rows us ne.1 h.1,
)

-- Every row keeps a predicate, if each update brings its own row under it.
pub All-apply_volumes :
    (P : VolumeRow → Type 0) (us : List VolumeUpdate) (rows : List VolumeRow)
    {rows' : List VolumeRow}
    → IsDistinct us
    → AtRows (λ u r. P (with_update u r)) rows us
    → All P rows
    → apply_volumes us rows ≡ ok rows'
    → All P rows'
unfolding apply_volumes
All-apply_volumes P [] rows ds new all e = subst (All P) (ok-injective e) all
All-apply_volumes P (u ∷ us) rows ds new all e =
    let (updated, applied, rest) = >>=-eq-ok (apply_update u rows) (apply_volumes us) e in
    let (one, same) = apply_update-eq-ok u rows applied in
    All-apply_volumes P us updated ds.1
      (subst (λ t. AtRows (λ u r. P (with_update u r)) t us) (sym same)
        (AtRows-update_rows _ u rows us ds.0 new.1))
      (subst (All P) (sym same) (All-update_rows u P rows new.0 one all)) rest

-- Each update's row ends as it began with the update added.
pub find_row-apply_volumes :
    (us : List VolumeUpdate) (rows : List VolumeRow) {rows' : List VolumeRow}
    → IsDistinct us
    → apply_volumes us rows ≡ ok rows'
    → AtRows (λ u r. find_row u.key rows' ≡ some (with_update u r)) rows us
unfolding apply_volumes
find_row-apply_volumes [] rows ds e = tt
find_row-apply_volumes (u ∷ us) rows {rows'} ds e =
    let (updated, applied, rest) = >>=-eq-ok (apply_update u rows) (apply_volumes us) e in
    let (one, same) = apply_update-eq-ok u rows applied in
    (
      λ r found.
          find_row-apply_volumes_ne u.key us updated ds.0 rest
          ∙ ap (find_row u.key) same
          ∙ find_row-update_rows_self u rows r found,
      AtRows_back u rows us ds.0 (
          subst (λ t. AtRows (λ v r. find_row v.key rows' ≡ some (with_update v r)) t us) same
            (find_row-apply_volumes us updated ds.1 rest)),
    )
  where
    AtRows_back :
        (u : VolumeUpdate) (rows : List VolumeRow) (us : List VolumeUpdate)
        → All (λ v. v.key ≢ u.key) us
        → AtRows (λ v r. find_row v.key rows' ≡ some (with_update v r)) (update_rows u rows) us
        → AtRows (λ v r. find_row v.key rows' ≡ some (with_update v r)) rows us
    AtRows_back u rows [] ne h = tt
    AtRows_back u rows (v ∷ us) ne h = (
      λ r found. h.0 r (find_row-update_rows_ne u v.key rows ne.0 ∙ found),
      AtRows_back u rows us ne.1 h.1,
    )

-- Locking creates rows that hold nothing, and leaves the others as they are.
module _ (P : VolumeRow → Type 0) (fresh : (k : Key) → P (zero_row k)) where
  All-materialise_row :
      (k : Key) (rows : List VolumeRow) → All P rows → All P (materialise_row k rows)
  unfolding materialise_row
  All-materialise_row k rows h = elim (Option-cases (find_row k rows)) [
    | inl e ↦ rw (e, materialise_row) (All-append P rows (zero_row k ∷ []) h (fresh k, tt))
    | inr (r, e) ↦ rw (e, materialise_row) h
  ]

  pub All-materialise :
      (us : List VolumeUpdate) (rows : List VolumeRow) → All P rows → All P (materialise us rows)
  unfolding materialise
  All-materialise [] rows h = h
  All-materialise (u ∷ us) rows h =
      All-materialise us (materialise_row u.key rows) (All-materialise_row u.key rows h)

find_row-append_some :
    (k : Key) (rows more : List VolumeRow) (r : VolumeRow)
    → find_row k rows ≡ some r
    → find_row k (rows ++ more) ≡ some r
unfolding find_row
find_row-append_some k [] more r h = cc
find_row-append_some k (s ∷ rows) more r h = ground (arith, find_row-append_some k rows more r)

find_row-materialise_row :
    (k j : Key) (rows : List VolumeRow) (r : VolumeRow)
    → find_row k rows ≡ some r
    → find_row k (materialise_row j rows) ≡ some r
unfolding materialise_row
find_row-materialise_row k j rows r h = elim (Option-cases (find_row j rows)) [
  | inl e ↦ rw (e, materialise_row) (find_row-append_some k rows (zero_row j ∷ []) r h)
  | inr (s, e) ↦ rw (e, materialise_row) h
]
