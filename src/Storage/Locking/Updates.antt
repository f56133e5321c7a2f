-- ===== src/Storage/Locking/Updates.antt =====
-- What `applyVolumes` does to the rows: sums over the table, single rows, and predicates on rows.
use giro.Prelude.{
  ◌≡◌, ◌≢◌, refl, sym, ◌∙◌, some, List, [], ◌∷◌, ◌++◌, ok, ok-injective, >>=-eq-ok, Option-cases,
  inl, inr, All, ℤ, pos, ◌+ℤ◌, int_laws, arith,
}
use giro.Ledger.Volumes.{Key, Key-discrete, VolumeUpdate}
use giro.Ledger.Volumes.Totals.{total}
use giro.Storage.Schema.{VolumeRow}
use giro.Storage.Locking.{
  find_row, zero_row, materialise_row, materialise, add_volumes, update_rows, count_rows,
  apply_update, apply_volumes,
}

-- The sum of a weight over the rows of the table.
abbrev pub sum_rows : (VolumeRow → ℤ) → List VolumeRow → ℤ
sum_rows w [] = pos 0
sum_rows w (r ∷ rs) = w r +ℤ sum_rows w rs

abbrev pub with_update : VolumeUpdate → VolumeRow → VolumeRow
with_update u r = record r { volumes = add_volumes u r.volumes }

pub apply_update-eq-ok :
    (u : VolumeUpdate) (rows : List VolumeRow) {rows' : List VolumeRow}
    → apply_update u rows ≡ ok rows'
    → (count_rows u.key rows ≡ 1) × (rows' ≡ update_rows u rows)
unfolding apply_update
apply_update-eq-ok u rows h = ground arith

module _ (u : VolumeUpdate) where
  update_rows_absent :
      (rows : List VolumeRow) → count_rows u.key rows ≡ 0 → update_rows u rows ≡ rows
  unfolding count_rows update_rows
  update_rows_absent [] h = refl
  update_rows_absent (r ∷ rs) h = ground (arith, update_rows_absent rs)

  pub find_row-update_rows_ne :
      (k : Key) (rows : List VolumeRow)
      → k ≢ u.key
      → find_row k (update_rows u rows) ≡ find_row k rows
  unfolding find_row update_rows
  find_row-update_rows_ne k [] h = refl
  find_row-update_rows_ne k (r ∷ rs) h = ground (arith, find_row-update_rows_ne k rs h)

  pub find_row-update_rows_self :
      (rows : List VolumeRow) (r : VolumeRow)
      → find_row u.key rows ≡ some r
      → find_row u.key (update_rows u rows) ≡ some (with_update u r)
  unfolding find_row update_rows
  find_row-update_rows_self [] r h = cc
  find_row-update_rows_self (s ∷ rs) r h = ground (arith, find_row-update_rows_self rs r)

  -- The rounds of the update where exactly one row has the key: it is the first, or it comes later.
  update_rows_hit :
      (r : VolumeRow) (rs : List VolumeRow)
      → u.key ≡ r.key
      → count_rows u.key (r ∷ rs) ≡ 1
      → update_rows u (r ∷ rs) ≡ with_update u r ∷ rs
  unfolding count_rows update_rows
  update_rows_hit r rs e h = ground (arith, update_rows_absent rs)

  update_rows_miss :
      (r : VolumeRow) (rs : List VolumeRow)
      → u.key ≢ r.key
      → update_rows u (r ∷ rs) ≡ r ∷ update_rows u rs
  unfolding update_rows
  update_rows_miss r rs e = ground arith

  count_rows_miss :
      (r : VolumeRow) (rs : List VolumeRow)
      → u.key ≢ r.key
      → count_rows u.key (r ∷ rs) ≡ count_rows u.key rs
  unfolding count_rows
  count_rows_miss r rs e = ground arith

  -- A weight that grows by d on the updated row grows by d over the table.
  sum_rows-update_rows :
      (w : VolumeRow → ℤ) (d : ℤ)
      → ((r : VolumeRow) → u.key ≡ r.key → w (with_update u r) ≡ w r +ℤ d)
      → (rows : List VolumeRow) → count_rows u.key rows ≡ 1
      → sum_rows w (update_rows u rows) ≡ sum_rows w rows +ℤ d
  sum_rows-update_rows w d step [] h = unfold count_rows in absurd (omega arith)
  sum_rows-update_rows w d step (r ∷ rs) h = elim (Key-discrete u.key r.key) [
    | yes e ↦ rw (update_rows_hit r rs e h, step r e) (omega int_laws)
    | no e ↦
        rw
          (
            update_rows_miss r rs e,
            sum_rows-update_rows w d step rs (sym (count_rows_miss r rs e) ∙ h),
          )
          (omega int_laws)
  ]

  -- A predicate that holds of every row, and of the updated one, holds of every row afterwards.
  pub All-update_rows :
      (P : VolumeRow → Type 0) (rows : List VolumeRow)
      → ((r : VolumeRow) → find_row u.key rows ≡ some r → P (with_update u r))
      → count_rows u.key rows ≡ 1
      → All P rows
      → All P (update_rows u rows)
  All-update_rows P [] new h all = unfold count_rows in absurd (omega arith)
  All-update_rows P (r ∷ rs) new h all = elim (Key-discrete u.key r.key) [
    | yes e ↦ rw (update_rows_hit r rs e h) (new r (unfold find_row in ground arith), all.1)
    | no e ↦ rw (update_rows_miss r rs e) (
      all.0,
      All-update_rows P rs (λ s f. new s (unfold find_row in ground arith))
          (sym (count_rows_miss r rs e) ∙ h) all.1,
    )
  ]

module _ (w : VolumeRow → ℤ) (zero_weight : (k : Key) → w (zero_row k) ≡ pos 0) where
  sum_rows-append :
      (rows more : List VolumeRow) → sum_rows w (rows ++ more) ≡ sum_rows w rows +ℤ sum_rows w more
  sum_rows-append [] more = omega int_laws
  sum_rows-append (r ∷ rows) more = rw (sum_rows-append rows more) (omega int_laws)

  sum_rows-materialise_row :
      (k : Key) (rows : List VolumeRow) → sum_rows w (materialise_row k rows) ≡ sum_rows w rows
  unfolding materialise_row
  sum_rows-materialise_row k rows = elim (Option-cases (find_row k rows)) [
    | inl e ↦ rw (e, materialise_row, sum_rows-append, zero_weight) (omega int_laws)
    | inr (r, e) ↦ rw (e, materialise_row)
  ]

  -- The rows that locking creates carry no weight.
  pub sum_rows-materialise :
      (us : List VolumeUpdate) (rows : List VolumeRow)
      → sum_rows w (materialise us rows) ≡ sum_rows w rows
  unfolding materialise
  sum_rows-materialise [] rows = refl
  sum_rows-materialise (u ∷ us) rows =
      sum_rows-materialise us (materialise_row u.key rows) ∙ sum_rows-materialise_row u.key rows

-- A weight that grows with each row by what its update carries grows by the updates' total.
pub sum_rows-apply_volumes :
    (w : VolumeRow → ℤ) (g : VolumeUpdate → ℤ)
    → ((u : VolumeUpdate) (r : VolumeRow) → u.key ≡ r.key → w (with_update u r) ≡ w r +ℤ g u)
    → (us : List VolumeUpdate) (rows : List VolumeRow) {rows' : List VolumeRow}
    → apply_volumes us rows ≡ ok rows'
    → sum_rows w rows' ≡ sum_rows w rows +ℤ total g us
unfolding apply_volumes
sum_rows-apply_volumes w g step [] rows h = rw (← ok-injective h) (omega int_laws)
sum_rows-apply_volumes w g step (u ∷ us) rows h =
    let (updated, applied, rest) = >>=-eq-ok (apply_update u rows) (apply_volumes us) h in
    let (one, same) = apply_update-eq-ok u rows applied in
    rw
      (
        sum_rows-apply_volumes w g step us updated rest,
        same,
        sum_rows-update_rows u w (g u) (step u) rows one,
      )
      (omega int_laws)
