-- ===== src/Storage/Moves/History/Shifted.antt =====
-- The shift of the moves that are dated after a transaction, and the history that it keeps.
use giro.Prelude.{
  ◌≡◌, refl, sym, ap, ◌∙◌, subst, Bool, true, false, List, [], ◌∷◌, ◌++◌, ite, if◌then◌else◌, ltb,
  leb, inl, inr, arith, ℤ, pos, ◌+ℤ◌, int_laws, +ℤ-zero, All, Bool-cases, map, ◌⊎◌,
}
use giro.Ledger.Volumes.{Key, Key-discrete, Volumes, VolumeUpdate}
use giro.Ledger.Volumes.Totals.{total, key_input, key_output}
use giro.Storage.Schema.{MoveRow, Time}
use giro.Storage.Locking.{add_volumes}
use giro.Storage.Moves.{shift_moves, later_effective_shift}
use giro.Storage.Moves.Latest.{sum_upto, sum_before}
use giro.Storage.Moves.History.{part, moved, Snapshots}

abbrev shift_one : VolumeUpdate → Time → Key → Time → Volumes → Volumes
shift_one u at k date v = ite (Key-discrete u.key k) (if ltb at date then add_volumes u v else v) v

abbrev pub shifted_volumes : List VolumeUpdate → Time → Key → Time → Volumes → Volumes
shifted_volumes [] at k date v = v
shifted_volumes (u ∷ us) at k date v = shifted_volumes us at k date (shift_one u at k date v)

-- One move after all the updates.
abbrev pub shifted : List VolumeUpdate → Time → MoveRow → MoveRow
shifted us at m = record m { pcev = shifted_volumes us at m.key m.effective_date m.pcev }

map-shifted_nil : (at : Time) (ms : List MoveRow) → map (shifted [] at) ms ≡ ms
map-shifted_nil at [] = refl
map-shifted_nil at (m ∷ ms) = ap (λ xs. m ∷ xs) (map-shifted_nil at ms)

shift_moves-head :
    (u : VolumeUpdate) (at : Time) (m : MoveRow)
    → ite
        (Key-discrete u.key m.key)
        (if ltb at m.effective_date then record m { pcev = add_volumes u m.pcev } else m)
        m
      ≡ record m { pcev = shift_one u at m.key m.effective_date m.pcev }
shift_moves-head u at m = elim (Bool-cases (ltb at m.effective_date)) [
  | inl later ↦ ground arith
  | inr not_later ↦ ground arith
]

map-shift_moves :
    (u : VolumeUpdate) (us : List VolumeUpdate) (at : Time) (ms : List MoveRow)
    → map (shifted us at) (shift_moves u at ms) ≡ map (shifted (u ∷ us) at) ms
unfolding shift_moves
map-shift_moves u us at [] = refl
map-shift_moves u us at (m ∷ ms) =
    ap (λ x. shifted us at x ∷ map (shifted us at) (shift_moves u at ms)) (shift_moves-head u at m)
    ∙ ap (λ xs. shifted (u ∷ us) at m ∷ xs) (map-shift_moves u us at ms)

pub later_effective_shift-eq :
    (us : List VolumeUpdate) (at : Time) (ms : List MoveRow)
    → later_effective_shift us at ms ≡ map (shifted us at) ms
unfolding later_effective_shift
later_effective_shift-eq [] at ms = sym (map-shifted_nil at ms)
later_effective_shift-eq (u ∷ us) at ms =
    later_effective_shift-eq us at (shift_moves u at ms) ∙ map-shift_moves u us at ms

abbrev pub side_key : Bool → Key → VolumeUpdate → ℤ
side_key true k u = key_output k u
side_key false k u = key_input k u

part-shift_one :
    (side : Bool) (u : VolumeUpdate) (at : Time) (k : Key) (date : Time) (v : Volumes)
    → part side (shift_one u at k date v)
      ≡ part side v +ℤ (if ltb at date then side_key side k u else pos 0)
part-shift_one true u at k date v = ground (arith, +ℤ-zero v.output)
part-shift_one false u at k date v = ground (arith, +ℤ-zero v.input)

pub part-shifted_volumes :
    (side : Bool) (us : List VolumeUpdate) (at : Time) (k : Key) (date : Time) (v : Volumes)
    → part side (shifted_volumes us at k date v)
      ≡ part side v +ℤ (if ltb at date then total (side_key side k) us else pos 0)
part-shifted_volumes side [] at k date v = elim (Bool-cases (ltb at date)) [
  | inl later ↦ rw later (sym (+ℤ-zero (part side v)))
  | inr not_later ↦ rw not_later (sym (+ℤ-zero (part side v)))
]
part-shifted_volumes side (u ∷ us) at k date v =
    part-shifted_volumes side us at k date (shift_one u at k date v)
    ∙ ap (λ x. x +ℤ (if ltb at date then total (side_key side k) us else pos 0))
        (part-shift_one side u at k date v)
    ∙ both (Bool-cases (ltb at date))
  where
    both :
        (ltb at date ≡ true) ⊎ (ltb at date ≡ false)
        → part side v
            +ℤ (if ltb at date then side_key side k u else pos 0)
            +ℤ (if ltb at date then total (side_key side k) us else pos 0)
          ≡ part side v
            +ℤ (if ltb at date then side_key side k u +ℤ total (side_key side k) us else pos 0)
    both (inl later) = rw later (omega int_laws)
    both (inr not_later) = rw not_later (omega int_laws)

module _ (side : Bool) (us : List VolumeUpdate) (at : Time) where
  abbrev f : MoveRow → MoveRow
  f m = shifted us at m

  pub sum_upto-shifted :
      (k : Key) (d : Time) (ms : List MoveRow)
      → sum_upto (moved side k) d (map f ms) ≡ sum_upto (moved side k) d ms
  sum_upto-shifted k d [] = refl
  sum_upto-shifted k d (m ∷ ms) =
      ap (λ x. (if leb m.effective_date d then moved side k m else pos 0) +ℤ x)
        (sum_upto-shifted k d ms)

  pub sum_before-shifted :
      (k : Key) (d : Time) (ms : List MoveRow)
      → sum_before (moved side k) d (map f ms) ≡ sum_before (moved side k) d ms
  sum_before-shifted k d [] = refl
  sum_before-shifted k d (m ∷ ms) =
      ap (λ x. (if ltb m.effective_date d then moved side k m else pos 0) +ℤ x)
        (sum_before-shifted k d ms)

  pub map-append-one :
      (xs : List MoveRow) (m : MoveRow) → map f (xs ++ m ∷ []) ≡ map f xs ++ f m ∷ []
  map-append-one [] m = refl
  map-append-one (x ∷ xs) m = ap (λ ys. f x ∷ ys) (map-append-one xs m)

  -- Moves of the date itself are not shifted.
  pub shifted-Snapshots_new :
      (earlier new : List MoveRow)
      → All (λ m. m.effective_date ≡ at) new
      → Snapshots side earlier new
      → Snapshots side (map f earlier) (map f new)
  shifted-Snapshots_new earlier [] dated h = tt
  shifted-Snapshots_new earlier (m ∷ new) dated h = (
    part-shifted_volumes side us at m.key m.effective_date m.pcev
        ∙ ap (λ b. part side m.pcev +ℤ (if b then total (side_key side m.key) us else pos 0))
            (not_after m dated.0)
        ∙ rw
            (
              h.0,
              sum_upto-shifted m.key m.effective_date earlier,
              sum_before-shifted m.key m.effective_date new,
            )
            (+ℤ-zero _),
    subst (λ xs. Snapshots side xs (map f new)) (map-append-one earlier m)
        (shifted-Snapshots_new (earlier ++ m ∷ []) new dated.1 h.1),
  )
    where
      not_after : (m : MoveRow) → m.effective_date ≡ at → ltb at m.effective_date ≡ false
      not_after m dated = ground arith
