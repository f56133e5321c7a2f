-- ===== src/Storage/Moves/History.antt =====
-- The effective volumes of a move: what the moves of its account and asset sum to, in the order of
-- their effective dates, and of their insertion where these are the same.
pub mod Written
pub mod Shifted
pub mod Kept
use giro.Prelude.{
  ◌≡◌, ◌≢◌, refl, sym, ap, ◌∙◌, subst, Bool, true, false, Option, none, some, List, [], ◌∷◌, ◌++◌,
  ite, if◌then◌else◌, leb, ltb, inl, inr, ◌⊎◌, arith, ℤ, pos, ◌+ℤ◌, int_laws, +ℤ-zero, zero-+ℤ, All,
  ◌≤◌, ◌<◌, le→leb,
}
use giro.Ledger.Volumes.{Key, Key-discrete, Volumes, new_volumes}
use giro.Storage.Schema.{MoveRow, Time}
use giro.Storage.Moves.{latest_move, snapshot, effective_volumes_at}
use giro.Storage.Moves.Latest.{
  Weight, IsLocal, sum_upto, sum_before, sum_upto-append, Best, none_yet, best_at, Best-latest_move,
  sum_upto-AtMost, sum_upto-Before,
}

-- The counter of one side: the outputs for `true`, as in `is_source`, and the inputs for `false`.
abbrev pub part : Bool → Volumes → ℤ
part true v = v.output
part false v = v.input

abbrev pub on_side : Bool → Bool → ℤ → ℤ
on_side true true amount = amount
on_side true false amount = pos 0
on_side false true amount = pos 0
on_side false false amount = amount

-- What a movement at key k adds to that counter at key j.
abbrev pub weigh : Bool → Key → Key → ℤ → Bool → ℤ
weigh side j k amount is_source = ite (Key-discrete j k) (on_side side is_source amount) (pos 0)

abbrev pub moved : Bool → Key → MoveRow → ℤ
moved side j m = weigh side j m.key m.amount m.is_source

pub moved-IsLocal : (side : Bool) → IsLocal (moved side)
moved-IsLocal side k m other = ground arith

-- Each move's snapshot is the sum of the moves of its key that come no later: those inserted before
-- it with a date up to its own, itself, and those inserted after it with an earlier date.
abbrev pub Snapshots : Bool → List MoveRow → List MoveRow → Type 0
Snapshots side earlier [] = Unit
Snapshots side earlier (m ∷ ms) =
    (part side m.pcev
      ≡ sum_upto (moved side m.key) m.effective_date earlier
        +ℤ moved side m.key m
        +ℤ sum_before (moved side m.key) m.effective_date ms)
    × Snapshots side (earlier ++ m ∷ []) ms

snapshot_of :
    (side : Bool) (earlier xs : List MoveRow) (b : MoveRow) (ys : List MoveRow)
    → Snapshots side earlier (xs ++ b ∷ ys)
    → part side b.pcev
      ≡ sum_upto (moved side b.key) b.effective_date earlier
        +ℤ sum_upto (moved side b.key) b.effective_date xs
        +ℤ moved side b.key b
        +ℤ sum_before (moved side b.key) b.effective_date ys
snapshot_of side earlier [] b ys h = rw h.0 (omega int_laws)
snapshot_of side earlier (x ∷ xs) b ys h =
    rw
      (
        snapshot_of side (earlier ++ x ∷ []) xs b ys h.1,
        sum_upto-append (moved side b.key) b.effective_date earlier (x ∷ []),
      )
      (omega int_laws)

sum_upto-late :
    (side : Bool) (k : Key) (at : Time) (ms : List MoveRow)
    → All (λ m. m.key ≡ k → at < m.effective_date) ms
    → sum_upto (moved side k) at ms ≡ pos 0
sum_upto-late side k at [] h = refl
sum_upto-late side k at (m ∷ ms) h =
    rw (term_late (Key-discrete k m.key), sum_upto-late side k at ms h.1) (omega int_laws)
  where
    term_late :
        (d : Dec (k ≡ m.key)) → (if leb m.effective_date at then moved side k m else pos 0) ≡ pos 0
    term_late (yes same) = ground (arith, h.0 (sym same))
    term_late (no other) = rw (moved-IsLocal side k m other) (ground arith)

-- What `effectiveVolumesAt` reads is the sum of the moves up to the date.
pub part-effective_volumes_at :
    (side : Bool) (k : Key) (at : Time) (ms : List MoveRow)
    → Snapshots side [] ms
    → part side (effective_volumes_at ms at k) ≡ sum_upto (moved side k) at ms
unfolding effective_volumes_at
part-effective_volumes_at side k at ms h =
    go (latest_move k at ms) (Best-latest_move (moved side) k at (moved-IsLocal side) ms)
  where
    go :
        (best : Option MoveRow)
        → Best (moved side) k at (moved-IsLocal side) best ms
        → part side (snapshot best) ≡ sum_upto (moved side k) at ms
    go none (none_yet late) = part_zero side ∙ sym (sum_upto-late side k at ms late)
      where
        part_zero : (side : Bool) → part side new_volumes ≡ pos 0
        part_zero true = refl
        part_zero false = refl
    go (some b) (best_at earlier later split keyed due old new) =
        snapshot_of side [] earlier b later (subst (Snapshots side []) split h)
        ∙ sym (
            ap (sum_upto (moved side k) at) split
            ∙ sum_upto-append (moved side k) at earlier (b ∷ later)
            ∙ rw
                (
                  sum_upto-AtMost (moved side) k at (moved-IsLocal side) b.effective_date earlier
                      due old,
                  sum_upto-Before (moved side) k at (moved-IsLocal side) b.effective_date later due
                      new,
                  ← keyed,
                  le→leb b.effective_date at due,
                )
                (omega int_laws))
