-- ===== src/Storage/Moves/History/Kept.antt =====
-- `queueMoves` keeps every move's effective snapshot what the history says.
use giro.Prelude.{
  ◌≡◌, refl, sym, ap, ◌∙◌, subst, Bool, true, false, List, [], ◌∷◌, ◌++◌, if◌then◌else◌, ltb, pos,
  ◌+ℤ◌, int_laws, All, map, ok,
}
use giro.Ledger.Posting.{Postings}
use giro.Ledger.Volumes.{Key, VolumeUpdate, volume_updates}
use giro.Ledger.Volumes.Totals.{total, flow, volume_updates-eq-flow}
use giro.Storage.Schema.{MoveRow, Time, Transaction}
use giro.Storage.Locking.{Locks}
use giro.Storage.Moves.{VolumeMap, copy_locked, moves_from, queue_moves, effective_volumes_at}
use giro.Storage.Moves.Latest.{sum_upto, sum_before, sum_before-append}
use giro.Storage.Moves.History.{part, moved, Snapshots, part-effective_volumes_at}
use giro.Storage.Moves.History.Written.{
  both_moved, side_flow, sum_before-moves_from, moves_from-Snapshots,
}
use giro.Storage.Moves.History.Shifted.{
  shifted, side_key, part-shifted_volumes, sum_upto-shifted, sum_before-shifted, map-append-one,
  shifted-Snapshots_new, later_effective_shift-eq,
}

append-cons :
    (xs : List MoveRow) (m : MoveRow) (ys : List MoveRow) → (xs ++ m ∷ []) ++ ys ≡ xs ++ m ∷ ys
append-cons [] m ys = refl
append-cons (x ∷ xs) m ys = ap (λ zs. x ∷ zs) (append-cons xs m ys)

append-nil : (xs : List MoveRow) → xs ++ [] ≡ xs
append-nil [] = refl
append-nil (x ∷ xs) = ap (λ zs. x ∷ zs) (append-nil xs)

module _ (side : Bool) (us : List VolumeUpdate) (at : Time) (new : List MoveRow)
    (dated : All (λ m. m.effective_date ≡ at) new)
    (counts : (k : Key) (d : Time)
      → sum_before (moved side k) d new
        ≡ (if ltb at d then total (side_key side k) us else pos 0)) where
  -- New moves of one date, and the shift of the later ones by what the new ones count for.
  shifted-Snapshots :
      (earlier ms : List MoveRow)
      → Snapshots side earlier ms
      → Snapshots side (earlier ++ ms) new
      → Snapshots side (map (shifted us at) earlier) (map (shifted us at) (ms ++ new))
  shifted-Snapshots earlier [] h fresh =
      shifted-Snapshots_new side us at earlier new dated
        (subst (λ xs. Snapshots side xs new) (append-nil earlier) fresh)
  shifted-Snapshots earlier (m ∷ ms) h fresh = (
    part-shifted_volumes side us at m.key m.effective_date m.pcev
        ∙ ap (λ x. part side m.pcev +ℤ x) (sym (counts m.key m.effective_date))
        ∙ ap (λ x. x +ℤ sum_before (moved side m.key) m.effective_date new) h.0
        ∙ regroup
        ∙ sym (
            ap
              (λ x.
                x
                +ℤ moved side m.key m
                +ℤ sum_before (moved side m.key) m.effective_date (map (shifted us at) (ms ++ new)))
              (sum_upto-shifted side us at m.key m.effective_date earlier)
            ∙ ap
                (λ x.
                  sum_upto (moved side m.key) m.effective_date earlier +ℤ moved side m.key m +ℤ x)
                (sum_before-shifted side us at m.key m.effective_date (ms ++ new)
                  ∙ sum_before-append (moved side m.key) m.effective_date ms new)),
    subst (λ xs. Snapshots side xs (map (shifted us at) (ms ++ new)))
        (map-append-one side us at earlier m)
        (shifted-Snapshots (earlier ++ m ∷ []) ms h.1
          (subst (λ xs. Snapshots side xs new) (sym (append-cons earlier m ms)) fresh)),
  )
    where
      regroup :
          sum_upto (moved side m.key) m.effective_date earlier
            +ℤ moved side m.key m
            +ℤ sum_before (moved side m.key) m.effective_date ms
            +ℤ sum_before (moved side m.key) m.effective_date new
          ≡ sum_upto (moved side m.key) m.effective_date earlier
            +ℤ moved side m.key m
            +ℤ (sum_before (moved side m.key) m.effective_date ms
                +ℤ sum_before (moved side m.key) m.effective_date new)
      regroup = omega int_laws

moves_from-dated :
    (t : Transaction) (running effective : VolumeMap) (p : Postings)
    → All (λ m. m.effective_date ≡ t.timestamp) (moves_from t running effective p)
unfolding moves_from
moves_from-dated t running effective [] = tt
moves_from-dated t running effective (posting ∷ p) =
    (refl, (refl, moves_from-dated t (both_moved posting running) (both_moved posting effective) p))

flow-side_flow :
    (side : Bool) (k : Key) (p : Postings) {us : List VolumeUpdate}
    → volume_updates p ≡ ok us
    → flow (side_flow side k) p ≡ total (side_key side k) us
flow-side_flow true k p e = sym (volume_updates-eq-flow k p e).1
flow-side_flow false k p e = sym (volume_updates-eq-flow k p e).0

-- `queueMoves`, given what `effectiveVolumesAt` read and the deltas of the transaction's postings:
-- if every move carried the sum of the moves up to it, every move does afterwards, those that were
-- backdated past others included.
pub queue_moves-Snapshots :
    (side : Bool) (t : Transaction) (before : Locks) (us : List VolumeUpdate) (moves : List MoveRow)
    → volume_updates t.postings ≡ ok us
    → Snapshots side [] moves
    → Snapshots side [] (queue_moves t before (effective_volumes_at moves t.timestamp) us moves)
unfolding queue_moves
queue_moves-Snapshots side t before us moves counted h =
    let effective = effective_volumes_at moves t.timestamp in
    let new = moves_from t (copy_locked before) effective t.postings in
    subst (Snapshots side []) (sym (later_effective_shift-eq us t.timestamp (moves ++ new))) (
      shifted-Snapshots side us t.timestamp new
        (moves_from-dated t (copy_locked before) effective t.postings)
        (λ k d.
          sum_before-moves_from side t k d (copy_locked before) effective t.postings
          ∙ ap (λ x. if ltb t.timestamp d then x else pos 0)
              (flow-side_flow side k t.postings counted))
        [] moves h
        (moves_from-Snapshots side t moves (copy_locked before) effective t.postings
          (λ k. part-effective_volumes_at side k t.timestamp moves h)))
