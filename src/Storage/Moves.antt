-- ===== src/Storage/Moves.antt =====
-- storage/moves.go: the moves of a transaction, with the two volume histories that they carry.
pub mod Latest
pub mod History
use giro.Prelude.{
  Bool, true, false, Option, none, some, List, [], ◌∷◌, ◌++◌, ite, if◌then◌else◌, leb, ltb, ℤ, pos,
  ◌+ℤ◌,
}
use giro.Ledger.Posting.{Posting, Postings}
use giro.Ledger.Volumes.{
  Key, Key-discrete, Volumes, VolumeUpdate, new_volumes, source_key, destination_key,
}
use giro.Storage.Schema.{MoveRow, Transaction, Time}
use giro.Storage.Locking.{Locks, add_volumes}
use giro.Storage.Guards.{locked_at}

-- `map[key]ledger.Volumes`, where a missing key reads as the zero volumes
abbrev pub VolumeMap : Type 0
VolumeMap = Key → Volumes

-- `apply`: one side of a posting, added to the entry of its account
abbrev pub move_volumes : ℤ → Bool → Volumes → Volumes
move_volumes amount true v = record v { output = v.output +ℤ amount }
move_volumes amount false v = record v { input = v.input +ℤ amount }

abbrev pub apply_move : VolumeMap → Key → ℤ → Bool → VolumeMap
apply_move m k amount is_source j =
    ite (Key-discrete j k) (move_volumes amount is_source (m j)) (m j)

-- `copyLocked`
abbrev pub copy_locked : Locks → VolumeMap
copy_locked before k = (locked_at before k).volumes

-- `select distinct on ... order by effective_date desc, seq desc`: the latest move of a key at or
-- before a date, and of those that share a date the one that was inserted last
abbrev later_of : Option MoveRow → MoveRow → MoveRow
later_of none m = m
later_of (some best) m = if leb best.effective_date m.effective_date then m else best

unfoldable pub latest_from : Key → Time → Option MoveRow → List MoveRow → Option MoveRow
latest_from k at best [] = best
latest_from k at best (m ∷ ms) =
    latest_from k at
      (ite (Key-discrete k m.key) (if leb m.effective_date at then some (later_of best m) else best)
        best)
      ms

unfoldable pub latest_move : Key → Time → List MoveRow → Option MoveRow
unfolding latest_from
latest_move k at moves = latest_from k at none moves

abbrev pub snapshot : Option MoveRow → Volumes
snapshot none = new_volumes
snapshot (some m) = m.pcev

-- `effectiveVolumesAt`, for the keys that the updates touch
unfoldable pub effective_volumes_at : List MoveRow → Time → VolumeMap
unfolding latest_move
effective_volumes_at moves at k = snapshot (latest_move k at moves)

-- the statement that `queue` sends for one side of a posting
abbrev pub move_row : Transaction → Key → ℤ → Bool → VolumeMap → VolumeMap → MoveRow
move_row t k amount is_source running effective = record {
  tx_id = t.id;
  key = k;
  amount = amount;
  is_source = is_source;
  effective_date = t.timestamp;
  insertion_date = t.inserted_at;
  pcv = running k;
  pcev = effective k;
}

abbrev pub posted_amount : Posting → ℤ
posted_amount posting = elim posting.amount [ none ↦ pos 0 | some amount ↦ amount ]

-- the loop of `queueMoves`: the rows it inserts, in order
unfoldable pub moves_from : Transaction → VolumeMap → VolumeMap → Postings → List MoveRow
moves_from t running effective [] = []
moves_from t running effective (posting ∷ p) =
    let amount = posted_amount posting in
    let src = source_key posting in
    let dst = destination_key posting in
    let running1 = apply_move running src amount true in
    let effective1 = apply_move effective src amount true in
    let running2 = apply_move running1 dst amount false in
    let effective2 = apply_move effective1 dst amount false in
    move_row t src amount true running1 effective1
    ∷ move_row t dst amount false running2 effective2
    ∷ moves_from t running2 effective2 p

-- one statement of `queueLaterEffectiveShift`
unfoldable pub shift_moves : VolumeUpdate → Time → List MoveRow → List MoveRow
shift_moves u at [] = []
shift_moves u at (m ∷ ms) =
    ite (Key-discrete u.key m.key)
      (if ltb at m.effective_date then record m { pcev = add_volumes u m.pcev } else m) m
    ∷ shift_moves u at ms

-- `queueLaterEffectiveShift`
unfoldable pub later_effective_shift : List VolumeUpdate → Time → List MoveRow → List MoveRow
unfolding shift_moves
later_effective_shift [] at moves = moves
later_effective_shift (u ∷ us) at moves = later_effective_shift us at (shift_moves u at moves)

-- `queueMoves`: the moves table after the batch
unfoldable pub queue_moves :
    Transaction → Locks → VolumeMap → List VolumeUpdate → List MoveRow → List MoveRow
unfolding moves_from later_effective_shift
queue_moves t before effective_before us moves =
    later_effective_shift us t.timestamp
      (moves ++ moves_from t (copy_locked before) effective_before t.postings)
