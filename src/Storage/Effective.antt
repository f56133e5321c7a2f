-- ===== src/Storage/Effective.antt =====
-- storage/effective.go: what an account held at an effective date, read from the snapshots of its
-- moves, and the check of every snapshot against a replay.
pub mod Order
pub mod Sums
pub mod Decides
use giro.Prelude.{
  ℕ, zero, suc, Bool, true, false, ◌&&◌, Option, none, some, List, [], ◌∷◌, if◌then◌else◌, leb, ℤ,
  ◌-ℤ◌, eqb_ℤ, Ordering,
}
use giro.Ledger.Address.{Address}
use giro.Ledger.Asset.{Asset}
use giro.Ledger.Volumes.{Key, Volumes, new_volumes, balance, compare_key}
use giro.Storage.Schema.{Db, MoveRow, Time}
use giro.Storage.Moves.{VolumeMap, apply_move, latest_move}

abbrev pub key_at : Address → Asset → Key
key_at address asset = record { account = address; asset = asset }

abbrev pub volumes_of : Option MoveRow → Option Volumes
volumes_of none = none
volumes_of (some m) = some m.pcev

-- `GetEffectiveVolumesAt`: the map that it returns, from assets; an asset without a move up to the
-- date is not in it
unfoldable pub get_effective_volumes_at : Db → Address → Time → Asset → Option Volumes
unfolding latest_move
get_effective_volumes_at db address at asset =
    volumes_of (latest_move (key_at address asset) at db.moves)

abbrev pub balance_of : Option MoveRow → Option ℤ
balance_of none = none
balance_of (some m) = some (m.pcev.input -ℤ m.pcev.output)

-- `GetBalancesAt`
unfoldable pub get_balances_at : Db → Address → Time → Asset → Option ℤ
unfolding latest_move
get_balances_at db address at asset = balance_of (latest_move (key_at address asset) at db.moves)

-- `order by address, asset, effective_date`
unfoldable pub move_leq : MoveRow → MoveRow → Bool
unfolding compare_key
move_leq m n = elim (compare_key m.key n.key) [
  | Ordering.lt ↦ true
  | Ordering.eq ↦ leb m.effective_date n.effective_date
  | Ordering.gt ↦ false
]

-- and by `seq`: the table is kept in that order, and rows that compare equal keep theirs
unfoldable pub insert_move : MoveRow → List MoveRow → List MoveRow
unfolding move_leq
insert_move m [] = m ∷ []
insert_move m (n ∷ ns) =
    let rest = insert_move m ns in if move_leq m n then m ∷ n ∷ ns else n ∷ rest

unfoldable pub sort_moves : List MoveRow → List MoveRow
unfolding insert_move
sort_moves [] = []
sort_moves (m ∷ ms) = insert_move m (sort_moves ms)

-- `EffectiveVolumesMismatch`: the move, which has its seq, account, asset and what is stored, and
-- what the replay says
pub record EffectiveVolumesMismatch : Type 0 where
  pub move : MoveRow
  pub want : Volumes

abbrev pub same_volumes : Volumes → Volumes → Bool
same_volumes v w = eqb_ℤ v.input w.input && eqb_ℤ v.output w.output

-- the loop of `VerifyEffectiveVolumes`
unfoldable pub replay_moves : ℕ → VolumeMap → List MoveRow → ℕ × Option EffectiveVolumesMismatch
replay_moves checked running [] = (checked, none)
replay_moves checked running (m ∷ ms) =
    let after = apply_move running m.key m.amount m.is_source in
    let rest = replay_moves (suc checked) after ms in
    if same_volumes m.pcev (after m.key)
    then rest
    else (checked, some (record { move = m; want = after m.key }))

-- `VerifyEffectiveVolumes`
unfoldable pub verify_effective_volumes : Db → ℕ × Option EffectiveVolumesMismatch
unfolding sort_moves replay_moves
verify_effective_volumes db = replay_moves 0 (λ k. new_volumes) (sort_moves db.moves)
