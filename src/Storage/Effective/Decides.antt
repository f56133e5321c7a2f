-- ===== src/Storage/Effective/Decides.antt =====
-- The check of the snapshots decides whether they are the sums of the history, and a read at a date
-- returns these sums.
use mathlib.Core.Option
use giro.Prelude.{
  ◌≤◌, ◌⊎◌, ◌++◌, subst, ℕ, suc, ◌≡◌, refl, sym, ap, ◌∙◌, Bool, true, false, Option, none, some,
  List, [], ◌∷◌, inl, inr, arith, Bool-cases, ℤ, ◌+ℤ◌, ◌-ℤ◌, int_laws, ◌↔◌, All, ◌<◌,
}
use giro.Ledger.Address.{Address}
use giro.Ledger.Asset.{Asset}
use giro.Ledger.Volumes.{Key, Volumes, new_volumes}
use giro.Storage.Schema.{Db, MoveRow, Time}
use giro.Storage.Moves.{VolumeMap, apply_move, latest_move, effective_volumes_at, snapshot}
use giro.Storage.Moves.Latest.{best_at, sum_upto, Best, none_yet, Best-latest_move}
use giro.Storage.Moves.History.{part, moved, moved-IsLocal, part-effective_volumes_at}
use giro.Storage.Moves.History.Written.{part-apply_move}
use giro.Storage.Commit.Histories.{IsHistory}
use giro.Storage.Effective.{
  same_volumes, replay_moves, verify_effective_volumes, sort_moves, key_at, volumes_of, balance_of,
  get_effective_volumes_at, get_balances_at,
}
use giro.Storage.Effective.Sums.{Replays, sum_all, Snapshots-Replays}

-- The running volumes are the sums of the moves gone over.
abbrev Runs : VolumeMap → List MoveRow → Type 0
Runs running gone = (side : Bool) (k : Key) → part side (running k) ≡ sum_all (moved side k) gone

Runs-next :
    (running : VolumeMap) (gone : List MoveRow) (m : MoveRow)
    → Runs running gone
    → Runs (apply_move running m.key m.amount m.is_source) (m ∷ gone)
Runs-next running gone m h side k =
    part-apply_move side running m.key k m.amount m.is_source ∙ rw (h side k) (omega int_laws)

same_volumes-parts :
    (v w : Volumes) → (same_volumes v w ≡ true) ↔ ((side : Bool) → part side v ≡ part side w)
same_volumes-parts v w = (only_if, when)
  where
    only_if : same_volumes v w ≡ true → (side : Bool) → part side v ≡ part side w
    only_if h true = ground arith
    only_if h false = ground arith

    when : ((side : Bool) → part side v ≡ part side w) → same_volumes v w ≡ true
    when h = ground (arith, h true, h false)

module _ (checked : ℕ) (running : VolumeMap) (m : MoveRow) (ms : List MoveRow) where
  abbrev after_move : VolumeMap
  after_move = apply_move running m.key m.amount m.is_source

  replay_moves_same :
      same_volumes m.pcev (after_move m.key) ≡ true
      → replay_moves checked running (m ∷ ms) ≡ replay_moves (suc checked) after_move ms
  unfolding replay_moves
  replay_moves_same h = rw (replay_moves, h)

  replay_moves_other :
      same_volumes m.pcev (after_move m.key) ≡ false
      → (replay_moves checked running (m ∷ ms)).1 ≡ none
      → ⊥
  unfolding replay_moves
  replay_moves_other h k = cc (rw (replay_moves, h) at k)

replay_moves-Replays :
    (checked : ℕ) (running : VolumeMap) (gone ms : List MoveRow)
    → Runs running gone
    → ((replay_moves checked running ms).1 ≡ none) ↔ ((side : Bool) → Replays side [] gone ms)
replay_moves-Replays checked running gone [] h = unfold replay_moves in (λ e side. tt, λ r. refl)
replay_moves-Replays checked running gone (m ∷ ms) h =
    let next = after_move checked running m ms in
    let ran = Runs-next running gone m h in
    let ih = replay_moves-Replays (suc checked) next (m ∷ gone) ms ran in
    elim (Bool-cases (same_volumes m.pcev (next m.key))) [
      | inl same ↦ (
        λ e side. (
          (same_volumes-parts m.pcev (next m.key)).0 same side ∙ ran side m.key ∙ head_sum side,
          ih.0 (ap (λ z. z.1) (sym (replay_moves_same checked running m ms same)) ∙ e) side,
        ),
        λ r.
            ap (λ z. z.1) (replay_moves_same checked running m ms same) ∙ ih.1 (λ side. (r side).1),
      )
      | inr other ↦ (
        λ e. absurd (replay_moves_other checked running m ms other e),
        λ r. absurd (
            cc (
              sym other
              ∙ (same_volumes-parts m.pcev (next m.key)).1
                  (λ side. (r side).0 ∙ sym (head_sum side) ∙ sym (ran side m.key)))),
      )
    ]
  where
    head_sum :
        (side : Bool)
        → sum_all (moved side m.key) (m ∷ gone)
          ≡ sum_upto (moved side m.key) m.effective_date []
            +ℤ sum_all (moved side m.key) gone
            +ℤ moved side m.key m
    head_sum side = omega int_laws

-- VerifyEffectiveVolumes finds no mismatch exactly when the effective snapshot of every move is, on
-- both counters, the sum of the moves of its account and asset that come no later.
pub verify_effective_volumes-IsHistory :
    (db : Db) → ((verify_effective_volumes db).1 ≡ none) ↔ IsHistory db
unfolding verify_effective_volumes
verify_effective_volumes-IsHistory db =
    let replayed = replay_moves-Replays 0 (λ k. new_volumes) [] (sort_moves db.moves) zero_runs in
    (
      λ e side. (Snapshots-Replays side [] db.moves).1 (replayed.0 e side),
      λ h. replayed.1 (λ side. (Snapshots-Replays side [] db.moves).0 (h side)),
    )
  where
    zero_runs : Runs (λ k. new_volumes) []
    zero_runs true k = refl
    zero_runs false k = refl

-- One of the moves is of this account and asset, and not later than the date.
abbrev pub HasMove : Key → Time → List MoveRow → Type 0
HasMove k at [] = ⊥
HasMove k at (m ∷ ms) = ((m.key ≡ k) × (m.effective_date ≤ at)) ⊎ HasMove k at ms

HasMove-split :
    (k : Key) (at : Time) (earlier : List MoveRow) (m : MoveRow) (later : List MoveRow)
    → m.key ≡ k
    → m.effective_date ≤ at
    → HasMove k at (earlier ++ m ∷ later)
HasMove-split k at [] m later keyed due = inl (keyed, due)
HasMove-split k at (n ∷ earlier) m later keyed due =
    inr (HasMove-split k at earlier m later keyed due)

-- What a balance at a date is to be: the moves up to the date, in minus out, or that there are none.
abbrev pub IsBalance : Key → Time → List MoveRow → Option ℤ → Type 0
IsBalance k at moves none = All (λ m. m.key ≡ k → at < m.effective_date) moves
IsBalance k at moves (some b) =
    HasMove k at moves × (b ≡ sum_upto (moved false k) at moves -ℤ sum_upto (moved true k) at moves)

-- If every effective snapshot is the sum of its history, GetBalancesAt reports for an account and a
-- date, in every asset that has a move up to that date, what the moves up to it brought in less
-- what they took out, and leaves out exactly the assets without such a move; GetEffectiveVolumesAt
-- leaves out the same.
pub get_balances_at-IsBalance :
    (db : Db) (address : Address) (at : Time) (asset : Asset)
    → IsHistory db
    → IsBalance (key_at address asset) at db.moves (get_balances_at db address at asset)
      × (get_balances_at db address at asset
          ≡ Option.map
              (λ (v : Volumes). v.input -ℤ v.output)
              (get_effective_volumes_at db address at asset))
unfolding get_balances_at get_effective_volumes_at
get_balances_at-IsBalance db address at asset h =
    let k = key_at address asset in
    (
      go (latest_move k at db.moves)
          (Best-latest_move (moved true) k at (moved-IsLocal true) db.moves) (λ side. sum_at side),
      agree (latest_move k at db.moves),
    )
  where
    sum_at :
        (side : Bool)
        → part side (snapshot (latest_move (key_at address asset) at db.moves))
          ≡ sum_upto (moved side (key_at address asset)) at db.moves
    sum_at side =
        unfold effective_volumes_at in
        part-effective_volumes_at side (key_at address asset) at db.moves (h side)

    go :
        (best : Option MoveRow)
        → Best (moved true) (key_at address asset) at (moved-IsLocal true) best db.moves
        → ((side : Bool)
            → part side (snapshot best) ≡ sum_upto (moved side (key_at address asset)) at db.moves)
        → IsBalance (key_at address asset) at db.moves (balance_of best)
    go none (none_yet late) sums = late
    go (some m) (best_at earlier later split keyed due old new) sums = (
      subst (HasMove (key_at address asset) at) (sym split)
          (HasMove-split (key_at address asset) at earlier m later keyed due),
      rw (sums false, sums true) refl,
    )

    agree :
        (best : Option MoveRow)
        → balance_of best ≡ Option.map (λ (v : Volumes). v.input -ℤ v.output) (volumes_of best)
    agree none = refl
    agree (some m) = refl
