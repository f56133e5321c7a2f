-- ===== src/Storage/Guards.antt =====
-- storage/commit.go: the guards between locking the rows and writing to them.
use giro.Prelude.{
  false, not, ◌&&◌, Option, none, some, List, [], ◌∷◌, if◌then◌else◌, Result, ok, err, ◌-ℤ◌, ltb_ℤ,
}
use giro.Ledger.Volumes.{Key, VolumeUpdate, new_volumes, balance}
use giro.Storage.Schema.{
  Error, insufficient_funds, unexpected_credit, account_closed, PostCommitVolumes,
}
use giro.Storage.Locking.{Locked, Locks, add_volumes}

-- `before[key]`: a missing key reads as Go's zero value
abbrev pub locked_at : Locks → Key → Locked
locked_at before k = elim (before k) [
  | none ↦ record {
    volumes = new_volumes;
    allow_negative = false;
    allow_positive = false;
    closed = false;
  }
  | some v ↦ v
]

-- one round of `checkBalances`
unfoldable pub balance_fault : Locked → VolumeUpdate → Option Error
unfolding balance
balance_fault v u =
    let after = add_volumes u v.volumes in
    if not v.allow_negative && ltb_ℤ after.input after.output
    then some (insufficient_funds u.key (balance v.volumes) u.output)
    else if not v.allow_positive && ltb_ℤ after.output after.input
    then some (unexpected_credit u.key (after.input -ℤ after.output))
    else none

-- `checkBalances`
unfoldable pub check_balances : Locks → List VolumeUpdate → Result Error (Unit {0})
unfolding balance_fault
check_balances before [] = ok tt
check_balances before (u ∷ us) = elim (balance_fault (locked_at before u.key) u) [
  | some e ↦ err e
  | none ↦ check_balances before us
]

-- `checkClosed`
unfoldable pub check_closed : Locks → List VolumeUpdate → Result Error (Unit {0})
check_closed before [] = ok tt
check_closed before (u ∷ us) =
    if (locked_at before u.key).closed
    then err (account_closed u.key.account)
    else check_closed before us

-- `postCommitVolumes`
unfoldable pub post_commit_volumes : Locks → List VolumeUpdate → PostCommitVolumes
post_commit_volumes before [] = []
post_commit_volumes before (u ∷ us) =
    (u.key, add_volumes u (locked_at before u.key).volumes) ∷ post_commit_volumes before us
