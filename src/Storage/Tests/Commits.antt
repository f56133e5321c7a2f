-- ===== src/Storage/Tests/Commits.antt =====
-- The invariants of a commit, at the deposit.
use giro.Storage.Tests.Codec.{toy, toy-RoundTrips}
use giro.Prelude.{◌≡◌, false, none, List, [], ok, codes, All}
use giro.Ledger.Volumes.{VolumeUpdate, volume_updates}
use giro.Ledger.Tests.{alice, key_of, deposit}
use giro.Storage.Locking.{is_closed}
use giro.Storage.Projection.Replayed.{IsProjection, commit_once-IsProjection}
use giro.Storage.Commit.Chained.{IsChainedDb, commit_once-IsChainedDb}
use giro.Storage.Commit.Flow.{GrownBy, apply_transaction-GrownBy}
use giro.Storage.Commit.Conservation.{IsConserved, apply_transaction-IsConserved}
use giro.Storage.Commit.Bounds.{IsWithin, apply_transaction-IsWithin, apply_transaction-unclosed}
use giro.Prelude.{true, refl, Bytes-discrete, [], ◌∷◌}
use giro.Ledger.Tests.{usd}
use giro.Storage.Commit.Histories.{IsHistory, commit_once-IsHistory}
use giro.Storage.Assets.{Cache, check_assets}
use giro.Storage.Assets.Known.{IsSound}
use giro.Storage.Tests.{
  genesis, noon, plain, after_deposit, apply-deposit, genesis-IsConserved, keyed, attempt_on,
  logged_deposit, commit-deposit, genesis-IsChainedDb, genesis-IsProjection, deposit-PostingIsValid,
}

apply_transaction-IsConserved_example : IsConserved after_deposit
apply_transaction-IsConserved_example =
    apply_transaction-IsConserved noon plain deposit genesis genesis-IsConserved apply-deposit

apply_transaction-IsWithin_example : IsWithin after_deposit
apply_transaction-IsWithin_example =
    apply_transaction-IsWithin noon plain deposit genesis tt apply-deposit

apply_transaction-unclosed_example :
    (us : List VolumeUpdate) × (volume_updates deposit ≡ ok us)
    × All (λ u. is_closed u.key.account [] ≡ false) us
apply_transaction-unclosed_example =
    apply_transaction-unclosed noon plain deposit genesis apply-deposit

commit_once-IsChainedDb_example : IsChainedDb toy logged_deposit
commit_once-IsChainedDb_example =
    commit_once-IsChainedDb toy (attempt_on genesis none) deposit (keyed (codes "k")) (codes "h")
      genesis-IsChainedDb commit-deposit

commit_once-IsProjection_example : IsProjection toy logged_deposit
commit_once-IsProjection_example =
    commit_once-IsProjection toy toy-RoundTrips (attempt_on genesis none) deposit
      (keyed (codes "k")) (codes "h") genesis-IsProjection deposit-PostingIsValid commit-deposit

apply_transaction-GrownBy_example : GrownBy (key_of alice) deposit genesis after_deposit
apply_transaction-GrownBy_example =
    apply_transaction-GrownBy noon plain deposit genesis (key_of alice) apply-deposit

-- a store that has seen nothing yet
abbrev empty_cache : Cache
empty_cache = record { registered = []; ledger_seen = false }

empty_cache-IsSound : IsSound empty_cache genesis
empty_cache-IsSound = record { registered = tt; seen = λ yes. refl }

check-deposit :
    check_assets empty_cache genesis deposit
    ≡ (record { registered = usd ∷ []; ledger_seen = true }, none)
unfolding check_assets Bytes-discrete
check-deposit = refl

pub genesis-IsHistory : IsHistory genesis
genesis-IsHistory side = tt

commit_once-IsHistory_example : IsHistory logged_deposit
commit_once-IsHistory_example =
    commit_once-IsHistory toy (attempt_on genesis none) deposit (keyed (codes "k")) (codes "h")
      genesis-IsHistory commit-deposit
