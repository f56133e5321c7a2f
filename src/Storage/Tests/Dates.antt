-- ===== src/Storage/Tests/Dates.antt =====
-- Balances at a date, after the deposit.
use mathlib.Core.Option
use giro.Prelude.{◌≡◌, refl, none, some, codes, ◌↔◌, pos, ◌-ℤ◌, Bytes-discrete}
use giro.Ledger.Volumes.{Volumes, Key-discrete}
use giro.Ledger.Tests.{alice, usd, deposit}
use giro.Storage.Commit.Histories.{IsHistory, commit_once-IsHistory}
use giro.Storage.Effective.{
  key_at, get_balances_at, get_effective_volumes_at, verify_effective_volumes,
}
use giro.Storage.Effective.Decides.{
  IsBalance, verify_effective_volumes-IsHistory, get_balances_at-IsBalance,
}
use giro.Storage.Tests.{genesis, logged_deposit, attempt_on, keyed, commit-deposit}
use giro.Storage.Tests.Codec.{toy}
use giro.Storage.Tests.Commits.{genesis-IsHistory}

deposit-IsHistory : IsHistory logged_deposit
deposit-IsHistory =
    commit_once-IsHistory toy (attempt_on genesis none) deposit (keyed (codes "k")) (codes "h")
      genesis-IsHistory commit-deposit

-- the balance on the day, and none before it
balance-alice : get_balances_at logged_deposit alice 5000 usd ≡ some (pos 70)
unfolding get_balances_at Key-discrete Bytes-discrete ◌-ℤ◌
balance-alice = refl

balance_before-alice : get_balances_at logged_deposit alice 4999 usd ≡ none
unfolding get_balances_at Key-discrete Bytes-discrete ◌-ℤ◌
balance_before-alice = refl

verify_effective_volumes-IsHistory_example :
    (verify_effective_volumes logged_deposit).1 ≡ none ↔ IsHistory logged_deposit
verify_effective_volumes-IsHistory_example = verify_effective_volumes-IsHistory logged_deposit

get_balances_at-IsBalance_example :
    IsBalance
      (key_at alice usd)
      5000
      logged_deposit.moves
      (get_balances_at logged_deposit alice 5000 usd)
    × (get_balances_at logged_deposit alice 5000 usd
        ≡ Option.map
            (λ (v : Volumes). v.input -ℤ v.output)
            (get_effective_volumes_at logged_deposit alice 5000 usd))
get_balances_at-IsBalance_example =
    get_balances_at-IsBalance logged_deposit alice 5000 usd deposit-IsHistory
