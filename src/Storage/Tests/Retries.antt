-- ===== src/Storage/Tests/Retries.antt =====
-- The retry loop and the sweeps, at concrete conflicts and ceilings.
use giro.Storage.Tests.Codec.{toy}
use giro.Prelude.{
  ℕ, ◌≡◌, refl, true, none, some, [], ◌∷◌, ok, err, pos, All, Bytes-discrete, arith, ◌+ℤ◌, ◌-ℤ◌,
  ◌<◌, zero, suc, inr,
}
use giro.Ledger.Posting.{Postings}
use giro.Ledger.Volumes.{Key-discrete}
use giro.Ledger.Tests.{alice, bob, pay, key_of, deposit}
use giro.Storage.Schema.{Db, Transaction, log_new_transaction, deadlock_detected}
use giro.Storage.Commit.{Attempt, commit_once}
use giro.Storage.Locking.{Locks, read_locks}
use giro.Storage.Sweep.{resolve_up_to}
use giro.Storage.Sweep.Resolution.{
  opening, Resolves, HasValidCeiling, IsBounded, resolve_up_to-Resolves, resolve_up_to_total,
}
use giro.Storage.Commit.{max_attempts, attempt_from}
use giro.Storage.Commit.Retry.{Contended, retry_until-Settled}
use giro.Prelude.{false}
use giro.Ledger.Address.{is_valid_address}
use giro.Ledger.Asset.{is_valid_asset}
use giro.Ledger.Posting.{validate}
use giro.Storage.Assets.{check_assets, Cache}
use giro.Storage.Commit.{commit_transaction}
use giro.Storage.Commit.Requests.{Accepted, commit_transaction-Accepted}
use giro.Storage.Tests.{
  genesis, deposited, deposit_content, after_deposit, keyed, attempt_on, logged_deposit,
}

-- one deadlock, then a commit
abbrev bumpy : ℕ → Attempt
bumpy zero = attempt_on genesis (some deadlock_detected)
bumpy (suc n) = attempt_on genesis none

deadlocked :
    commit_once toy (attempt_on genesis (some deadlock_detected)) deposit (keyed []) []
    ≡ err deadlock_detected
unfolding commit_once Key-discrete Bytes-discrete ◌+ℤ◌ ◌-ℤ◌
deadlocked = refl

unkeyed-deposit :
    commit_once toy (attempt_on genesis none) deposit (keyed []) []
    ≡ ok (
      record logged_deposit {
        logs =
            record {
              id = 1;
              type = log_new_transaction;
              date = 6000;
              content = deposit_content;
              hash = deposit_content;
              idempotency_key = [];
              idempotency_hash = [];
            }
            ∷ [];
      },
      deposited,
    )
unfolding commit_once Key-discrete Bytes-discrete ◌+ℤ◌ ◌-ℤ◌
unkeyed-deposit = refl

bumpy-Contended : (i : ℕ) → i < 1 → Contended toy bumpy deposit (keyed []) [] i
bumpy-Contended zero h = (deadlock_detected, deadlocked, refl, refl)
bumpy-Contended (suc i) h = absurd (omega arith)

retry_until-Settled_example :
    (n : Db × Transaction) × (attempt_from toy max_attempts 0 0 bumpy deposit (keyed []) []
      ≡ (1, ok n))
retry_until-Settled_example = (
  _,
  retry_until-Settled toy bumpy deposit (keyed []) [] 1 (ok _) (omega arith) bumpy-Contended
      unkeyed-deposit tt,
)

abbrev jammed : ℕ → Attempt
jammed n = attempt_on genesis (some deadlock_detected)

jammed-Contended : (i : ℕ) → i < max_attempts → Contended toy jammed deposit (keyed []) [] i
jammed-Contended i h = (deadlock_detected, deadlocked, refl, refl)

-- alice, who holds 70, is swept to bob up to 50, and then up to 100
abbrev sweep : Postings
sweep =
    record (pay alice bob 50) { up_to = true } ∷ record (pay alice bob 100) { up_to = true } ∷ []

abbrev swept : Postings
swept = pay alice bob 50 ∷ pay alice bob 20 ∷ []

abbrev locks : Locks
locks = read_locks after_deposit (record { key = key_of alice; input = pos 0; output = pos 0 } ∷ [])

resolve-sweep : resolve_up_to sweep locks ≡ ok swept
unfolding resolve_up_to read_locks Key-discrete Bytes-discrete ◌+ℤ◌ ◌-ℤ◌
resolve-sweep = refl

sweep-HasValidCeiling : All HasValidCeiling sweep
sweep-HasValidCeiling = (λ c e. ground arith, (λ c e. ground arith, tt))

resolve_up_to-Resolves_example : Resolves (opening locks) sweep swept
resolve_up_to-Resolves_example =
    resolve_up_to-Resolves locks sweep sweep-HasValidCeiling resolve-sweep

sweep-IsBounded : All (IsBounded locks) sweep
unfolding read_locks Key-discrete Bytes-discrete
sweep-IsBounded = (inr refl, (inr refl, tt))

resolve_up_to_total_example : (qs : Postings) × (resolve_up_to sweep locks ≡ ok qs)
resolve_up_to_total_example = resolve_up_to_total locks sweep sweep-IsBounded

abbrev new_store : Cache
new_store = record { registered = []; ledger_seen = false }

request-bumpy :
    (d : Cache × (Db × Transaction)) × (commit_transaction toy new_store genesis bumpy deposit
        (keyed [])
      ≡ (d.0, 1, ok d.1))
unfolding commit_transaction validate check_assets attempt_from commit_once Key-discrete
    Bytes-discrete ◌+ℤ◌ ◌-ℤ◌ is_valid_address is_valid_asset
request-bumpy = ((_, _), refl)

commit_transaction-Accepted_example :
    Accepted toy new_store genesis bumpy deposit (keyed []) request-bumpy.0.0 request-bumpy.0.1
commit_transaction-Accepted_example =
    commit_transaction-Accepted toy new_store genesis bumpy deposit (keyed []) request-bumpy.1
