-- ===== src/Storage/Tests/Checks.antt =====
-- A run of all checks after the deposit.
use giro.Prelude.{true, some, List, [], ◌∷◌, codes, All, ok, err}
use giro.Storage.Schema.{Db}
use giro.Storage.Runs.{Check, CheckResult, Texts, VerifyOptions, verify_results}
use giro.Storage.Runs.Reports.{
  BeginsWith, invariants, IsBounded, verify_results-IsHeld, verify_results-IsShort,
}
use giro.Storage.Tests.{logged_deposit}
use giro.Storage.Tests.Codec.{toy}

abbrev texts : Texts
texts = record { error = λ found. codes "found"; stale = λ b. b.key.account }

-- with one check more, which fails, and balances that have not moved for a second
abbrev asked : VerifyOptions
asked = record {
  stale_prefix = codes "users:";
  stale_after = 1000;
  record_runs = true;
  extra = (codes "conversions", 2, some (codes "rate")) ∷ [];
}

abbrev quiet : Check → Db
quiet c = logged_deposit

abbrev results : List CheckResult
results = verify_results toy texts quiet (ok logged_deposit) 9000 asked

verify_results-IsHeld_example : BeginsWith (invariants toy quiet) results
verify_results-IsHeld_example = verify_results-IsHeld toy texts quiet (ok logged_deposit) 9000 asked

verify_results-IsShort_example :
    All
      (IsBounded (err (codes "no connection")))
      (verify_results toy texts quiet (err (codes "no connection")) 9000 asked)
verify_results-IsShort_example =
    verify_results-IsShort toy texts quiet (err (codes "no connection")) 9000 asked
