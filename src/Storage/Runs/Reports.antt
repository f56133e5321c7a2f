-- ===== src/Storage/Runs/Reports.antt =====
-- What a run of all checks reports: every check, whether its invariant holds, in a bounded text.
use giro.Prelude.{
  ℕ, zero, suc, ◌+◌, ◌≤◌, ◌≡◌, refl, ◌↔◌, Bool, true, false, Option, none, some, List, [], ◌∷◌,
  ◌++◌, map, take, length, ◌⊎◌, codes, Result, ok, err, length-append, if◌then◌else◌, ltb, leb,
  Bytes, arith, All, All-append, Bool-cases, inl, inr,
}
use giro.Storage.Schema.{Db, Time}
use giro.Storage.Encoding.{Encoding}
use giro.Storage.Log.{verify_log}
use giro.Storage.Log.Verified.{IsVerified, verify_log-IsVerified}
use giro.Storage.Projection.Decides.{IsReplay, verify_projection-IsReplay}
use giro.Storage.Projection.{verify_projection}
use giro.Storage.Commit.Conservation.{IsConserved}
use giro.Storage.Commit.Bounds.{IsWithin}
use giro.Storage.Commit.Histories.{IsHistory}
use giro.Storage.Closure.Emptiness.{ClosedAreEmpty}
use giro.Storage.Conservation.Decides.{verify_conservation-IsConserved}
use giro.Storage.Effective.Decides.{verify_effective_volumes-IsHistory}
use giro.Storage.Policy.Permissions.{verify_balance_permissions-IsWithin}
use giro.Storage.Closure.Commits.{verify_closed_accounts-ClosedAreEmpty}
use giro.Storage.Conservation.{verify_conservation}
use giro.Storage.Effective.{verify_effective_volumes}
use giro.Storage.Policy.{verify_balance_permissions}
use giro.Storage.Closure.{verify_closed_accounts}
use giro.Storage.Runs.{
  StaleBalance, CheckResult, Check, conservation, log, projection, effective_volumes,
  balance_permissions, closed_accounts, check_name, checks, Finding, joined, single, max_detail,
  truncation_mark, truncate_detail, result, VerifyOptions, Texts, stale_detail, stale_result,
  stale_balances, run_check, found_text, mapped, report, verify_results,
}

-- The invariant that a check is for.
abbrev pub IsHeld : Encoding → Check → Db → Type 0
IsHeld e conservation db = IsConserved db
IsHeld e log db = IsVerified e db.logs
IsHeld e projection db = IsReplay e db
IsHeld e effective_volumes db = IsHistory db
IsHeld e balance_permissions db = IsWithin db
IsHeld e closed_accounts db = ClosedAreEmpty db

joined-none {ℓ} :
    {A : Type ℓ} (wrap : List A → Finding) (xs : List A) → (joined wrap xs ≡ none) ↔ (xs ≡ [])
joined-none wrap [] = (λ h. refl, λ h. refl)
joined-none wrap (x ∷ xs) = (λ h. absurd (cc h), λ h. absurd (cc h))

single-none {ℓ} :
    {A : Type ℓ} (wrap : A → Finding) (found : Option A)
    → (single wrap found ≡ none) ↔ (found ≡ none)
single-none wrap none = (λ h. refl, λ h. refl)
single-none wrap (some x) = (λ h. absurd (cc h), λ h. absurd (cc h))

↔-trans {ℓ κ μ} : {A : Type ℓ} {B : Type κ} {C : Type μ} → A ↔ B → B ↔ C → A ↔ C
↔-trans f g = (λ a. g.0 (f.0 a), λ c. f.1 (g.1 c))

run_check-IsHeld :
    (e : Encoding) (c : Check) (db : Db) → ((run_check e c db).1 ≡ none) ↔ IsHeld e c db
unfolding run_check
run_check-IsHeld e conservation db =
    ↔-trans (joined-none Finding.drifted (verify_conservation db).1)
      (verify_conservation-IsConserved db)
run_check-IsHeld e log db =
    ↔-trans (single-none Finding.broken (verify_log e db.logs).1) (verify_log-IsVerified e db.logs)
run_check-IsHeld e projection db =
    ↔-trans (single-none Finding.diverged (verify_projection e db).1)
      (verify_projection-IsReplay e db)
run_check-IsHeld e effective_volumes db =
    ↔-trans (single-none Finding.mismatched (verify_effective_volumes db).1)
      (verify_effective_volumes-IsHistory db)
run_check-IsHeld e balance_permissions db =
    ↔-trans (joined-none Finding.unpermitted (verify_balance_permissions db).1)
      (verify_balance_permissions-IsWithin db)
run_check-IsHeld e closed_accounts db =
    ↔-trans (joined-none Finding.stranded (verify_closed_accounts db).1)
      (verify_closed_accounts-ClosedAreEmpty db)

result-is_ok :
    (name : Bytes) (checked : ℕ) (text : Finding → Bytes) (found : Option Finding)
    → ((result name checked (found_text text found)).is_ok ≡ true) ↔ (found ≡ none)
unfolding result
result-is_ok name checked text none = (λ h. refl, λ h. refl)
result-is_ok name checked text (some x) = (λ h. absurd (cc h), λ h. absurd (cc h))

report-IsHeld :
    (e : Encoding) (texts : Texts) (seen : Check → Db) (c : Check)
    → ((report e texts seen c).is_ok ≡ true) ↔ IsHeld e c (seen c)
unfolding report
report-IsHeld e texts seen c =
    let ran = run_check e c (seen c) in
    ↔-trans (result-is_ok (check_name c) ran.0 texts.error ran.1) (run_check-IsHeld e c (seen c))

-- A result of this name, which is OK exactly when the proposition holds.
abbrev pub Says : Bytes → Type 0 → CheckResult → Type 0
Says name P r = (r.name ≡ name) × ((r.is_ok ≡ true) ↔ P)

-- The results begin with one for each of these names.
abbrev pub BeginsWith : List (Bytes × Type 0) → List CheckResult → Type 0
BeginsWith [] rs = Unit
BeginsWith (expected ∷ es) [] = ⊥
BeginsWith (expected ∷ es) (r ∷ rs) = Says expected.0 expected.1 r × BeginsWith es rs

-- What a run is for: the names and the invariants, each of the database that its check reads.
abbrev pub invariants : Encoding → (Check → Db) → List (Bytes × Type 0)
invariants e seen =
    (codes "conservation", IsConserved (seen conservation))
    ∷ (codes "log", IsVerified e (seen log).logs)
    ∷ (codes "projection", IsReplay e (seen projection))
    ∷ (codes "effective_volumes", IsHistory (seen effective_volumes))
    ∷ (codes "balance_permissions", IsWithin (seen balance_permissions))
    ∷ (codes "closed_accounts", ClosedAreEmpty (seen closed_accounts))
    ∷ []

result-name :
    (name : Bytes) (checked : ℕ) (text : Option Bytes) → (result name checked text).name ≡ name
unfolding result
result-name name checked none = refl
result-name name checked (some text) = refl

report-Says :
    (e : Encoding) (texts : Texts) (seen : Check → Db) (c : Check)
    → Says (check_name c) (IsHeld e c (seen c)) (report e texts seen c)
report-Says e texts seen c =
    let ran = run_check e c (seen c) in
    (
      unfold report in result-name (check_name c) ran.0 (found_text texts.error ran.1),
      report-IsHeld e texts seen c,
    )

-- The results of Verify begin with six, named conservation, log, projection, effective_volumes,
-- balance_permissions and closed_accounts in this order, whatever each finds; each is OK exactly
-- when, in the database that its check read, inputs equal outputs in every asset; every log entry
-- hashes over its own content and the hash before it, and its id follows the one before or is past
-- a gap that it declares; the log replays, at every account and asset the stored row is what the
-- replay comes to (or, without an entry, a row of zeros), and the stored transactions are as many
-- as those of the log and among them; effective snapshots are the sums of their moves; no balance
-- is where its row does not permit it; closed accounts are empty.
pub verify_results-IsHeld :
    (e : Encoding) (texts : Texts) (seen : Check → Db) (seen_last : Result Bytes Db) (now : Time)
    (opts : VerifyOptions)
    → BeginsWith (invariants e seen) (verify_results e texts seen seen_last now opts)
unfolding verify_results
verify_results-IsHeld e texts seen seen_last now opts =
    let says = report-Says e texts seen in
    (
      says conservation,
      (
        says log,
        (
          says projection,
          (says effective_volumes, (says balance_permissions, (says closed_accounts, tt))),
        ),
      ),
    )

length-take : (n : ℕ) (xs : Bytes) → length (take n xs) ≤ n
length-take zero xs = omega arith
length-take (suc n) [] = omega arith
length-take (suc n) (x ∷ xs) = omega (arith, length-take n xs)

-- the longest text that is kept
abbrev pub max_text : ℕ
max_text = max_detail + length truncation_mark

abbrev pub IsShort : CheckResult → Type 0
IsShort r = length r.detail ≤ max_text

truncate_detail-bound : (s : Bytes) → length (truncate_detail s) ≤ max_text
unfolding truncate_detail
truncate_detail-bound s = elim (Bool-cases (leb (length s) max_detail)) [
  | inl short ↦ rw short (ground arith)
  | inr long ↦
      rw long
        (omega (arith, length-append (take max_detail s) truncation_mark, length-take max_detail s))
]

result-IsShort :
    (name : Bytes) (checked : ℕ) (text : Option Bytes) → IsShort (result name checked text)
unfolding result
result-IsShort name checked none = omega arith
result-IsShort name checked (some text) = truncate_detail-bound text

stale_detail-bound :
    (text : StaleBalance → Bytes) (detail : Bytes) (stale : List StaleBalance)
    → length detail ≤ max_text
    → length (stale_detail text detail stale) ≤ max_text
unfolding stale_detail
stale_detail-bound text detail [] h = h
stale_detail-bound text detail (b ∷ bs) h =
    stale_detail-bound text (truncate_detail (detail ++ text b ++ 10 ∷ [])) bs
      (truncate_detail-bound (detail ++ text b ++ 10 ∷ []))

map-All {ℓ} :
    {A : Type ℓ} (f : A → CheckResult) (xs : List A)
    → ((x : A) → IsShort (f x))
    → All IsShort (map f xs)
map-All f [] h = tt
map-All f (x ∷ xs) h = (h x, map-All f xs h)

-- The text of the error of the query of stale balances.
abbrev pub IsFailure : Result Bytes Db → CheckResult → Type 0
IsFailure (err failed) r = (r.name ≡ codes "stale_balances") × (r.detail ≡ failed)
IsFailure (ok db) r = ⊥

abbrev pub IsBounded : Result Bytes Db → CheckResult → Type 0
IsBounded seen_last r = IsShort r ⊎ IsFailure seen_last r

bounded :
    (seen_last : Result Bytes Db) (rs : List CheckResult)
    → All IsShort rs
    → All (IsBounded seen_last) rs
bounded seen_last [] h = tt
bounded seen_last (r ∷ rs) h = (inl h.0, bounded seen_last rs h.1)

stale_part-IsBounded :
    (asked : Bool) (text : StaleBalance → Bytes) (query : Db → List StaleBalance)
    (seen_last : Result Bytes Db)
    → All
        (IsBounded seen_last)
        (if asked then stale_result text (mapped query seen_last) ∷ [] else [])
unfolding stale_result
stale_part-IsBounded true text query (ok db) =
    (inl (stale_detail-bound text [] (query db) (omega arith)), tt)
stale_part-IsBounded true text query (err failed) = (inr (refl, refl), tt)
stale_part-IsBounded false text query seen_last = tt

-- No result of Verify, however much a check finds and however many balances are stale, has a detail
-- longer than 4000 bytes and the mark of truncation, but for the result named stale_balances when
-- the query for stale balances fails: its detail is the whole text of that error.
pub verify_results-IsShort :
    (e : Encoding) (texts : Texts) (seen : Check → Db) (seen_last : Result Bytes Db) (now : Time)
    (opts : VerifyOptions)
    → All (IsBounded seen_last) (verify_results e texts seen seen_last now opts)
unfolding verify_results report
verify_results-IsShort e texts seen seen_last now opts =
    let query = stale_balances opts.stale_prefix opts.stale_after now in
    let reports = map (report e texts seen) checks in
    let extras = map (λ x. result x.0 x.1 x.2) opts.extra in
    let asked = ltb 0 opts.stale_after in
    let last = if asked then stale_result texts.stale (mapped query seen_last) ∷ [] else [] in
    let ran : Check → ℕ × Option Finding = λ c. run_check e c (seen c) in
    All-append (IsBounded seen_last) reports (extras ++ last)
      (bounded seen_last reports (
        map-All (report e texts seen) checks
          (λ c. result-IsShort (check_name c) (ran c).0 (found_text texts.error (ran c).1))))
      (All-append (IsBounded seen_last) extras last
        (bounded seen_last extras
          (map-All (λ x. result x.0 x.1 x.2) opts.extra (λ x. result-IsShort x.0 x.1 x.2)))
        (stale_part-IsBounded asked texts.stale query seen_last))
