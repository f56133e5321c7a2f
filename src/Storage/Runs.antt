-- ===== src/Storage/Runs.antt =====
-- storage/verify_runs.go and storage/stale.go: all checks of a ledger, what each of them reports,
-- and the record that they ran.
pub mod Reports
use giro.Prelude.{
  ℕ, ◌-◌, Bool, true, false, not, ◌&&◌, ◌||◌, Option, none, some, List, [], ◌∷◌, ◌++◌, map, take,
  length, if◌then◌else◌, ite, ltb, leb, ◌==◌, Bytes, Bytes-discrete, codes, ℤ, Ordering, Result, ok,
  err,
}
use giro.Ledger.Address.{Address}
use giro.Ledger.Asset.{Asset}
use giro.Ledger.Volumes.{Key, Key-discrete, balance, compare_key}
use giro.Storage.Schema.{Db, VolumeRow, MoveRow, Time, Error}
use giro.Storage.Encoding.{Encoding}
use giro.Storage.Log.{verify_log}
use giro.Storage.Policy.{UnpermittedNegative, verify_balance_permissions}
use giro.Storage.Closure.{ClosedAccountHoldsBalance, holds_balance, verify_closed_accounts}
use giro.Storage.Projection.{ProjectionFault, verify_projection}
use giro.Storage.Conservation.{verify_conservation}
use giro.Storage.Effective.{EffectiveVolumesMismatch, verify_effective_volumes}

-- `StaleBalance`
pub record StaleBalance : Type 0 where
  pub key : Key
  pub balance : ℤ
  pub last_move : Time

-- `select max(insertion_date) from moves`, of one account and asset
unfoldable pub last_insertion : Key → List MoveRow → Option Time
last_insertion k [] = none
last_insertion k (m ∷ ms) =
    let rest = last_insertion k ms in
    ite (Key-discrete m.key k)
      (elim rest [
        | none ↦ some m.insertion_date
        | some t ↦ some (if ltb t m.insertion_date then m.insertion_date else t)
      ])
      rest

abbrev pub any_suffix : (Bytes → Bool) → Bytes → Bool
any_suffix fits [] = fits []
any_suffix fits (d ∷ s) = fits (d ∷ s) || any_suffix fits s

abbrev pub after_byte : (ℕ → Bool) → (Bytes → Bool) → Bytes → Bool
after_byte fits then_fits [] = false
after_byte fits then_fits (d ∷ s) = fits d && then_fits s

-- `address like $2 || '%'`, with the wildcards and the escapes that the prefix may have; the flag is
-- for what follows an escape
unfoldable pub is_like : Bool → Bytes → Bytes → Bool
is_like false [] s = true
is_like true [] s = ite (Bytes-discrete s (b'%' ∷ [])) true false
is_like true (c ∷ prefix) s = after_byte (λ d. d == c) (is_like false prefix) s
is_like false (c ∷ prefix) s =
    if c == 92
    then is_like true prefix s
    else if c == b'%'
    then any_suffix (is_like false prefix) s
    else if c == b'_'
    then after_byte (λ d. true) (is_like false prefix) s
    else after_byte (λ d. d == c) (is_like false prefix) s

abbrev pub stale_since : Time → VolumeRow → Option Time → List StaleBalance
stale_since cutoff r none = []
stale_since cutoff r (some last) =
    if ltb last cutoff
    then record { key = r.key; balance = balance r.volumes; last_move = last } ∷ []
    else []

unfoldable pub stale_rows : Bytes → Time → List MoveRow → List VolumeRow → List StaleBalance
unfolding last_insertion is_like
stale_rows prefix cutoff moves [] = []
stale_rows prefix cutoff moves (r ∷ rs) =
    let rest = stale_rows prefix cutoff moves rs in
    if is_like false prefix r.key.account && holds_balance r
    then stale_since cutoff r (last_insertion r.key moves) ++ rest
    else rest

-- `order by m.last, v.address, v.asset`
abbrev pub is_before : StaleBalance → StaleBalance → Bool
is_before a b =
    ltb a.last_move b.last_move
    || (a.last_move == b.last_move && elim (compare_key a.key b.key) [
      | Ordering.lt ↦ true
      | Ordering.eq ↦ true
      | Ordering.gt ↦ false
    ])

unfoldable pub insert_stale : StaleBalance → List StaleBalance → List StaleBalance
insert_stale a [] = a ∷ []
insert_stale a (b ∷ bs) =
    let rest = insert_stale a bs in if is_before a b then a ∷ b ∷ bs else b ∷ rest

unfoldable pub sort_stale : List StaleBalance → List StaleBalance
unfolding insert_stale
sort_stale [] = []
sort_stale (a ∷ as') = insert_stale a (sort_stale as')

-- `StaleBalances`, of an age that is not negative
unfoldable pub stale_balances : Bytes → Time → Time → Db → List StaleBalance
unfolding stale_rows sort_stale
stale_balances prefix age now db = sort_stale (stale_rows prefix (now - age) db.moves db.volumes)

-- `CheckResult`, without the time that the check took
pub record CheckResult : Type 0 where
  pub name : Bytes
  pub checked : ℕ
  pub is_ok : Bool
  pub detail : Bytes

-- the checks of the engine
pub data Check : Type 0 where
  conservation log projection effective_volumes balance_permissions closed_accounts : Check

abbrev pub check_name : Check → Bytes
check_name conservation = codes "conservation"
check_name log = codes "log"
check_name projection = codes "projection"
check_name effective_volumes = codes "effective_volumes"
check_name balance_permissions = codes "balance_permissions"
check_name closed_accounts = codes "closed_accounts"

abbrev pub checks : List Check
checks =
    conservation ∷ log ∷ projection ∷ effective_volumes ∷ balance_permissions ∷ closed_accounts ∷ []

-- what a check returns as its error
pub data Finding : Type 0 where
  drifted : List (Asset × ℤ) → Finding
  broken : Error → Finding
  diverged : ProjectionFault → Finding
  mismatched : EffectiveVolumesMismatch → Finding
  unpermitted : List UnpermittedNegative → Finding
  stranded : List ClosedAccountHoldsBalance → Finding

abbrev pub joined {ℓ} : {A : Type ℓ} → (List A → Finding) → List A → Option Finding
joined wrap [] = none
joined wrap (x ∷ xs) = some (wrap (x ∷ xs))

abbrev pub single {ℓ} : {A : Type ℓ} → (A → Finding) → Option A → Option Finding
single wrap none = none
single wrap (some x) = some (wrap x)

-- `MaxDetail`
abbrev pub max_detail : ℕ
max_detail = 4000

abbrev pub truncation_mark : Bytes
truncation_mark = 10 ∷ codes "... truncated"

-- `truncateDetail`
unfoldable pub truncate_detail : Bytes → Bytes
truncate_detail s = if leb (length s) max_detail then s else take max_detail s ++ truncation_mark

-- `result`
unfoldable pub result : Bytes → ℕ → Option Bytes → CheckResult
unfolding truncate_detail
result name checked none = record { name = name; checked = checked; is_ok = true; detail = [] }
result name checked (some text) = record {
  name = name;
  checked = checked;
  is_ok = false;
  detail = truncate_detail text;
}

-- `VerifyOptions`; `StaleAfter` is an age in nanoseconds
pub record VerifyOptions : Type 0 where
  pub stale_prefix : Bytes
  pub stale_after : Time
  pub record_runs : Bool
  -- what each of the checks from above the engine returns
  pub extra : List (Bytes × ℕ × Option Bytes)

-- the texts of errors, and of a stale balance
pub record Texts : Type 0 where
  pub error : Finding → Bytes
  pub stale : StaleBalance → Bytes

-- the loop over what is stale
unfoldable pub stale_detail : (StaleBalance → Bytes) → Bytes → List StaleBalance → Bytes
unfolding truncate_detail
stale_detail text detail [] = detail
stale_detail text detail (b ∷ bs) =
    stale_detail text (truncate_detail (detail ++ text b ++ 10 ∷ [])) bs

-- the result for what the query of stale balances returns: an error's text is kept whole
unfoldable pub stale_result :
    (StaleBalance → Bytes) → Result Bytes (List StaleBalance) → CheckResult
unfolding stale_detail
stale_result text (err failed) = record {
  name = codes "stale_balances";
  checked = 0;
  is_ok = false;
  detail = failed;
}
stale_result text (ok stale) = record {
  name = codes "stale_balances";
  checked = length stale;
  is_ok = length stale == 0;
  detail = stale_detail text [] stale;
}

-- `recordVerification`: the rows of the runs, and the error of the first insert that fails
unfoldable pub record_verification :
    (Bytes → Option Error) → List CheckResult → List CheckResult → List CheckResult × Option Error
record_verification fails [] runs = (runs, none)
record_verification fails (r ∷ rs) runs =
    let rest = record_verification fails rs (runs ++ r ∷ []) in
    elim (fails r.name) [ some error ↦ (runs, some error) | none ↦ rest ]

abbrev pub mapped : (Db → List StaleBalance) → Result Bytes Db → Result Bytes (List StaleBalance)
mapped f (err failed) = err failed
mapped f (ok db) = ok (f db)

abbrev pub found_text : (Finding → Bytes) → Option Finding → Option Bytes
found_text text none = none
found_text text (some found) = some (text found)

module _ (e : Encoding) where
  unfoldable pub run_check : Check → Db → ℕ × Option Finding
  unfolding verify_conservation verify_log verify_projection verify_effective_volumes
      verify_balance_permissions verify_closed_accounts
  run_check conservation db = let r = verify_conservation db in (r.0, joined drifted r.1)
  run_check log db = let r = verify_log e db.logs in (r.0, single broken r.1)
  run_check projection db = let r = verify_projection e db in (r.0, single diverged r.1)
  run_check effective_volumes db =
      let r = verify_effective_volumes db in (r.0, single mismatched r.1)
  run_check balance_permissions db =
      let r = verify_balance_permissions db in (r.0, joined unpermitted r.1)
  run_check closed_accounts db = let r = verify_closed_accounts db in (r.0, joined stranded r.1)

  -- one round of the first loop; each check reads the database as it is then
  unfoldable pub report : Texts → (Check → Db) → Check → CheckResult
  unfolding run_check result
  report texts seen c =
      let ran = run_check c (seen c) in result (check_name c) ran.0 (found_text texts.error ran.1)

  -- the results of `Verify`; `seen_last` is what the query for stale balances reads, or the text
  -- of the error that it fails with
  unfoldable pub verify_results :
      Texts → (Check → Db) → Result Bytes Db → Time → VerifyOptions → List CheckResult
  unfolding report result stale_result stale_balances
  verify_results texts seen seen_last now opts =
      map (report texts seen) checks
      ++ (map (λ x. result x.0 x.1 x.2) opts.extra
          ++ (if ltb 0 opts.stale_after
              then stale_result texts.stale
                  (mapped (stale_balances opts.stale_prefix opts.stale_after now) seen_last)
                ∷ []
              else []))

  -- `Verify`: its results, the error of recording them, and the rows of the runs
  unfoldable pub verify_all :
      Texts
      → (Check → Db)
      → Result Bytes Db
      → Time
      → (Bytes → Option Error)
      → VerifyOptions
      → List CheckResult
      → List CheckResult × Option Error × List CheckResult
  unfolding verify_results record_verification
  verify_all texts seen seen_last now fails opts runs =
      let results = verify_results texts seen seen_last now opts in
      let recorded =
        if opts.record_runs then record_verification fails results runs else (runs, none) in
      (results, recorded.1, recorded.0)
