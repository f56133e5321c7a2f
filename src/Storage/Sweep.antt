-- ===== src/Storage/Sweep.antt =====
-- storage/commit.go: `resolveUpTo`, which turns every ceiling into the amount that it resolves to.
pub mod Resolution
use giro.Prelude.{
  Bool, true, false, Option, none, some, List, [], ◌∷◌, ite, if◌then◌else◌, Result, ok, err, ◌>>=◌,
  ℤ, pos, ◌+ℤ◌, ◌-ℤ◌, ltb_ℤ, is_negative,
}
use giro.Ledger.Posting.{Posting, Postings}
use giro.Ledger.Volumes.{Key, Key-discrete, balance, source_key, destination_key}
use giro.Storage.Schema.{Error, unbounded_sweep}
use giro.Storage.Locking.{Locked, Locks}

-- `map[key]*big.Int`, read through `orZero`
abbrev pub Running : Type 0
Running = Key → ℤ

abbrev pub set_running : Running → Key → ℤ → Running
set_running running k x j = ite (Key-discrete j k) x (running j)

abbrev balance_or_zero : Option Locked → ℤ
balance_or_zero none = pos 0
balance_or_zero (some v) = balance v.volumes

unfoldable pub running_from : Locks → Running
unfolding balance
running_from before k = balance_or_zero (before k)

-- the two writes to `running` that a movement makes: out of the source, then into the destination
unfoldable pub move_running : Posting → ℤ → Running → Running
move_running posting amount running =
    let drained =
      set_running running (source_key posting) (running (source_key posting) -ℤ amount) in
    set_running drained (destination_key posting) (drained (destination_key posting) +ℤ amount)

-- `if v, ok := before[src]; ok && v.allowNegative`
abbrev pub is_unbounded : Option Locked → Bool
is_unbounded none = false
is_unbounded (some v) = v.allow_negative

abbrev pub capped : Option ℤ → ℤ → ℤ
capped none available = available
capped (some ceiling) available = if ltb_ℤ ceiling available then ceiling else available

-- what a sweep takes: no less than nothing, and no more than its ceiling
unfoldable pub swept_amount : Option ℤ → ℤ → ℤ
swept_amount ceiling held = capped ceiling (if is_negative held then pos 0 else held)

abbrev pub resolved : Posting → ℤ → Posting
resolved posting amount = record posting { amount = some amount; up_to = false }

abbrev pub move_fixed : Posting → Option ℤ → Running → Running
move_fixed posting none running = running
move_fixed posting (some amount) running = move_running posting amount running

-- the loop of `resolveUpTo`
unfoldable pub resolve_from : Locks → Running → Postings → Result Error Postings
unfolding move_running swept_amount
resolve_from before running [] = ok []
resolve_from before running (posting ∷ p) = elim posting.up_to [
  | false ↦ do
    rest ← resolve_from before (move_fixed posting posting.amount running) p
    ok (posting ∷ rest)
  | true ↦ elim (is_unbounded (before (source_key posting))) [
    | true ↦ err (unbounded_sweep (source_key posting))
    | false ↦
        let amount = swept_amount posting.amount (running (source_key posting)) in
        do
          rest ← resolve_from before (move_running posting amount running) p
          ok (resolved posting amount ∷ rest)
  ]
]

-- `resolveUpTo`
unfoldable pub resolve_up_to : Postings → Locks → Result Error Postings
unfolding resolve_from running_from
resolve_up_to p before = resolve_from before (running_from before) p
