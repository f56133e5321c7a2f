-- ===== src/Storage/Sweep/Resolution.antt =====
-- What `resolveUpTo` leaves of the postings.
use mathlib.Core.Logic.{if_pos, if_neg}
use giro.Prelude.{
  ite, ◌+ℤ◌, ◌-ℤ◌, ltb_ℤ, int_laws, +ℤ-zero, ◌≡◌, refl, sym, ap, ◌∙◌, subst, true, false, Option,
  none, some, [], ◌∷◌, ok, err, inl, inr, ◌⊎◌, arith, ok-injective, err-ne-ok, >>=-eq-ok,
  Bool-cases, Option-cases, All, any, ℤ, pos, negsuc, ◌>>=◌, ◌≤ℤ◌,
}
use giro.Ledger.Posting.{Posting, Postings}
use giro.Ledger.Volumes.{Key, Key-discrete, counted, source_key, destination_key}
use giro.Ledger.Volumes.Totals.{amount_or_zero, amount_of, inflow, outflow}
use giro.Ledger.Volumes.Keys.{names_key}
use giro.Storage.Schema.{unbounded_sweep}
use giro.Storage.Locking.{Locks}
use giro.Storage.Sweep.{
  Running, running_from, move_running, is_unbounded, swept_amount, resolved, move_fixed,
  resolve_from, resolve_up_to, set_running,
}

-- The balances of accounts in assets, and those after a posting: less what it takes out of them,
-- and with what it brings in.
abbrev pub Balances : Type 0
Balances = Key → ℤ

abbrev pub after_posting : Balances → Posting → Balances
after_posting held q k = held k -ℤ outflow k q (amount_of q) +ℤ inflow k q (amount_of q)

-- the balance of a locked row, and zero where there is none
abbrev pub opening : Locks → Balances
opening before k = elim (before k) [ none ↦ pos 0 | some v ↦ v.volumes.input -ℤ v.volumes.output ]

-- The amount is all that is held, or the ceiling, or nothing where nothing is held.
abbrev pub TakesAll : ℤ → Option ℤ → ℤ → Type 0
TakesAll held ceiling amount =
    (amount ≡ held) ⊎ (ceiling ≡ some amount) ⊎ ((held ≤ℤ pos 0) × (amount ≡ pos 0))

-- What one posting of the result is of the posting that it came from, given the balances when its
-- turn came: a fixed one is untouched, a ceiling became an amount that is not negative, not above
-- the ceiling, and not above what the source held, unless that was below zero; and no less than
-- these bounds allow.
abbrev pub IsResolutionOf : Balances → Posting → Posting → Type 0
IsResolutionOf held posting q =
    ((posting.up_to ≡ false) × (q ≡ posting))
    ⊎ ((posting.up_to ≡ true)
        × ((amount : ℤ) × (q ≡ resolved posting amount)
            × (pos 0 ≤ℤ amount)
            × ((amount ≤ℤ held (source_key posting)) ⊎ (amount ≡ pos 0))
            × ((ceiling : ℤ) → posting.amount ≡ some ceiling → amount ≤ℤ ceiling)
            × TakesAll (held (source_key posting)) posting.amount amount))

-- The postings one by one, each against what the accounts hold after those before it.
abbrev pub Resolves : Balances → Postings → Postings → Type 0
Resolves held [] [] = Unit
Resolves held [] (q ∷ qs) = ⊥
Resolves held (posting ∷ p) [] = ⊥
Resolves held (posting ∷ p) (q ∷ qs) =
    IsResolutionOf held posting q × Resolves (after_posting held q) p qs

-- A ceiling that `Validate` lets through.
abbrev pub HasValidCeiling : Posting → Type 0
HasValidCeiling posting = (ceiling : ℤ) → posting.amount ≡ some ceiling → pos 0 ≤ℤ ceiling

abbrev Sweeps : ℤ → Option ℤ → ℤ → Type 0
Sweeps held ceiling amount =
    (pos 0 ≤ℤ amount)
    × ((amount ≤ℤ held) ⊎ (amount ≡ pos 0))
    × ((c : ℤ) → ceiling ≡ some c → amount ≤ℤ c)
    × TakesAll held ceiling amount

swept_amount-Sweeps :
    (ceiling : Option ℤ) (held : ℤ)
    → ((c : ℤ) → ceiling ≡ some c → pos 0 ≤ℤ c)
    → Sweeps held ceiling (swept_amount ceiling held)
unfolding swept_amount
swept_amount-Sweeps none (pos n) h = (omega arith, inl (omega arith), λ c e. cc, inl refl)
swept_amount-Sweeps none (negsuc n) h =
    (omega arith, inr refl, λ c e. cc, inr (inr (omega arith, refl)))
swept_amount-Sweeps (some c) (pos n) h = (
  ground (arith, h c refl),
  ground (arith, h c refl),
  λ d e. ground (arith, h c refl),
  elim (Bool-cases (ltb_ℤ c (pos n))) [
    | inl less ↦ rw less (inr (inl refl))
    | inr more ↦ rw more (inl refl)
  ],
)
swept_amount-Sweeps (some c) (negsuc n) h = (
  ground (arith, h c refl),
  ground (arith, h c refl),
  λ d e. ground (arith, h c refl),
  elim (Bool-cases (ltb_ℤ c (pos 0))) [
    | inl less ↦ rw less (inr (inl refl))
    | inr more ↦ rw more (inr (inr (omega arith, refl)))
  ],
)

minus_zero : (a : ℤ) → a -ℤ pos 0 ≡ a
minus_zero a = omega int_laws

-- The running balances move as the posting says.
set_running_less :
    (r : Running) (j : Key) (a : ℤ) (k : Key)
    → set_running r j (r j -ℤ a) k ≡ r k -ℤ ite (Key-discrete k j) a (pos 0)
set_running_less r j a k = elim (Key-discrete k j) [
  | yes same ↦
      if_pos (Key-discrete k j) same _ _
      ∙ ap (λ i. r i -ℤ a) (sym same)
      ∙ ap (λ z. r k -ℤ z) (sym (if_pos (Key-discrete k j) same _ _))
  | no other ↦
      if_neg (Key-discrete k j) other _ _
      ∙ sym (minus_zero (r k))
      ∙ ap (λ z. r k -ℤ z) (sym (if_neg (Key-discrete k j) other _ _))
]

set_running_more :
    (r : Running) (j : Key) (a : ℤ) (k : Key)
    → set_running r j (r j +ℤ a) k ≡ r k +ℤ ite (Key-discrete k j) a (pos 0)
set_running_more r j a k = elim (Key-discrete k j) [
  | yes same ↦
      if_pos (Key-discrete k j) same _ _
      ∙ ap (λ i. r i +ℤ a) (sym same)
      ∙ ap (λ z. r k +ℤ z) (sym (if_pos (Key-discrete k j) same _ _))
  | no other ↦
      if_neg (Key-discrete k j) other _ _
      ∙ sym (+ℤ-zero (r k))
      ∙ ap (λ z. r k +ℤ z) (sym (if_neg (Key-discrete k j) other _ _))
]

move_running-eq :
    (q : Posting) (amount : ℤ) (running : Running) (k : Key)
    → move_running q amount running k ≡ running k -ℤ outflow k q amount +ℤ inflow k q amount
unfolding move_running
move_running-eq q amount running k =
    let s = source_key q in
    set_running_more (set_running running s (running s -ℤ amount)) (destination_key q) amount k
    ∙ ap (λ z. z +ℤ inflow k q amount) (set_running_less running s amount k)

nothing_counted : (q : Posting) → q.up_to ≡ false → q.amount ≡ none → amount_of q ≡ pos 0
nothing_counted q fixed given =
    ap (λ o. amount_or_zero (counted o q.up_to)) given
    ∙ ap (λ b. amount_or_zero (counted none b)) fixed

ite-zero : (k j : Key) → ite (Key-discrete k j) (pos 0) (pos 0) ≡ pos 0
ite-zero k j = ground arith

module _ (before : Locks) where
  resolve_from_nil : (running : Running) → resolve_from before running [] ≡ ok []
  unfolding resolve_from
  resolve_from_nil running = refl

  -- The rounds of the loop, one equation for each way they go.
  resolve_from_fixed :
      (running : Running) (posting : Posting) (p : Postings)
      → posting.up_to ≡ false
      → resolve_from before running (posting ∷ p) ≡ (
          resolve_from before (move_fixed posting posting.amount running) p >>= λ rest.
          ok (posting ∷ rest))
  unfolding resolve_from
  resolve_from_fixed running posting p e = ground arith

  resolve_from_swept :
      (running : Running) (posting : Posting) (p : Postings)
      → posting.up_to ≡ true
      → is_unbounded (before (source_key posting)) ≡ false
      → let amount = swept_amount posting.amount (running (source_key posting)) in
        resolve_from before running (posting ∷ p) ≡ (
          resolve_from before (move_running posting amount running) p >>= λ rest.
          ok (resolved posting amount ∷ rest))
  unfolding resolve_from
  resolve_from_swept running posting p e f = rw (resolve_from, e, f)

  resolve_from_unbounded :
      (running : Running) (posting : Posting) (p : Postings)
      → posting.up_to ≡ true
      → is_unbounded (before (source_key posting)) ≡ true
      → resolve_from before running (posting ∷ p) ≡ err (unbounded_sweep (source_key posting))
  unfolding resolve_from
  resolve_from_unbounded running posting p e f = rw (resolve_from, e, f)

  -- The running balances are the balances.
  abbrev IsRunning : Running → Balances → Type 0
  IsRunning running held = (k : Key) → running k ≡ held k

  moved-IsRunning :
      (running : Running) (held : Balances) (q : Posting) (amount : ℤ)
      → IsRunning running held
      → amount_of q ≡ amount
      → IsRunning (move_running q amount running) (after_posting held q)
  moved-IsRunning running held q amount same given k =
      move_running-eq q amount running k
      ∙ ap (λ h. h -ℤ outflow k q amount +ℤ inflow k q amount) (same k)
      ∙ ap (λ a. held k -ℤ outflow k q a +ℤ inflow k q a) (sym given)

  fixed-IsRunning :
      (running : Running) (held : Balances) (q : Posting) (o : Option ℤ)
      → q.up_to ≡ false
      → q.amount ≡ o
      → IsRunning running held
      → IsRunning (move_fixed q o running) (after_posting held q)
  fixed-IsRunning running held q (some amount) fixed given same =
      moved-IsRunning running held q amount same (
        ap (λ o. amount_or_zero (counted o q.up_to)) given
        ∙ ap (λ b. amount_or_zero (counted (some amount) b)) fixed)
  fixed-IsRunning running held q none fixed given same = λ k.
      same k
      ∙ sym (
          ap (λ a. held k -ℤ outflow k q a +ℤ inflow k q a) (nothing_counted q fixed given)
          ∙ ap (λ z. held k -ℤ z +ℤ inflow k q (pos 0)) (ite-zero k (source_key q))
          ∙ ap (λ z. held k -ℤ pos 0 +ℤ z) (ite-zero k (destination_key q))
          ∙ omega int_laws)

  IsRunning-opening : IsRunning (running_from before) (opening before)
  unfolding running_from
  IsRunning-opening k = elim (Option-cases (before k)) [
    | inl absent ↦ rw (running_from, opening, absent) refl
    | inr (v, found) ↦ rw (running_from, opening, found) refl
  ]

  resolve_from-Resolves :
      (running : Running) (held : Balances) (p : Postings) (qs : Postings)
      → IsRunning running held
      → All HasValidCeiling p
      → resolve_from before running p ≡ ok qs
      → Resolves held p qs
  unfolding move_running
  resolve_from-Resolves running held [] qs same h e =
      subst (Resolves held []) (ok-injective (sym (resolve_from_nil running) ∙ e)) tt
  resolve_from-Resolves running held (posting ∷ p) qs same (c, h) e =
      elim (Bool-cases posting.up_to) [
        | inr fixed ↦
            let (rest, found, e1) =
              >>=-eq-ok (resolve_from before (move_fixed posting posting.amount running) p) _
                (sym (resolve_from_fixed running posting p fixed) ∙ e) in
            subst (Resolves held (posting ∷ p)) (ok-injective e1) (
              inl (fixed, refl),
              resolve_from-Resolves (move_fixed posting posting.amount running)
                  (after_posting held posting) p rest
                  (fixed-IsRunning running held posting posting.amount fixed refl same) h found,
            )
        | inl sweeping ↦ elim (Bool-cases (is_unbounded (before (source_key posting)))) [
          | inl unbounded ↦
              absurd
                (err-ne-ok (sym (resolve_from_unbounded running posting p sweeping unbounded) ∙ e))
          | inr bounded ↦
              let amount = swept_amount posting.amount (running (source_key posting)) in
              let (rest, found, e1) =
                >>=-eq-ok (resolve_from before (move_running posting amount running) p) _
                  (sym (resolve_from_swept running posting p sweeping bounded) ∙ e) in
              let (least, most_held, most, all) =
                subst (λ b. Sweeps b posting.amount amount) (same (source_key posting))
                  (swept_amount-Sweeps posting.amount (running (source_key posting)) c) in
              subst (Resolves held (posting ∷ p)) (ok-injective e1) (
                inr (sweeping, (amount, refl, least, most_held, most, all)),
                resolve_from-Resolves (move_running posting amount running)
                    (after_posting held (resolved posting amount)) p rest
                    (moved-IsRunning running held (resolved posting amount) amount same refl) h
                    found,
              )
        ]
      ]

  -- resolveUpTo, when it succeeds on ceilings that are not negative, leaves fixed postings alone
  -- and gives each ceiling an amount between zero and the ceiling, and no more than what its source
  -- holds (or nothing), which is the balance of the locked row, or zero, less what the postings
  -- before it take out and plus what they bring in; and it takes all that it may.
  pub resolve_up_to-Resolves :
      (p : Postings) {qs : Postings}
      → All HasValidCeiling p
      → resolve_up_to p before ≡ ok qs
      → Resolves (opening before) p qs
  unfolding resolve_up_to
  resolve_up_to-Resolves p {qs} h e =
      resolve_from-Resolves (running_from before) (opening before) p qs IsRunning-opening h e

  -- No ceiling has a source that may go below zero.
  abbrev pub IsBounded : Posting → Type 0
  IsBounded posting = (posting.up_to ≡ false) ⊎ (is_unbounded (before (source_key posting)) ≡ false)

  resolve_from_total :
      (running : Running) (p : Postings)
      → All IsBounded p
      → (qs : Postings) × (resolve_from before running p ≡ ok qs)
  resolve_from_total running [] h = ([], unfold resolve_from in refl)
  resolve_from_total running (posting ∷ p) (b, h) = elim (Bool-cases posting.up_to) [
    | inr fixed ↦
        let (rest, found) = resolve_from_total (move_fixed posting posting.amount running) p h in
        (posting ∷ rest, resolve_from_fixed running posting p fixed ∙ rw found)
    | inl sweeping ↦
        let bounded : is_unbounded (before (source_key posting)) ≡ false = ground arith in
        let amount = swept_amount posting.amount (running (source_key posting)) in
        let (rest, found) = resolve_from_total (move_running posting amount running) p h in
        (
          resolved posting amount ∷ rest,
          resolve_from_swept running posting p sweeping bounded ∙ rw found,
        )
  ]

  -- resolveUpTo resolves every list in which no ceiling is on a source that may go below zero.
  pub resolve_up_to_total :
      (p : Postings) → All IsBounded p → (qs : Postings) × (resolve_up_to p before ≡ ok qs)
  unfolding resolve_up_to
  resolve_up_to_total p h = resolve_from_total (running_from before) p h

  resolve_from-names_key :
      (k : Key) (running : Running) (p : Postings) (qs : Postings)
      → resolve_from before running p ≡ ok qs
      → any (names_key k) qs ≡ any (names_key k) p
  resolve_from-names_key k running [] qs e =
      ap (any (names_key k)) (sym (ok-injective (sym (resolve_from_nil running) ∙ e)))
  resolve_from-names_key k running (posting ∷ p) qs e = elim (Bool-cases posting.up_to) [
    | inr fixed ↦
        let (rest, found, e1) =
          >>=-eq-ok (resolve_from before (move_fixed posting posting.amount running) p) _
            (sym (resolve_from_fixed running posting p fixed) ∙ e) in
        rw (
          ← ok-injective e1,
          resolve_from-names_key k (move_fixed posting posting.amount running) p rest found,
        )
    | inl sweeping ↦ elim (Bool-cases (is_unbounded (before (source_key posting)))) [
      | inl unbounded ↦
          absurd (err-ne-ok (sym (resolve_from_unbounded running posting p sweeping unbounded) ∙ e))
      | inr bounded ↦
          let amount = swept_amount posting.amount (running (source_key posting)) in
          let (rest, found, e1) =
            >>=-eq-ok (resolve_from before (move_running posting amount running) p) _
              (sym (resolve_from_swept running posting p sweeping bounded) ∙ e) in
          rw (
            ← ok-injective e1,
            resolve_from-names_key k (move_running posting amount running) p rest found,
          )
    ]
  ]

  -- Resolving changes no account and no asset: "the keys are unchanged, so the locks already taken
  -- are still the right ones".
  pub resolve_up_to-names_key :
      (k : Key) (p : Postings) {qs : Postings}
      → resolve_up_to p before ≡ ok qs
      → any (names_key k) qs ≡ any (names_key k) p
  unfolding resolve_up_to
  resolve_up_to-names_key k p {qs} e = resolve_from-names_key k (running_from before) p qs e
