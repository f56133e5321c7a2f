-- ===== src/Storage/Moves/Latest.antt =====
-- What the latest move at or before a date says of all the moves up to that date.
use giro.Prelude.{
  ◌≡◌, ◌≢◌, refl, sym, ap, ◌∙◌, subst, true, false, Option, none, some, List, [], ◌∷◌, ◌++◌,
  if◌then◌else◌, leb, ltb, inl, inr, arith, ℤ, pos, ◌+ℤ◌, int_laws, zero-+ℤ, All, All-append,
  Bool-cases, leb→le, ◌≤◌, ◌<◌,
}
use giro.Ledger.Volumes.{Key, Key-discrete}
use giro.Storage.Schema.{MoveRow, Time}
use giro.Storage.Moves.{latest_from, latest_move, later_of}

-- A weight of moves at a key: what they bring in, or what they take out.
abbrev pub Weight : Type 0
Weight = Key → MoveRow → ℤ

-- Moves of other keys weigh nothing.
abbrev pub IsLocal : Weight → Type 0
IsLocal w = (k : Key) (m : MoveRow) → k ≢ m.key → w k m ≡ pos 0

-- The weight of the moves up to a date, and of those before it.
abbrev pub sum_upto : (MoveRow → ℤ) → Time → List MoveRow → ℤ
sum_upto w at [] = pos 0
sum_upto w at (m ∷ ms) = (if leb m.effective_date at then w m else pos 0) +ℤ sum_upto w at ms

abbrev pub sum_before : (MoveRow → ℤ) → Time → List MoveRow → ℤ
sum_before w at [] = pos 0
sum_before w at (m ∷ ms) = (if ltb m.effective_date at then w m else pos 0) +ℤ sum_before w at ms

pub sum_upto-append :
    (w : MoveRow → ℤ) (at : Time) (xs ys : List MoveRow)
    → sum_upto w at (xs ++ ys) ≡ sum_upto w at xs +ℤ sum_upto w at ys
sum_upto-append w at [] ys = sym (zero-+ℤ (sum_upto w at ys))
sum_upto-append w at (x ∷ xs) ys = rw (sum_upto-append w at xs ys) (omega int_laws)

pub sum_before-append :
    (w : MoveRow → ℤ) (at : Time) (xs ys : List MoveRow)
    → sum_before w at (xs ++ ys) ≡ sum_before w at xs +ℤ sum_before w at ys
sum_before-append w at [] ys = sym (zero-+ℤ (sum_before w at ys))
sum_before-append w at (x ∷ xs) ys = rw (sum_before-append w at xs ys) (omega int_laws)

All-weaken :
    {P Q : MoveRow → Type 0} (ms : List MoveRow) → ((m : MoveRow) → P m → Q m) → All P ms → All Q ms
All-weaken [] h all = tt
All-weaken (m ∷ ms) h all = (h m all.0, All-weaken ms h all.1)

append_assoc : (xs ys zs : List MoveRow) → (xs ++ ys) ++ zs ≡ xs ++ (ys ++ zs)
append_assoc [] ys zs = refl
append_assoc (x ∷ xs) ys zs = ap (λ ms. x ∷ ms) (append_assoc xs ys zs)

append-nil : (xs : List MoveRow) → xs ++ [] ≡ xs
append-nil [] = refl
append-nil (x ∷ xs) = ap (λ ms. x ∷ ms) (append-nil xs)

later_of_newer :
    (b m : MoveRow) → leb b.effective_date m.effective_date ≡ true → later_of (some b) m ≡ m
later_of_newer b m newer = ap (λ c. if c then m else b) newer

later_of_older :
    (b m : MoveRow) → leb b.effective_date m.effective_date ≡ false → later_of (some b) m ≡ b
later_of_older b m older = ap (λ c. if c then m else b) older

-- The rounds of the search, one equation for each way that they go.
module _ (k : Key) (at : Time) (best : Option MoveRow) (m : MoveRow) (ms : List MoveRow) where
  latest_from_other : k ≢ m.key → latest_from k at best (m ∷ ms) ≡ latest_from k at best ms
  unfolding latest_from
  latest_from_other other = ap (λ o. latest_from k at o ms) (ground arith)

  latest_from_due :
      k ≡ m.key
      → leb m.effective_date at ≡ true
      → latest_from k at best (m ∷ ms) ≡ latest_from k at (some (later_of best m)) ms
  unfolding latest_from
  latest_from_due same due = ap (λ o. latest_from k at o ms) (ground arith)

  latest_from_late :
      k ≡ m.key
      → leb m.effective_date at ≡ false
      → latest_from k at best (m ∷ ms) ≡ latest_from k at best ms
  unfolding latest_from
  latest_from_late same late = ap (λ o. latest_from k at o ms) (ground arith)

module _ (w : Weight) (k : Key) (at : Time) (local : IsLocal w) where
  -- Every move of the key up to the date is dated at most b, or before b.
  abbrev pub AtMost : Time → MoveRow → Type 0
  AtMost b m = m.key ≡ k → m.effective_date ≤ at → m.effective_date ≤ b

  abbrev pub Before : Time → MoveRow → Type 0
  Before b m = m.key ≡ k → m.effective_date ≤ at → m.effective_date < b

  term-AtMost :
      (b : Time) (m : MoveRow)
      → b ≤ at
      → AtMost b m
      → (if leb m.effective_date at then w k m else pos 0)
        ≡ (if leb m.effective_date b then w k m else pos 0)
  term-AtMost b m le h = elim (Key-discrete k m.key) [
    | yes same ↦ ground (arith, h (sym same))
    | no other ↦ rw (local k m other) (ground arith)
  ]

  term-Before :
      (b : Time) (m : MoveRow)
      → b ≤ at
      → Before b m
      → (if leb m.effective_date at then w k m else pos 0)
        ≡ (if ltb m.effective_date b then w k m else pos 0)
  term-Before b m le h = elim (Key-discrete k m.key) [
    | yes same ↦ ground (arith, h (sym same))
    | no other ↦ rw (local k m other) (ground arith)
  ]

  pub sum_upto-AtMost :
      (b : Time) (ms : List MoveRow)
      → b ≤ at
      → All (AtMost b) ms
      → sum_upto (w k) at ms ≡ sum_upto (w k) b ms
  sum_upto-AtMost b [] le h = refl
  sum_upto-AtMost b (m ∷ ms) le h = rw (term-AtMost b m le h.0, sum_upto-AtMost b ms le h.1) refl

  pub sum_upto-Before :
      (b : Time) (ms : List MoveRow)
      → b ≤ at
      → All (Before b) ms
      → sum_upto (w k) at ms ≡ sum_before (w k) b ms
  sum_upto-Before b [] le h = refl
  sum_upto-Before b (m ∷ ms) le h = rw (term-Before b m le h.0, sum_upto-Before b ms le h.1) refl

  -- The best move so far, and where it stands among those that were gone over.
  pub data Best : Option MoveRow → List MoveRow → Type 0 where
    none_yet :
        {gone : List MoveRow} → All (λ m. m.key ≡ k → at < m.effective_date) gone → Best none gone
    best_at :
        {b : MoveRow} (earlier later : List MoveRow) {gone : List MoveRow}
        → gone ≡ earlier ++ b ∷ later
        → b.key ≡ k
        → b.effective_date ≤ at
        → All (AtMost b.effective_date) earlier
        → All (Before b.effective_date) later
        → Best (some b) gone

  -- One more move that does not count leaves the best where it is.
  Best-passed :
      (best : Option MoveRow) (gone : List MoveRow) (m : MoveRow)
      → (m.key ≡ k → at < m.effective_date)
      → Best best gone
      → Best best (gone ++ m ∷ [])
  Best-passed none gone m late (none_yet all) =
      none_yet (All-append (λ m. m.key ≡ k → at < m.effective_date) gone (m ∷ []) all (late, tt))
  Best-passed (some b) gone m late (best_at earlier later split keyed due old new) =
      best_at earlier (later ++ m ∷ [])
        (ap (λ g. g ++ m ∷ []) split ∙ append_assoc earlier (b ∷ later) (m ∷ [])) keyed due old
        (All-append (Before b.effective_date) later (m ∷ []) new
          ((λ same le. absurd (omega (arith, late same))), tt))

  -- One more move of the key up to the date.
  Best-counted :
      (best : Option MoveRow) (gone : List MoveRow) (m : MoveRow)
      → m.key ≡ k
      → m.effective_date ≤ at
      → Best best gone
      → Best (some (later_of best m)) (gone ++ m ∷ [])
  Best-counted none gone m keyed due (none_yet all) =
      best_at gone [] refl keyed due
        (All-weaken gone (λ n late same le. absurd (omega (arith, late same))) all) tt
  Best-counted (some b) gone m keyed due (best_at earlier later split b_keyed b_due old new) =
      elim (Bool-cases (leb b.effective_date m.effective_date)) [
        | inl newer ↦
            subst (λ o. Best (some o) (gone ++ m ∷ [])) (sym (later_of_newer b m newer))
              (best_at gone [] refl keyed due
                (subst (All (AtMost m.effective_date)) (sym split) (
                  All-append (AtMost m.effective_date) earlier (b ∷ later)
                    (All-weaken earlier
                      (λ n h same le.
                        omega (arith, h same le, leb→le b.effective_date m.effective_date newer))
                      old)
                    (
                      (λ same le. leb→le b.effective_date m.effective_date newer),
                      All-weaken later
                          (λ n h same le.
                            omega
                              (arith, h same le, leb→le b.effective_date m.effective_date newer))
                          new,
                    )))
                tt)
        | inr older ↦
            subst (λ o. Best (some o) (gone ++ m ∷ [])) (sym (later_of_older b m older))
              (best_at earlier (later ++ m ∷ [])
                (ap (λ g. g ++ m ∷ []) split ∙ append_assoc earlier (b ∷ later) (m ∷ [])) b_keyed
                b_due old
                (All-append (Before b.effective_date) later (m ∷ []) new
                  ((λ same le. ground arith), tt)))
      ]

  Best-latest_from :
      (ms : List MoveRow) (best : Option MoveRow) (gone : List MoveRow)
      → Best best gone
      → Best (latest_from k at best ms) (gone ++ ms)
  Best-latest_from [] best gone h =
      unfold latest_from in subst (Best best) (sym (append-nil gone)) h
  Best-latest_from (m ∷ ms) best gone h = elim (Key-discrete k m.key) [
    | no other ↦
        subst (λ o. Best o (gone ++ m ∷ ms)) (sym (latest_from_other k at best m ms other))
          (subst (Best (latest_from k at best ms)) (append_assoc gone (m ∷ []) ms) (
            Best-latest_from ms best (gone ++ m ∷ [])
              (Best-passed best gone m (λ same. absurd (other (sym same))) h)))
    | yes same ↦ elim (Bool-cases (leb m.effective_date at)) [
      | inl due ↦
          subst (λ o. Best o (gone ++ m ∷ ms)) (sym (latest_from_due k at best m ms same due))
            (subst (Best (latest_from k at (some (later_of best m)) ms))
              (append_assoc gone (m ∷ []) ms)
              (Best-latest_from ms (some (later_of best m)) (gone ++ m ∷ [])
                (Best-counted best gone m (sym same) (leb→le m.effective_date at due) h)))
      | inr late ↦
          subst (λ o. Best o (gone ++ m ∷ ms)) (sym (latest_from_late k at best m ms same late))
            (subst (Best (latest_from k at best ms)) (append_assoc gone (m ∷ []) ms) (
              Best-latest_from ms best (gone ++ m ∷ [])
                (Best-passed best gone m (λ s. ground arith) h)))
    ]
  ]

  pub Best-latest_move : (ms : List MoveRow) → Best (latest_move k at ms) ms
  Best-latest_move ms = unfold latest_move in Best-latest_from ms none [] (none_yet tt)
