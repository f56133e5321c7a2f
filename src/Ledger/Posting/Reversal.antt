-- ===== src/Ledger/Posting/Reversal.antt =====
-- What `Postings.Reverse` does to the flows, and that it undoes itself.
use mathlib.Core.List.{reverse, reverse-reverse, reverse_aux}
use giro.Prelude.{
  ◌≡◌, refl, sym, ap, ◌∙◌, some, [], ◌∷◌, arith, ok, ok-injective, ℤ, suc, ℕ, ◌+ℤ◌, int_laws,
  +ℤ-zero, false, All, map,
}
use giro.Ledger.Posting.{Posting, Postings, swap_sides, reverse_from, reverse_postings}
use giro.Ledger.Volumes.{Key}
use giro.Ledger.Volumes.Totals.{flow, inflow, outflow}

-- A posting as the log holds it: the amount is known and no ceiling is left.
abbrev pub IsResolved : Posting → Type 0
IsResolved posting = ((amount : ℤ) × (posting.amount ≡ some amount)) × (posting.up_to ≡ false)

-- both sides swapped, the amount as it stands
abbrev mirror : Posting → Posting
mirror posting = record {
  source = posting.destination;
  destination = posting.source;
  asset = posting.asset;
  amount = posting.amount;
  up_to = false;
}

mirror-mirror : (posting : Posting) → IsResolved posting → mirror (mirror posting) ≡ posting
mirror-mirror posting h = ground arith

reverse_from-eq :
    (i : ℕ) (p rev : Postings)
    → All IsResolved p
    → reverse_from i p rev ≡ ok (reverse_aux (map mirror p) rev)
unfolding reverse_from
reverse_from-eq i [] rev h = refl
reverse_from-eq i (posting ∷ p) rev (((amount, e), f), h) =
    rw (e, reverse_from) (reverse_from-eq (suc i) p (swap_sides posting amount ∷ rev) h)

reverse_postings-eq :
    (p : Postings) → All IsResolved p → reverse_postings p ≡ ok (reverse (map mirror p))
unfolding reverse_postings
reverse_postings-eq p h = reverse_from-eq 0 p [] h

All-reverse_aux :
    (p rev : Postings)
    → All IsResolved p
    → All IsResolved rev
    → All IsResolved (reverse_aux (map mirror p) rev)
All-reverse_aux [] rev h k = k
All-reverse_aux (posting ∷ p) rev (r, h) k =
    All-reverse_aux p (mirror posting ∷ rev) h ((r.0, refl), k)

map-reverse_aux :
    (f : Posting → Posting) (p rev : Postings)
    → map f (reverse_aux p rev) ≡ reverse_aux (map f p) (map f rev)
map-reverse_aux f [] rev = refl
map-reverse_aux f (posting ∷ p) rev = map-reverse_aux f p (posting ∷ rev)

map-mirror-mirror : (p : Postings) → All IsResolved p → map mirror (map mirror p) ≡ p
map-mirror-mirror [] h = refl
map-mirror-mirror (posting ∷ p) (r, h) = rw (map-mirror-mirror p h, mirror-mirror posting r)

-- Reversing a list of postings with amounts and without ceilings succeeds, and reversing the
-- result gives the list back.
pub reverse-reverse_postings :
    (p : Postings)
    → All IsResolved p
    → (q : Postings) × (reverse_postings p ≡ ok q) × (reverse_postings q ≡ ok p)
reverse-reverse_postings p h = (
  reverse (map mirror p),
  reverse_postings-eq p h,
  reverse_postings-eq (reverse (map mirror p)) (All-reverse_aux p [] h tt)
      ∙ ap ok (
          ap reverse (map-reverse_aux mirror (map mirror p) [])
          ∙ reverse-reverse (map mirror (map mirror p))
          ∙ map-mirror-mirror p h),
)

flow-reverse_aux :
    (g : Posting → ℤ → ℤ) (p rev : Postings) → flow g (reverse_aux p rev) ≡ flow g p +ℤ flow g rev
flow-reverse_aux g [] rev = omega int_laws
flow-reverse_aux g (posting ∷ p) rev = rw (flow-reverse_aux g p (posting ∷ rev)) (omega int_laws)

module _ (k : Key) where
  flow-mirror :
      (p : Postings)
      → All IsResolved p
      → (flow (inflow k) (map mirror p) ≡ flow (outflow k) p)
        × (flow (outflow k) (map mirror p) ≡ flow (inflow k) p)
  flow-mirror [] h = (refl, refl)
  flow-mirror (posting ∷ p) (((amount, e), f), h) =
      let (into, out) = flow-mirror p h in (rw (into, e), rw (out, e))

  -- At every account and asset, the reversal of postings with amounts and without ceilings brings
  -- in what they took out, and takes out what they brought in.
  pub flow-reverse_postings :
      (p : Postings) {q : Postings}
      → All IsResolved p
      → reverse_postings p ≡ ok q
      → (flow (inflow k) q ≡ flow (outflow k) p) × (flow (outflow k) q ≡ flow (inflow k) p)
  flow-reverse_postings p h e =
      let (into, out) = flow-mirror p h in
      let same = ok-injective (sym e ∙ reverse_postings-eq p h) in
      (
        rw (same, flow-reverse_aux) (+ℤ-zero _ ∙ into),
        rw (same, flow-reverse_aux) (+ℤ-zero _ ∙ out),
      )
