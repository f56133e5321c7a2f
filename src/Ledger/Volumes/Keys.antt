-- ===== src/Ledger/Volumes/Keys.antt =====
-- Which keys the deltas of a list of postings name: those of its sources and its destinations.
use giro.Prelude.{
  ℕ, suc, ◌≡◌, refl, sym, ap, ◌∙◌, Bool, true, false, ◌||◌, List, [], ◌∷◌, ite, ok, inl, inr, arith,
  ok-injective, >>=-eq-ok, Option-cases, All, any, ℤ,
}
use giro.Ledger.Posting.{Posting, Postings}
use giro.Ledger.Volumes.{
  Key, Key-discrete, VolumeUpdate, update_at, add_input, add_output, source_key, destination_key,
  counted, count_posting, count_from, compare_key, insert_update, sort_updates, volume_updates,
}
use giro.Ledger.Volumes.Order.{
  Ordering-cases, insert_update_gt, insert_update_ne, update_at_hit, update_at_miss,
}

abbrev pub same_key : Key → Key → Bool
same_key k j = ite (Key-discrete k j) true false

abbrev pub has_key : Key → List VolumeUpdate → Bool
has_key k us = any (λ u. same_key k u.key) us

-- A posting moves something out of or into the key.
abbrev pub names_key : Key → Posting → Bool
names_key k posting = same_key k (source_key posting) || same_key k (destination_key posting)

module _ (k : Key) where
  has_key-insert_update :
      (u : VolumeUpdate) (vs : List VolumeUpdate)
      → has_key k (insert_update u vs) ≡ (same_key k u.key || has_key k vs)
  has_key-insert_update u [] = unfold insert_update in refl
  has_key-insert_update u (v ∷ vs) = elim (Ordering-cases (compare_key u.key v.key)) [
    | inl e ↦ rw (insert_update_ne u v vs (ground arith))
    | inr (inl e) ↦ rw (insert_update_ne u v vs (ground arith))
    | inr (inr e) ↦ rw (insert_update_gt u v vs e, has_key-insert_update u vs) (ground arith)
  ]

  has_key-sort_updates : (us : List VolumeUpdate) → has_key k (sort_updates us) ≡ has_key k us
  unfolding sort_updates
  has_key-sort_updates [] = refl
  has_key-sort_updates (u ∷ us) =
      has_key-insert_update u (sort_updates us)
      ∙ ap (λ b. same_key k u.key || b) (has_key-sort_updates us)

  has_key-update_at :
      (j : Key) (f : VolumeUpdate → VolumeUpdate)
      → ((u : VolumeUpdate) → (f u).key ≡ u.key)
      → (us : List VolumeUpdate) → has_key k (update_at j f us) ≡ (same_key k j || has_key k us)
  has_key-update_at j f same [] = unfold update_at in rw same
  has_key-update_at j f same (u ∷ us) = elim (Key-discrete j u.key) [
    | yes e ↦ rw (update_at_hit j f u us e, same, e) (ground arith)
    | no e ↦ rw (update_at_miss j f u us e, has_key-update_at j f same us) (ground arith)
  ]

  has_key-count_posting :
      (posting : Posting) (amount : ℤ) (us : List VolumeUpdate)
      → has_key k (count_posting posting amount us) ≡ (names_key k posting || has_key k us)
  unfolding count_posting
  has_key-count_posting posting amount us =
      rw
        (
          has_key-update_at (destination_key posting) (add_input amount) (λ u. refl),
          has_key-update_at (source_key posting) (add_output amount) (λ u. refl),
        )
        (ground arith)

  has_key-count_from :
      (i : ℕ) (p : Postings) (us vs : List VolumeUpdate)
      → count_from i p us ≡ ok vs
      → has_key k vs ≡ (any (names_key k) p || has_key k us)
  unfolding count_from
  has_key-count_from i [] us vs e = ap (has_key k) (sym (ok-injective e))
  has_key-count_from i (posting ∷ p) us vs e =
      elim (Option-cases (counted posting.amount posting.up_to)) [
        | inl missing ↦ ground arith
        | inr (amount, found) ↦
            rw
              (
                has_key-count_from (suc i) p (count_posting posting amount us) vs
                    (rw (count_from, found) at e),
                has_key-count_posting posting amount us,
              )
              (ground arith)
      ]

  or_false : (b : Bool) → (b || false) ≡ b
  or_false b = ground arith

  -- A key is among the updates exactly when some posting moves something out of it or into it.
  pub has_key-volume_updates :
      (p : Postings) {us : List VolumeUpdate}
      → volume_updates p ≡ ok us
      → has_key k us ≡ any (names_key k) p
  unfolding volume_updates
  has_key-volume_updates p {us} e =
      let (index, counted_index, sorted) = >>=-eq-ok (count_from 0 p []) _ e in
      ap (has_key k) (sym (ok-injective sorted))
      ∙ has_key-sort_updates index
      ∙ has_key-count_from 0 p [] index counted_index
      ∙ or_false _

All-has_key_cons :
    (u : VolumeUpdate) (us vs : List VolumeUpdate)
    → All (λ v. has_key v.key us ≡ true) vs
    → All (λ v. has_key v.key (u ∷ us) ≡ true) vs
All-has_key_cons u us [] h = tt
All-has_key_cons u us (v ∷ vs) h = (ground arith, All-has_key_cons u us vs h.1)

pub All-has_key : (us : List VolumeUpdate) → All (λ u. has_key u.key us ≡ true) us
All-has_key [] = tt
All-has_key (u ∷ us) = (ground arith, All-has_key_cons u us us (All-has_key us))
