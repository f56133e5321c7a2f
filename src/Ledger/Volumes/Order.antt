-- ===== src/Ledger/Volumes/Order.antt =====
-- The order of `VolumeUpdates`, which is the lock order of a commit.
use giro.Prelude.{
  ◌≡◌, refl, sym, ap, ◌≢◌, Ordering, ◌⊎◌, inl, inr, List, [], ◌∷◌, arith, ok, All, compare_bytes-eq,
  compare_bytes_refl, compare_bytes_trans, compare_bytes_flip, ℤ, suc, ℕ, ok-injective,
  Option-cases, >>=-eq-ok, subst,
}
use giro.Ledger.Posting.{Posting, Postings}
use giro.Ledger.Volumes.{
  Key, Key-discrete, VolumeUpdate, zero_update, update_at, add_input, add_output, source_key,
  destination_key, counted, count_posting, count_from, compare_key, insert_update, sort_updates,
  volume_updates,
}

-- Each key stands strictly before the keys after it, by account and then by asset.
abbrev pub IsSorted : List VolumeUpdate → Type 0
IsSorted [] = Unit
IsSorted (u ∷ us) = All (λ v. compare_key u.key v.key ≡ Ordering.lt) us × IsSorted us

-- No key has two entries.
abbrev pub IsDistinct : List VolumeUpdate → Type 0
IsDistinct [] = Unit
IsDistinct (u ∷ us) = All (λ v. v.key ≢ u.key) us × IsDistinct us

pub Ordering-cases : (o : Ordering) → (o ≡ Ordering.lt) ⊎ (o ≡ Ordering.eq) ⊎ (o ≡ Ordering.gt)
Ordering-cases Ordering.lt = inl refl
Ordering-cases Ordering.eq = inr (inl refl)
Ordering-cases Ordering.gt = inr (inr refl)

pub compare_key-eq : (a b : Key) → compare_key a b ≡ Ordering.eq → a ≡ b
unfolding compare_key
compare_key-eq a b h =
    ground (arith, compare_bytes-eq a.account b.account, compare_bytes-eq a.asset b.asset)

pub compare_key_refl : (a : Key) → compare_key a a ≡ Ordering.eq
unfolding compare_key
compare_key_refl a = rw (compare_bytes_refl, compare_bytes_refl)

pub compare_key_trans :
    (a b c : Key)
    → compare_key a b ≡ Ordering.lt
    → compare_key b c ≡ Ordering.lt
    → compare_key a c ≡ Ordering.lt
unfolding compare_key
compare_key_trans a b c h k = ground (
  arith,
  compare_bytes_trans a.account b.account c.account,
  compare_bytes_trans a.asset b.asset c.asset,
  compare_bytes-eq a.account b.account,
  compare_bytes-eq b.account c.account,
  compare_bytes_refl a.account,
)

pub compare_key_flip : (a b : Key) → compare_key a b ≡ Ordering.gt → compare_key b a ≡ Ordering.lt
unfolding compare_key
compare_key_flip a b h = ground (
  arith,
  compare_bytes_flip a.account b.account,
  compare_bytes_flip a.asset b.asset,
  compare_bytes-eq a.account b.account,
  compare_bytes_refl a.account,
)

-- The rounds of the insertion and of the lookup, one equation for each way they go.
module _ (u v : VolumeUpdate) (vs : List VolumeUpdate) where
  pub insert_update_gt :
      compare_key u.key v.key ≡ Ordering.gt → insert_update u (v ∷ vs) ≡ v ∷ insert_update u vs
  unfolding insert_update
  insert_update_gt h = ground arith

  pub insert_update_ne :
      compare_key u.key v.key ≢ Ordering.gt → insert_update u (v ∷ vs) ≡ u ∷ v ∷ vs
  unfolding insert_update
  insert_update_ne h = ground arith

module _ (k : Key) (f : VolumeUpdate → VolumeUpdate) (u : VolumeUpdate)
    (us : List VolumeUpdate) where
  pub update_at_hit : k ≡ u.key → update_at k f (u ∷ us) ≡ f u ∷ us
  unfolding update_at
  update_at_hit h = ground arith

  pub update_at_miss : k ≢ u.key → update_at k f (u ∷ us) ≡ u ∷ update_at k f us
  unfolding update_at
  update_at_miss h = ground arith

module _ (P : VolumeUpdate → Type 0) where
  pub All-insert_update :
      (u : VolumeUpdate) (vs : List VolumeUpdate) → P u → All P vs → All P (insert_update u vs)
  All-insert_update u [] p h = unfold insert_update in (p, tt)
  All-insert_update u (v ∷ vs) p h = elim (Ordering-cases (compare_key u.key v.key)) [
    | inl e ↦ rw (insert_update_ne u v vs (ground arith)) (p, h)
    | inr (inl e) ↦ rw (insert_update_ne u v vs (ground arith)) (p, h)
    | inr (inr e) ↦ rw (insert_update_gt u v vs e) (h.0, All-insert_update u vs p h.1)
  ]

  pub All-sort_updates : (us : List VolumeUpdate) → All P us → All P (sort_updates us)
  unfolding sort_updates
  All-sort_updates [] h = tt
  All-sort_updates (u ∷ us) h = All-insert_update u (sort_updates us) h.0 (All-sort_updates us h.1)

All-lt_trans :
    (a b : Key) (vs : List VolumeUpdate)
    → compare_key a b ≡ Ordering.lt
    → All (λ v. compare_key b v.key ≡ Ordering.lt) vs
    → All (λ v. compare_key a v.key ≡ Ordering.lt) vs
All-lt_trans a b [] h k = tt
All-lt_trans a b (v ∷ vs) h k = (compare_key_trans a b v.key h k.0, All-lt_trans a b vs h k.1)

insert_update-IsSorted :
    (u : VolumeUpdate) (vs : List VolumeUpdate)
    → All (λ v. v.key ≢ u.key) vs
    → IsSorted vs
    → IsSorted (insert_update u vs)
insert_update-IsSorted u [] ne h = unfold insert_update in (tt, tt)
insert_update-IsSorted u (v ∷ vs) ne h = elim (Ordering-cases (compare_key u.key v.key)) [
  | inl e ↦ rw (insert_update_ne u v vs (ground arith)) ((e, All-lt_trans u.key v.key vs e h.0), h)
  | inr (inl e) ↦ absurd (ne.0 (sym (compare_key-eq u.key v.key e)))
  | inr (inr e) ↦ rw (insert_update_gt u v vs e) (
    All-insert_update (λ x. compare_key v.key x.key ≡ Ordering.lt) u vs
        (compare_key_flip u.key v.key e) h.0,
    insert_update-IsSorted u vs ne.1 h.1,
  )
]

sort_updates-IsSorted : (us : List VolumeUpdate) → IsDistinct us → IsSorted (sort_updates us)
unfolding sort_updates
sort_updates-IsSorted [] h = tt
sort_updates-IsSorted (u ∷ us) h =
    insert_update-IsSorted u (sort_updates us) (All-sort_updates (λ v. v.key ≢ u.key) us h.0)
      (sort_updates-IsSorted us h.1)

module _ (f : VolumeUpdate → VolumeUpdate) (same : (u : VolumeUpdate) → (f u).key ≡ u.key) where
  All-update_at :
      (P : Key → Type 0) (k : Key) (us : List VolumeUpdate)
      → P k
      → All (λ v. P v.key) us
      → All (λ v. P v.key) (update_at k f us)
  All-update_at P k [] p h = unfold update_at in (subst P (sym (same (zero_update k))) p, tt)
  All-update_at P k (u ∷ us) p h = elim (Key-discrete k u.key) [
    | yes e ↦ rw (update_at_hit k f u us e) (subst P (sym (same u)) h.0, h.1)
    | no e ↦ rw (update_at_miss k f u us e) (h.0, All-update_at P k us p h.1)
  ]

  update_at-IsDistinct :
      (k : Key) (us : List VolumeUpdate) → IsDistinct us → IsDistinct (update_at k f us)
  update_at-IsDistinct k [] h = unfold update_at in (tt, tt)
  update_at-IsDistinct k (u ∷ us) h = elim (Key-discrete k u.key) [
    | yes e ↦ rw (update_at_hit k f u us e, same) h
    | no e ↦
        rw (update_at_miss k f u us e)
          (All-update_at (λ j. j ≢ u.key) k us e h.0, update_at-IsDistinct k us h.1)
  ]

count_posting-IsDistinct :
    (posting : Posting) (amount : ℤ) (us : List VolumeUpdate)
    → IsDistinct us
    → IsDistinct (count_posting posting amount us)
unfolding count_posting
count_posting-IsDistinct posting amount us h =
    update_at-IsDistinct (add_input amount) (λ u. refl) (destination_key posting) _
      (update_at-IsDistinct (add_output amount) (λ u. refl) (source_key posting) us h)

count_from-IsDistinct :
    (i : ℕ) (p : Postings) (us vs : List VolumeUpdate)
    → IsDistinct us
    → count_from i p us ≡ ok vs
    → IsDistinct vs
unfolding count_from
count_from-IsDistinct i [] us vs h e = subst IsDistinct (ok-injective e) h
count_from-IsDistinct i (posting ∷ p) us vs h e =
    elim (Option-cases (counted posting.amount posting.up_to)) [
      | inl none_here ↦ ground arith
      | inr (amount, found) ↦
          count_from-IsDistinct (suc i) p (count_posting posting amount us) vs
            (count_posting-IsDistinct posting amount us h) (ground arith)
    ]

-- The deltas of VolumeUpdates stand in strictly increasing order of account and asset: the lock
-- order, with each pair once.
pub volume_updates-IsSorted :
    (p : Postings) {us : List VolumeUpdate} → volume_updates p ≡ ok us → IsSorted us
unfolding volume_updates
volume_updates-IsSorted p {us} e =
    let (index, counted_index, sorted) = >>=-eq-ok (count_from 0 p []) _ e in
    subst IsSorted (ok-injective sorted)
      (sort_updates-IsSorted index (count_from-IsDistinct 0 p [] index tt counted_index))

All-lt-ne :
    (k : Key) (vs : List VolumeUpdate)
    → All (λ v. compare_key k v.key ≡ Ordering.lt) vs
    → All (λ v. v.key ≢ k) vs
All-lt-ne k [] h = tt
All-lt-ne k (v ∷ vs) h =
    (λ e. cc (h.0, ap (compare_key k) e, compare_key_refl k), All-lt-ne k vs h.1)

pub IsSorted-IsDistinct : (us : List VolumeUpdate) → IsSorted us → IsDistinct us
IsSorted-IsDistinct [] h = tt
IsSorted-IsDistinct (u ∷ us) h = (All-lt-ne u.key us h.0, IsSorted-IsDistinct us h.1)
