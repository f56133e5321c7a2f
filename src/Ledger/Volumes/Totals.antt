-- ===== src/Ledger/Volumes/Totals.antt =====
-- What the deltas of `VolumeUpdates` add up to, against a plain sum over the postings.
use giro.Prelude.{
  ◌≡◌, refl, sym, ap, ◌∙◌, ite, inl, inr, Option, none, some, List, [], ◌∷◌, arith, ok,
  ok-injective, Option-cases, >>=-eq-ok, ℤ, pos, suc, ℕ, ◌+ℤ◌, int_laws, +ℤ_assoc, +ℤ-zero, zero-+ℤ,
  Bytes-discrete,
}
use giro.Ledger.Asset.{Asset}
use giro.Ledger.Posting.{Posting, Postings}
use giro.Ledger.Volumes.{
  Key, Key-discrete, VolumeUpdate, zero_update, update_at, add_input, add_output, source_key,
  destination_key, counted, count_posting, count_from, compare_key, insert_update, sort_updates,
  volume_updates,
}
use giro.Ledger.Volumes.Order.{
  Ordering-cases, insert_update_gt, insert_update_ne, update_at_hit, update_at_miss,
}

-- The sum of a weight over the entries.
abbrev pub total : (VolumeUpdate → ℤ) → List VolumeUpdate → ℤ
total w [] = pos 0
total w (u ∷ us) = w u +ℤ total w us

abbrev pub amount_or_zero : Option ℤ → ℤ
amount_or_zero none = pos 0
amount_or_zero (some amount) = amount

-- the amount that a posting counts for
abbrev pub amount_of : Posting → ℤ
amount_of posting = amount_or_zero (counted posting.amount posting.up_to)

-- The sum over the postings of what each contributes.
abbrev pub flow : (Posting → ℤ → ℤ) → Postings → ℤ
flow g [] = pos 0
flow g (posting ∷ p) = g posting (amount_of posting) +ℤ flow g p

-- What a posting brings into a key, and what it takes out of it.
abbrev pub inflow : Key → Posting → ℤ → ℤ
inflow k posting amount = ite (Key-discrete k (destination_key posting)) amount (pos 0)

abbrev pub outflow : Key → Posting → ℤ → ℤ
outflow k posting amount = ite (Key-discrete k (source_key posting)) amount (pos 0)

-- The entries' counters at one key, and those of one asset over all accounts.
abbrev pub key_input : Key → VolumeUpdate → ℤ
key_input k u = ite (Key-discrete k u.key) u.input (pos 0)

abbrev pub key_output : Key → VolumeUpdate → ℤ
key_output k u = ite (Key-discrete k u.key) u.output (pos 0)

abbrev pub asset_input : Asset → VolumeUpdate → ℤ
asset_input a u = ite (Bytes-discrete a u.key.asset) u.input (pos 0)

abbrev pub asset_output : Asset → VolumeUpdate → ℤ
asset_output a u = ite (Bytes-discrete a u.key.asset) u.output (pos 0)

-- The amount of a posting, if it is of this asset.
abbrev pub asset_flow : Asset → Posting → ℤ → ℤ
asset_flow a posting amount = ite (Bytes-discrete a posting.asset) amount (pos 0)

module _ (w : VolumeUpdate → ℤ) where
  total-insert_update :
      (u : VolumeUpdate) (vs : List VolumeUpdate) → total w (insert_update u vs) ≡ w u +ℤ total w vs
  total-insert_update u [] = unfold insert_update in refl
  total-insert_update u (v ∷ vs) = elim (Ordering-cases (compare_key u.key v.key)) [
    | inl e ↦ rw (insert_update_ne u v vs (ground arith))
    | inr (inl e) ↦ rw (insert_update_ne u v vs (ground arith))
    | inr (inr e) ↦ rw (insert_update_gt u v vs e, total-insert_update u vs) (omega int_laws)
  ]

  pub total-sort_updates : (us : List VolumeUpdate) → total w (sort_updates us) ≡ total w us
  unfolding sort_updates
  total-sort_updates [] = refl
  total-sort_updates (u ∷ us) =
      total-insert_update u (sort_updates us) ∙ ap (λ t. w u +ℤ t) (total-sort_updates us)

  total-update_at :
      (k : Key) (f : VolumeUpdate → VolumeUpdate) (d : ℤ)
      → ((u : VolumeUpdate) → k ≡ u.key → w (f u) ≡ w u +ℤ d)
      → w (zero_update k) ≡ pos 0
      → (us : List VolumeUpdate) → total w (update_at k f us) ≡ total w us +ℤ d
  total-update_at k f d step zero [] =
      unfold update_at in rw (step (zero_update k) refl, zero) (omega int_laws)
  total-update_at k f d step zero (u ∷ us) = elim (Key-discrete k u.key) [
    | yes e ↦ rw (update_at_hit k f u us e, step u e) (omega int_laws)
    | no e ↦ rw (update_at_miss k f u us e, total-update_at k f d step zero us) (omega int_laws)
  ]

  pub total-count_from :
      (g : Posting → ℤ → ℤ)
      → ((posting : Posting) (amount : ℤ) (us : List VolumeUpdate)
          → total w (count_posting posting amount us) ≡ total w us +ℤ g posting amount)
      → (i : ℕ) (p : Postings) (us vs : List VolumeUpdate) → count_from i p us ≡ ok vs
      → total w vs ≡ total w us +ℤ flow g p
  unfolding count_from
  total-count_from g step i [] us vs e = rw (ok-injective e) (omega int_laws)
  total-count_from g step i (posting ∷ p) us vs e =
      elim (Option-cases (counted posting.amount posting.up_to)) [
        | inl missing ↦ ground arith
        | inr (amount, found) ↦
            rw
              (
                total-count_from g step (suc i) p (count_posting posting amount us) vs
                    (rw (count_from, found) at e),
                step posting amount us,
                found,
              )
              (omega int_laws)
      ]

  -- A weight's total over `VolumeUpdates` is the flow over the postings.
  pub total-volume_updates :
      (g : Posting → ℤ → ℤ)
      → ((posting : Posting) (amount : ℤ) (us : List VolumeUpdate)
          → total w (count_posting posting amount us) ≡ total w us +ℤ g posting amount)
      → (p : Postings) {us : List VolumeUpdate} → volume_updates p ≡ ok us
      → total w us ≡ flow g p
  unfolding volume_updates
  total-volume_updates g step p {us} e =
      let (index, counted_index, sorted) = >>=-eq-ok (count_from 0 p []) _ e in
      rw (← ok-injective sorted, total-sort_updates)
        (total-count_from g step 0 p [] index counted_index ∙ zero-+ℤ (flow g p))

  -- One round, from what its two writes do to the weight.
  total-count_posting :
      (posting : Posting) (amount out into : ℤ)
      → ((u : VolumeUpdate) → source_key posting ≡ u.key → w (add_output amount u) ≡ w u +ℤ out)
      → ((u : VolumeUpdate)
          → destination_key posting ≡ u.key
          → w (add_input amount u) ≡ w u +ℤ into)
      → ((k : Key) → w (zero_update k) ≡ pos 0)
      → (us : List VolumeUpdate)
      → total w (count_posting posting amount us) ≡ total w us +ℤ (out +ℤ into)
  unfolding count_posting
  total-count_posting posting amount out into source destination zero us =
      rw
        (
          total-update_at (destination_key posting) (add_input amount) into destination (zero _),
          total-update_at (source_key posting) (add_output amount) out source (zero _),
        )
        (+ℤ_assoc _ _ _)

module _ (k : Key) where
  pub step-key_input :
      (posting : Posting) (amount : ℤ) (us : List VolumeUpdate)
      → total (key_input k) (count_posting posting amount us)
        ≡ total (key_input k) us +ℤ inflow k posting amount
  step-key_input posting amount us =
      total-count_posting (key_input k) posting amount (pos 0) (inflow k posting amount)
        (λ u e. sym (+ℤ-zero _)) (λ u e. ground (arith, +ℤ-zero (pos 0))) (λ j. ground arith) us
      ∙ ap (λ t. total (key_input k) us +ℤ t) (zero-+ℤ _)

  pub step-key_output :
      (posting : Posting) (amount : ℤ) (us : List VolumeUpdate)
      → total (key_output k) (count_posting posting amount us)
        ≡ total (key_output k) us +ℤ outflow k posting amount
  step-key_output posting amount us =
      total-count_posting (key_output k) posting amount (outflow k posting amount) (pos 0)
        (λ u e. ground (arith, +ℤ-zero (pos 0))) (λ u e. sym (+ℤ-zero _)) (λ j. ground arith) us
      ∙ ap (λ t. total (key_output k) us +ℤ t) (+ℤ-zero _)

  -- At every account and asset, the deltas of VolumeUpdates are what the postings bring in and
  -- what they take out.
  pub volume_updates-eq-flow :
      (p : Postings) {us : List VolumeUpdate}
      → volume_updates p ≡ ok us
      → (total (key_input k) us ≡ flow (inflow k) p)
        × (total (key_output k) us ≡ flow (outflow k) p)
  volume_updates-eq-flow p e = (
    total-volume_updates (key_input k) (inflow k) step-key_input p e,
    total-volume_updates (key_output k) (outflow k) step-key_output p e,
  )

module _ (a : Asset) where
  step-asset_input :
      (posting : Posting) (amount : ℤ) (us : List VolumeUpdate)
      → total (asset_input a) (count_posting posting amount us)
        ≡ total (asset_input a) us +ℤ asset_flow a posting amount
  step-asset_input posting amount us =
      total-count_posting (asset_input a) posting amount (pos 0) (asset_flow a posting amount)
        (λ u e. sym (+ℤ-zero _)) (λ u e. ground (arith, +ℤ-zero (pos 0))) (λ j. ground arith) us
      ∙ ap (λ t. total (asset_input a) us +ℤ t) (zero-+ℤ _)

  step-asset_output :
      (posting : Posting) (amount : ℤ) (us : List VolumeUpdate)
      → total (asset_output a) (count_posting posting amount us)
        ≡ total (asset_output a) us +ℤ asset_flow a posting amount
  step-asset_output posting amount us =
      total-count_posting (asset_output a) posting amount (asset_flow a posting amount) (pos 0)
        (λ u e. ground (arith, +ℤ-zero (pos 0))) (λ u e. sym (+ℤ-zero _)) (λ j. ground arith) us
      ∙ ap (λ t. total (asset_output a) us +ℤ t) (+ℤ-zero _)

-- In every asset the deltas of VolumeUpdates have the same total input and total output.
pub volume_updates-conserve :
    (a : Asset) (p : Postings) {us : List VolumeUpdate}
    → volume_updates p ≡ ok us
    → total (asset_input a) us ≡ total (asset_output a) us
volume_updates-conserve a p e =
    total-volume_updates (asset_input a) (asset_flow a) (step-asset_input a) p e
    ∙ sym (total-volume_updates (asset_output a) (asset_flow a) (step-asset_output a) p e)
