-- ===== src/Storage/Commit/Retry.antt =====
-- The retry loop of `CommitTransaction`.
use native.Mathlib.Nat.{add-zero}
use giro.Prelude.{
  ℕ, zero, suc, ◌+◌, ◌<◌, ◌≡◌, refl, sym, ap, ◌∙◌, subst, true, false, Result, ok, err, inl, inr,
  ◌⊎◌, arith, Bytes, err-ne-ok, Bool-cases,
}
use giro.Ledger.Posting.{Postings}
use giro.Storage.Schema.{Db, Transaction, Error, cancelled, giving_up}
use giro.Storage.Encoding.{Encoding}
use giro.Storage.Commit.{CommitOptions, Attempt, commit_once, attempt_from, retryable, max_attempts}

Result-cases {ℓ κ} :
    {E : Type κ} {A : Type ℓ} (r : Result E A) → ((a : A) × (r ≡ ok a)) ⊎ ((e : E) × (r ≡ err e))
Result-cases (ok a) = inl (a, refl)
Result-cases (err e) = inr (e, refl)

module _ (e : Encoding) (env : ℕ → Attempt) (p : Postings) (opts : CommitOptions)
    (ik_hash : Bytes) where
  -- Attempt n met a conflict that is worth retrying, and the backoff was not cancelled.
  abbrev pub Contended : ℕ → Type 0
  Contended n =
      (error : Error) × (commit_once e (env n) p opts ik_hash ≡ err error)
      × (retryable error ≡ true)
      × ((env n).is_cancelled ≡ false)

  -- Attempt n ended the loop: it committed, or it met an error that is not worth retrying.
  abbrev pub Settled : Result Error (Db × Transaction) → Type 0
  Settled (ok done) = Unit
  Settled (err error) = retryable error ≡ false

  step-Contended :
      (left attempt retries : ℕ)
      → Contended attempt
      → attempt_from e (suc left) attempt retries env p opts ik_hash
        ≡ attempt_from e left (suc attempt) (suc retries) env p opts ik_hash
  unfolding attempt_from
  step-Contended left attempt retries (error, failed, again, going_on) =
      rw (attempt_from, failed, again, going_on)

  step-Settled :
      (left attempt retries : ℕ) (r : Result Error (Db × Transaction))
      → commit_once e (env attempt) p opts ik_hash ≡ r
      → Settled r
      → attempt_from e (suc left) attempt retries env p opts ik_hash ≡ (retries, r)
  unfolding attempt_from
  step-Settled left attempt retries (ok done) h settled = rw (attempt_from, h)
  step-Settled left attempt retries (err error) h settled = rw (attempt_from, h, settled)

  step_cancelled :
      (left attempt retries : ℕ) (error : Error)
      → commit_once e (env attempt) p opts ik_hash ≡ err error
      → retryable error ≡ true
      → (env attempt).is_cancelled ≡ true
      → attempt_from e (suc left) attempt retries env p opts ik_hash ≡ (suc retries, err cancelled)
  unfolding attempt_from
  step_cancelled left attempt retries error h again stopped = rw (attempt_from, h, again, stopped)

  retry_from :
      (n left attempt retries : ℕ) (r : Result Error (Db × Transaction))
      → n < left
      → ((i : ℕ) → i < n → Contended (attempt + i))
      → commit_once e (env (attempt + n)) p opts ik_hash ≡ r
      → Settled r
      → attempt_from e left attempt retries env p opts ik_hash ≡ (retries + n, r)
  retry_from n zero attempt retries r lt busy h settled = absurd (omega arith)
  retry_from zero (suc left) attempt retries r lt busy h settled =
      rw (step-Settled left attempt retries r (rw add-zero at h) settled, add-zero)
  retry_from (suc n) (suc left) attempt retries r lt busy h settled =
      step-Contended left attempt retries (rw add-zero at (busy 0 (omega arith)))
      ∙ retry_from n left (suc attempt) (suc retries) r (omega arith)
          (λ i below. subst Contended (omega arith) (busy (suc i) (omega arith)))
          (subst (λ k. commit_once e (env k) p opts ik_hash ≡ r) (omega arith) h) settled
      ∙ ap (λ k. (k, r)) (omega arith)

  -- If every attempt before n meets a retryable error without cancellation, and attempt n, below
  -- the limit of ten, does not meet a retryable error, the retry loop ends with the result of
  -- attempt n after n restarts.
  pub retry_until-Settled :
      (n : ℕ) (r : Result Error (Db × Transaction))
      → n < max_attempts
      → ((i : ℕ) → i < n → Contended i)
      → commit_once e (env n) p opts ik_hash ≡ r
      → Settled r
      → attempt_from e max_attempts 0 0 env p opts ik_hash ≡ (n, r)
  retry_until-Settled n r lt busy h settled =
      retry_from n max_attempts 0 0 r lt (λ i below. subst Contended (omega arith) (busy i below))
        (subst (λ k. commit_once e (env k) p opts ik_hash ≡ r) (omega arith) h) settled
      ∙ ap (λ k. (k, r)) (omega arith)

  give_up_from :
      (left attempt retries : ℕ)
      → ((i : ℕ) → i < left → Contended (attempt + i))
      → attempt_from e left attempt retries env p opts ik_hash ≡ (retries + left, err giving_up)
  give_up_from zero attempt retries busy = unfold attempt_from in rw add-zero
  give_up_from (suc left) attempt retries busy =
      step-Contended left attempt retries (rw add-zero at (busy 0 (omega arith)))
      ∙ give_up_from left (suc attempt) (suc retries)
          (λ i below. subst Contended (omega arith) (busy (suc i) (omega arith)))
      ∙ ap (λ k. (k, err giving_up)) (omega arith)

  -- If all ten attempts meet retryable errors without cancellation, the loop ends with the giving-
  -- up error after ten restarts.
  pub give_up_after_max_attempts :
      ((i : ℕ) → i < max_attempts → Contended i)
      → attempt_from e max_attempts 0 0 env p opts ik_hash ≡ (max_attempts, err giving_up)
  give_up_after_max_attempts busy =
      give_up_from max_attempts 0 0 (λ i below. subst Contended (omega arith) (busy i below))

  -- Whatever the attempts meet, a success of the loop is the success of one of those it was
  -- allowed.
  pub attempt_from-eq-ok :
      (left attempt retries : ℕ) (done : Db × Transaction) (n : ℕ)
      → attempt_from e left attempt retries env p opts ik_hash ≡ (n, ok done)
      → (i : ℕ) × (i < attempt + left) × (commit_once e (env i) p opts ik_hash ≡ ok done)
  attempt_from-eq-ok zero attempt retries done n h =
      unfold attempt_from in absurd (err-ne-ok (ap (λ z. z.1) h))
  attempt_from-eq-ok (suc left) attempt retries done n h =
      elim (Result-cases (commit_once e (env attempt) p opts ik_hash)) [
        | inl (d, found) ↦ (
          attempt,
          omega arith,
          found
              ∙ ap (λ z. z.1) (sym (step-Settled left attempt retries (ok d) found tt))
              ∙ ap (λ z. z.1) h,
        )
        | inr (error, found) ↦ elim (Bool-cases (retryable error)) [
          | inr final ↦ absurd (
              err-ne-ok (
                ap (λ z. z.1)
                  (sym (step-Settled left attempt retries (err error) found final) ∙ h)))
          | inl again ↦ elim (Bool-cases (env attempt).is_cancelled) [
            | inl stopped ↦ absurd (
                err-ne-ok (
                  ap (λ z. z.1)
                    (sym (step_cancelled left attempt retries error found again stopped) ∙ h)))
            | inr going_on ↦
                let (i, below, committed) =
                  attempt_from-eq-ok left (suc attempt) (suc retries) done n (
                    sym (step-Contended left attempt retries (error, found, again, going_on))
                    ∙ h) in
                (i, omega arith, committed)
          ]
        ]
      ]
