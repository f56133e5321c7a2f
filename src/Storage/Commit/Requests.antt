-- ===== src/Storage/Commit/Requests.antt =====
-- What a request to `CommitTransaction` that succeeds has gone through.
use giro.Prelude.{
  ℕ, ◌<◌, ◌≡◌, ◌≢◌, ap, subst, Option, none, some, [], ◌∷◌, ok, inl, inr, arith, All, Option-cases,
  err-ne-ok,
}
use giro.Ledger.Posting.{Postings, validate}
use giro.Ledger.Posting.Validation.{PostingIsValid, Verdict, validate-Verdict}
use giro.Storage.Schema.{Db, Transaction, Error}
use giro.Storage.Encoding.{Encoding}
use giro.Storage.Log.{idempotency_hash}
use giro.Storage.Assets.{Cache, check_assets}
use giro.Storage.Commit.{
  CommitOptions, Attempt, request_of, max_attempts, commit_once, attempt_from, commit_valid,
  commit_transaction,
}
use giro.Storage.Commit.Retry.{attempt_from-eq-ok}

module _ (e : Encoding) (c : Cache) (db : Db) (env : ℕ → Attempt) (p : Postings)
    (opts : CommitOptions) where
  -- The request was worth trying, and one of the ten attempts committed it.
  pub record Accepted (c' : Cache) (done : Db × Transaction) : Type 0 where
    pub not_empty : p ≢ []
    pub valid : All PostingIsValid p
    pub checked : check_assets c db p ≡ (c', none)
    pub attempt : ℕ
    pub allowed : attempt < max_attempts
    pub committed :
        commit_once e (env attempt) p opts (idempotency_hash e (request_of p opts)) ≡ ok done

  commit_valid-eq-ok :
      (checked : Cache × Option Error) {c' : Cache} {n : ℕ} {done : Db × Transaction}
      → commit_valid e db env p opts checked ≡ (c', n, ok done)
      → (checked ≡ (c', none))
        × (attempt_from e max_attempts 0 0 env p opts (idempotency_hash e (request_of p opts))
            ≡ (n, ok done))
  commit_valid-eq-ok (c1, some error) h = absurd (err-ne-ok (ap (λ z. z.2) h))
  commit_valid-eq-ok (c1, none) h = (ap (λ z. (z.0, none)) h, ap (λ z. (z.1, z.2)) h)

-- A request that CommitTransaction commits is not empty, all its postings are valid, its assets
-- passed checkAssets, and the result is that of commitOnce at one of the ten attempts, with the
-- hash of this request.
pub commit_transaction-Accepted :
    (e : Encoding) (c : Cache) (db : Db) (env : ℕ → Attempt) (p : Postings) (opts : CommitOptions)
    {c' : Cache} {n : ℕ} {done : Db × Transaction}
    → commit_transaction e c db env p opts ≡ (c', n, ok done)
    → Accepted e c db env p opts c' done
unfolding commit_transaction
commit_transaction-Accepted e c db env [] opts h = absurd (err-ne-ok (ap (λ z. z.2) h))
commit_transaction-Accepted e c db env (posting ∷ p) opts {c'} {n} {done} h =
    elim (Option-cases (validate (posting ∷ p))) [
      | inr ((i, fault), found) ↦
          absurd (err-ne-ok (ap (λ z. z.2) (rw (commit_transaction, found) at h)))
      | inl fine ↦
          let (checked, looped) =
            commit_valid-eq-ok e c db env (posting ∷ p) opts (check_assets c db (posting ∷ p))
              (rw (commit_transaction, fine) at h) in
          let (i, below, committed) =
            attempt_from-eq-ok e env (posting ∷ p) opts
              (idempotency_hash e (request_of (posting ∷ p) opts)) max_attempts 0 0 done n looped in
          record {
            not_empty = λ none_left. cc;
            valid = subst (Verdict (posting ∷ p)) fine (validate-Verdict (posting ∷ p));
            checked = checked;
            attempt = i;
            allowed = omega arith;
            committed = committed;
          }
    ]
