-- ===== src/Storage/Revert/Undoes.antt =====
-- A reversal takes back what the transaction moved, once, and extends the log.
use giro.Prelude.{
  ℕ, suc, ◌≡◌, refl, sym, ap, ◌∙◌, subst, Bool, false, some, List, [], ◌∷◌, ◌++◌, ok, err, inl, inr,
  arith, ok-injective, err-ne-ok, Option-cases, All, any, ◌+ℤ◌,
}
use giro.Ledger.Posting.{Postings, reverse_postings, reverse_from, swap_sides, has_up_to}
use giro.Ledger.Posting.Reversal.{IsResolved, flow-reverse_postings}
use giro.Ledger.Volumes.{Key, VolumeUpdate}
use giro.Ledger.Volumes.Totals.{flow, inflow, outflow}
use giro.Storage.Schema.{Db, Transaction, Time, already_reverted, log_reverted_transaction}
use giro.Storage.Locking.{Locks, lock_volumes}
use giro.Storage.Encoding.{Encoding, Payload}
use giro.Storage.Log.{Allocation, allocate, append_log_entry}
use giro.Storage.Log.Chain.{IsChained, append_log_entry-IsChained, allocate-Follows}
use giro.Storage.Commit.{ApplyOptions, Moment, Attempt, resolve}
use giro.Storage.Commit.Inversion.{Applied, apply_transaction-Applied, written-transactions}
use giro.Storage.Commit.Conservation.{IsConserved, apply_transaction-IsConserved}
use giro.Storage.Commit.Chained.{IsChainedDb}
use giro.Storage.Commit.Flow.{GrownBy, Applied-GrownBy, stored_input, stored_output}
use giro.Storage.Revert.{
  Reversal, find_transaction, lock_transaction, mark_reverted, revert_options, revert_once,
}
use giro.Storage.Revert.Inversion.{revert_once-Reverted}

-- A reversal has no ceiling left, so nothing of it is resolved again.
reverse_from-has_up_to :
    (i : ℕ) (p rev : Postings) {q : Postings}
    → reverse_from i p rev ≡ ok q
    → any (λ s. s.up_to) rev ≡ false
    → any (λ s. s.up_to) q ≡ false
unfolding reverse_from
reverse_from-has_up_to i [] rev h none_left =
    subst (λ q. any (λ s. s.up_to) q ≡ false) (ok-injective h) none_left
reverse_from-has_up_to i (posting ∷ p) rev h none_left = elim (Option-cases posting.amount) [
  | inl missing ↦ absurd (err-ne-ok (rw (reverse_from, missing) at h))
  | inr (amount, found) ↦
      reverse_from-has_up_to (suc i) p (swap_sides posting amount ∷ rev)
        (rw (reverse_from, found) at h) none_left
]

reverse_postings-has_up_to :
    (p : Postings) {q : Postings} → reverse_postings p ≡ ok q → has_up_to q ≡ false
unfolding reverse_postings has_up_to
reverse_postings-has_up_to p h = reverse_from-has_up_to 0 p [] h refl

resolve-fixed :
    (p : Postings) (before : Locks) (named : List VolumeUpdate)
    → has_up_to p ≡ false
    → resolve p before named ≡ ok (p, named)
unfolding resolve
resolve-fixed p before named fixed = rw fixed

-- The transaction that a fixed list of postings is stored as has those postings.
stored_postings :
    (m : Moment) (opts : ApplyOptions) (p : Postings) (db : Db) {after : Db} {t : Transaction}
    {alloc : Allocation}
    → has_up_to p ≡ false
    → (x : Applied m opts p db after t alloc) → x.postings ≡ p
stored_postings m opts p db fixed x = sym (
    ap (λ z. z.0)
      (ok-injective (sym (resolve-fixed p (lock_volumes db x.named).1 x.named fixed) ∙ x.resolved)))

lock_transaction-eq-ok :
    (id : ℕ) (db : Db) {t : Transaction}
    → lock_transaction id db ≡ ok t
    → find_transaction id db.transactions ≡ some t
lock_transaction-eq-ok id db h = elim (Option-cases (find_transaction id db.transactions)) [
  | inl missing ↦ absurd (err-ne-ok (rw (lock_transaction, missing) at h))
  | inr (s, found) ↦ found ∙ ap some (ok-injective (rw (lock_transaction, found) at h))
]

find_transaction-mark_reverted :
    (id : ℕ) (at : Time) (rows : List Transaction) (t : Transaction)
    → find_transaction id rows ≡ some t
    → find_transaction id (mark_reverted id at rows) ≡ some (record t { reverted_at = some at })
unfolding find_transaction mark_reverted
find_transaction-mark_reverted id at [] t h = cc
find_transaction-mark_reverted id at (s ∷ rows) t h =
    ground (arith, find_transaction-mark_reverted id at rows t)

find_transaction-append :
    (id : ℕ) (rows more : List Transaction) (t : Transaction)
    → find_transaction id rows ≡ some t
    → find_transaction id (rows ++ more) ≡ some t
unfolding find_transaction
find_transaction-append id [] more t h = cc
find_transaction-append id (s ∷ rows) more t h =
    ground (arith, find_transaction-append id rows more t)

some_injective {ℓ} : {A : Type ℓ} {x y : A} → some x ≡ some y → x ≡ y
some_injective h = cc

module _ (e : Encoding) (a : Attempt) (id : ℕ) (at_effective_date : Bool) {after : Db}
    {r : Reversal} where
  -- A revertOnce that succeeds on a transaction whose postings have amounts and no ceilings adds to
  -- the input of every account and asset what the transaction took out, and to the output what it
  -- brought in.
  pub revert_once-undoes :
      (k : Key) (t : Transaction)
      → find_transaction id a.db.transactions ≡ some t
      → All IsResolved t.postings
      → revert_once e a id at_effective_date ≡ ok (after, r)
      → (stored_input k after ≡ stored_input k a.db +ℤ flow (outflow k) t.postings)
        × (stored_output k after ≡ stored_output k a.db +ℤ flow (inflow k) t.postings)
  revert_once-undoes k t found fixed h =
      let x = revert_once-Reverted e a id at_effective_date h in
      let y =
        apply_transaction-Applied a.moment (revert_options a.moment id at_effective_date x.original)
          x.inverse a.db x.by_apply in
      let same = some_injective (sym (lock_transaction-eq-ok id a.db x.found) ∙ found) in
      let inverse =
        stored_postings a.moment (revert_options a.moment id at_effective_date x.original) x.inverse
          a.db (reverse_postings-has_up_to x.original.postings x.reversed) y in
      let (into, out) =
        flow-reverse_postings k x.original.postings
          (subst (λ s. All IsResolved s.postings) (sym same) fixed) x.reversed in
      let (ins, outs) = subst (λ q. GrownBy k q a.db x.applied) inverse (Applied-GrownBy k y) in
      (
        rw x.volumes (
            ins
            ∙ ap (λ f. stored_input k a.db +ℤ f)
                (into ∙ ap (λ s. flow (outflow k) s.postings) same)),
        rw x.volumes (
            outs
            ∙ ap (λ f. stored_output k a.db +ℤ f)
                (out ∙ ap (λ s. flow (inflow k) s.postings) same)),
      )

  -- Once a transaction is reverted, every attempt to revert it on what that left is refused as
  -- already reverted.
  pub revert_once-refuses_second :
      (b : Attempt) (again : Bool)
      → revert_once e a id at_effective_date ≡ ok (after, r)
      → b.db ≡ after
      → revert_once e b id again ≡ err (already_reverted id)
  unfolding revert_once
  revert_once-refuses_second b again h sees =
      let x = revert_once-Reverted e a id at_effective_date h in
      let y =
        apply_transaction-Applied a.moment (revert_options a.moment id at_effective_date x.original)
          x.inverse a.db x.by_apply in
      let at = r.reversal.timestamp in
      let found =
        ap (λ db. find_transaction id db.transactions) sees
        ∙ ap (find_transaction id)
            (x.transactions ∙ ap (mark_reverted id at) (written-transactions y.written))
        ∙ find_transaction-mark_reverted id at (a.db.transactions ++ r.reversal ∷ []) x.original (
            find_transaction-append id a.db.transactions (r.reversal ∷ []) x.original
              (lock_transaction-eq-ok id a.db x.found)) in
      rw (lock_transaction, found) refl

  -- If in every asset the inputs of all accounts sum to their outputs, a revertOnce that succeeds
  -- leaves it so.
  pub revert_once-IsConserved :
      IsConserved a.db → revert_once e a id at_effective_date ≡ ok (after, r) → IsConserved after
  revert_once-IsConserved conserved h =
      let x = revert_once-Reverted e a id at_effective_date h in
      subst (λ rows. IsConserved (record x.applied { volumes = rows })) (sym x.volumes)
        (apply_transaction-IsConserved a.moment
          (revert_options a.moment id at_effective_date x.original) x.inverse a.db conserved
          x.by_apply)

  -- If VerifyLog accepts the log and the row of the ledger holds its last hash and last id, that
  -- is so after a revertOnce that succeeds.
  pub revert_once-IsChainedDb :
      IsChainedDb e a.db
      → revert_once e a id at_effective_date ≡ ok (after, r)
      → IsChainedDb e after
  unfolding lock_volumes
  revert_once-IsChainedDb (row, found, chained) h =
      let x = revert_once-Reverted e a id at_effective_date h in
      let y =
        apply_transaction-Applied a.moment (revert_options a.moment id at_effective_date x.original)
          x.inverse a.db x.by_apply in
      let w = y.written in
      let allocated = ap allocate (sym found) ∙ w.allocated in
      let (row', stored, chained') =
        append_log_entry-IsChained e row w.row x.alloc log_reverted_transaction
          (Payload.reverted_transaction id r.reversal) r.reversal.inserted_at [] [] x.applied.logs
          (allocate-Follows row allocated) (subst (IsChained e row) (sym w.logs) chained)
          (ap
              (λ l.
                append_log_entry e x.alloc log_reverted_transaction
                  (Payload.reverted_transaction id r.reversal) r.reversal.inserted_at [] [] l
                  x.applied.logs)
              (sym w.ledger)
            ∙ x.by_log) in
      (row', x.ledger ∙ stored, chained')
