-- ===== src/Storage/Projection/Replayed.antt =====
-- The stored volumes are what the log replays to, and a commit and a reversal keep them so.
use giro.Prelude.{
  ℕ, ◌≡◌, sym, ap, ◌∙◌, subst, Bool, Option, some, List, [], ◌∷◌, ◌++◌, ok, inl, inr, arith, Bytes,
  ok-injective, >>=-eq-ok, All, ◌+ℤ◌, +ℤ-zero, int_laws,
}
use giro.Ledger.Posting.{Posting, Postings}
use giro.Ledger.Posting.Validation.{PostingIsValid}
use giro.Ledger.Volumes.{Key, VolumeUpdate, count_posting}
use giro.Ledger.Volumes.Totals.{
  total, flow, inflow, outflow, key_input, key_output, step-key_input, step-key_output, amount_of,
}
use giro.Storage.Schema.{Db, Transaction, Log, log_new_transaction, log_reverted_transaction}
use giro.Storage.Locking.{lock_volumes}
use giro.Storage.Moves.{posted_amount}
use giro.Storage.Encoding.{Encoding, Payload, RoundTrips}
use giro.Storage.Log.{append_log, append_log_entry, stored_log}
use giro.Storage.Log.Chain.{insert_log-eq-ok, entry_of, stored_log-content, stored_log-type}
use giro.Storage.Commit.{CommitOptions, Attempt, commit_once}
use giro.Storage.Commit.Inversion.{
  apply_transaction-Applied, commit_once-cases, written-transaction,
}
use giro.Storage.Commit.Flow.{GrownBy, Applied-GrownBy, stored_input, stored_output}
use giro.Storage.Revert.{Reversal, revert_once, revert_options}
use giro.Storage.Revert.Inversion.{revert_once-Reverted}
use giro.Storage.Projection.{
  replay_postings, add_id, carried_transaction, replay_carried, replay_from, replay_log,
}

posted_amount-amount_of : (posting : Posting) → posted_amount posting ≡ amount_of posting
posted_amount-amount_of posting = ground arith

module _ (k : Key) where
  -- Replaying postings adds to each key what they bring in and take out.
  total_input-replay_postings :
      (p : Postings) (index : List VolumeUpdate)
      → total (key_input k) (replay_postings p index)
        ≡ total (key_input k) index +ℤ flow (inflow k) p
  unfolding replay_postings
  total_input-replay_postings [] index = sym (+ℤ-zero (total (key_input k) index))
  total_input-replay_postings (posting ∷ p) index =
      rw
        (
          total_input-replay_postings p (count_posting posting (posted_amount posting) index),
          step-key_input k posting (posted_amount posting) index,
          posted_amount-amount_of posting,
        )
        (omega int_laws)

  total_output-replay_postings :
      (p : Postings) (index : List VolumeUpdate)
      → total (key_output k) (replay_postings p index)
        ≡ total (key_output k) index +ℤ flow (outflow k) p
  unfolding replay_postings
  total_output-replay_postings [] index = sym (+ℤ-zero (total (key_output k) index))
  total_output-replay_postings (posting ∷ p) index =
      rw
        (
          total_output-replay_postings p (count_posting posting (posted_amount posting) index),
          step-key_output k posting (posted_amount posting) index,
          posted_amount-amount_of posting,
        )
        (omega int_laws)

module _ (e : Encoding) where
  -- One more entry at the end of the log is replayed last.
  replay_from-append :
      (state : List VolumeUpdate × List ℕ) (ls : List Log) (l : Log)
      {state' : List VolumeUpdate × List ℕ} {carried : Option Transaction}
      → replay_from e state ls ≡ ok state'
      → carried_transaction e l ≡ ok carried
      → replay_from e state (ls ++ l ∷ []) ≡ ok (replay_carried carried state')
  unfolding replay_from
  replay_from-append state [] l {carried = carried} h c =
      rw c (ap (λ s. ok (replay_carried carried s)) (ok-injective h))
  replay_from-append state (m ∷ ls) l h c =
      let (carried, found, rest) = >>=-eq-ok (carried_transaction e m) _ h in
      rw found (replay_from-append (replay_carried carried state) ls l rest c)

  -- The log replays, and at every account and asset it replays to the stored counters.
  pub record IsProjection (db : Db) : Type 0 where
    pub index : List VolumeUpdate
    pub ids : List ℕ
    pub replays : replay_log e db.logs ≡ ok (index, ids)
    pub inputs : (k : Key) → stored_input k db ≡ total (key_input k) index
    pub outputs : (k : Key) → stored_output k db ≡ total (key_output k) index

  extend-IsProjection :
      (db after : Db) (entry : Log) (d : Transaction)
      → IsProjection db
      → after.logs ≡ db.logs ++ entry ∷ []
      → carried_transaction e entry ≡ ok (some d)
      → ((k : Key) → GrownBy k d.postings db after)
      → IsProjection after
  unfolding replay_log replay_carried
  extend-IsProjection db after entry d x logged carries grown = record {
    index = replay_postings d.postings x.index;
    ids = add_id d.id x.ids;
    replays =
        ap (replay_from e ([], [])) logged
        ∙ replay_from-append ([], []) db.logs entry x.replays carries;
    inputs = λ k.
        (grown k).0
        ∙ ap (λ i. i +ℤ flow (inflow k) d.postings) (x.inputs k)
        ∙ sym (total_input-replay_postings k d.postings x.index);
    outputs = λ k.
        (grown k).1
        ∙ ap (λ i. i +ℤ flow (outflow k) d.postings) (x.outputs k)
        ∙ sym (total_output-replay_postings k d.postings x.index);
  }

  carried-new_transaction :
      (l : Log) (d : Transaction)
      → l.type ≡ log_new_transaction
      → e.unmarshal_transaction l.content ≡ some d
      → carried_transaction e l ≡ ok (some d)
  unfolding carried_transaction
  carried-new_transaction l d typed decoded = ground arith

  carried-reverted_transaction :
      (l : Log) (d : ℕ × Transaction)
      → l.type ≡ log_reverted_transaction
      → e.unmarshal_reverted l.content ≡ some d
      → carried_transaction e l ≡ ok (some d.1)
  unfolding carried_transaction
  carried-reverted_transaction l d typed decoded = ground arith

  -- If the log replays to the stored volumes, it does after an attempt of commitOnce that succeeds
  -- with postings that are valid, given that JSON keeps the ids and the postings of valid
  -- transactions.
  pub commit_once-IsProjection :
      RoundTrips e
      → (a : Attempt) (p : Postings) (opts : CommitOptions) (ik_hash : Bytes) {after : Db}
        {t : Transaction}
      → IsProjection a.db
      → All PostingIsValid t.postings
      → commit_once e a p opts ik_hash ≡ ok (after, t)
      → IsProjection after
  unfolding append_log append_log_entry lock_volumes
  commit_once-IsProjection trips a p opts ik_hash {after} {t} projected valid h =
      elim (commit_once-cases e a p opts ik_hash h) [
        | inl same ↦ subst IsProjection (sym same) projected
        | inr x ↦
            let entry =
              entry_of e x.alloc log_new_transaction (Payload.new_transaction t) t.inserted_at
                opts.idempotency_key ik_hash in
            let (d, decoded, same_id, same_postings) = trips.transaction t valid in
            let w = x.by_apply.written in
            let logged = (insert_log-eq-ok entry x.applied.ledger x.applied.logs x.by_log).1 in
            subst IsProjection (sym x.result) (
              extend-IsProjection a.db (record x.applied { ledger = x.ledger; logs = x.logs })
                (stored_log entry) d projected
                (logged ∙ ap (λ ls. ls ++ stored_log entry ∷ []) w.logs)
                (carried-new_transaction (stored_log entry) d (stored_log-type entry)
                  (ap e.unmarshal_transaction (stored_log-content entry) ∙ decoded))
                (λ k.
                  subst (λ q. GrownBy k q a.db x.applied)
                    (sym (ap (λ s. s.postings) (written-transaction w)) ∙ sym same_postings)
                    (Applied-GrownBy k x.by_apply)))
      ]

  -- If the log replays to the stored volumes, it does after a revertOnce that succeeds and whose
  -- reversal has valid postings, given that JSON keeps the ids and the postings of valid
  -- transactions.
  pub revert_once-IsProjection :
      RoundTrips e
      → (a : Attempt) (id : ℕ) (at_effective_date : Bool) {after : Db} {r : Reversal}
      → IsProjection a.db
      → All PostingIsValid r.reversal.postings
      → revert_once e a id at_effective_date ≡ ok (after, r)
      → IsProjection after
  unfolding append_log_entry lock_volumes
  revert_once-IsProjection trips a id at_effective_date {after} {r} projected valid h =
      let x = revert_once-Reverted e a id at_effective_date h in
      let y =
        apply_transaction-Applied a.moment (revert_options a.moment id at_effective_date x.original)
          x.inverse a.db x.by_apply in
      let entry =
        entry_of e x.alloc log_reverted_transaction (Payload.reverted_transaction id r.reversal)
          r.reversal.inserted_at [] [] in
      let (d, decoded, same_id, same_postings) = trips.reverted id r.reversal valid in
      let logged = (insert_log-eq-ok entry x.applied.ledger x.applied.logs x.by_log).1 in
      extend-IsProjection a.db after (stored_log entry) d.1 projected
        (logged ∙ ap (λ ls. ls ++ stored_log entry ∷ []) y.written.logs)
        (carried-reverted_transaction (stored_log entry) d (stored_log-type entry)
          (ap e.unmarshal_reverted (stored_log-content entry) ∙ decoded))
        (λ k.
          subst (λ q. GrownBy k q a.db (record x.applied { volumes = after.volumes }))
            (sym (ap (λ s. s.postings) (written-transaction y.written)) ∙ sym same_postings)
            (subst (λ rows. GrownBy k y.postings a.db (record x.applied { volumes = rows }))
              (sym x.volumes) (Applied-GrownBy k y)))
