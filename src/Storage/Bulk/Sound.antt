-- ===== src/Storage/Bulk/Sound.antt =====
-- The invariants of the ledger, after a batch.
use giro.Prelude.{
  ◌⊎◌, refl, ℕ, suc, ◌≡◌, sym, ◌∙◌, subst, ite, List, [], ◌∷◌, ok, inl, inr, pos, Bytes,
  Bytes-discrete, arith,
}
use giro.Ledger.Posting.{Postings}
use giro.Ledger.Asset.{Asset}
use giro.Ledger.Volumes.{Key, VolumeUpdate, sort_updates}
use giro.Storage.Schema.{Db, Transaction}
use giro.Storage.Locking.{lock_volumes}
use giro.Storage.Locking.Updates.{sum_rows-materialise}
use giro.Storage.Encoding.{Encoding}
use giro.Storage.Commit.{CommitOptions, Attempt, Moment, commit_once}
use giro.Storage.Commit.Inversion.{Appended}
use giro.Storage.Commit.Conservation.{IsConserved, Applied-IsConserved, row_input, row_output}
use giro.Storage.Commit.Bounds.{IsWithin, Applied-IsWithin, materialise-IsWithin}
use giro.Storage.Commit.Chained.{IsChainedDb, Appended-IsChainedDb}
use giro.Storage.Commit.Histories.{IsHistory, Applied-IsHistory}
use giro.Storage.Bulk.{BatchItem, first_only, commit_batch_once, lock_batch}
use giro.Storage.Bulk.Entered.{Entered, item_attempt, item_commit, commit_batch_once-cases}

-- What holds of a ledger between commits: every asset's inputs sum to its outputs, no balance is on
-- a side of zero that its row does not permit, the log verifies and its end is in the ledger's row,
-- and every move's effective snapshot is the sum of the moves up to it.
pub record IsSound (e : Encoding) (db : Db) : Type 0 where
  pub conserved : IsConserved db
  pub within : IsWithin db
  pub chained : IsChainedDb e db
  pub history : IsHistory db

module _ (e : Encoding) where
  Appended-IsSound :
      (a : Attempt) (p : Postings) (opts : CommitOptions) (ik_hash : Bytes) {after : Db}
      {t : Transaction}
      → Appended e a p opts ik_hash after t
      → IsSound e a.db
      → IsSound e after
  Appended-IsSound a p opts ik_hash x s = record {
    conserved = subst IsConserved (sym x.result) (Applied-IsConserved x.by_apply s.conserved);
    within = subst IsWithin (sym x.result) (Applied-IsWithin x.by_apply s.within);
    chained = Appended-IsChainedDb e a p opts ik_hash s.chained x;
    history = subst IsHistory (sym x.result) (Applied-IsHistory x.by_apply s.history);
  }

  Entered-IsSound :
      (m : Moment) (key ik_hash : Bytes) (i : ℕ) (items : List BatchItem) (db : Db) {after : Db}
      (ts : List Transaction)
      → Entered e m key ik_hash i items db after ts
      → IsSound e db
      → IsSound e after
  Entered-IsSound m key ik_hash i [] db ts (same, _) s = subst (IsSound e) (sym same) s
  Entered-IsSound m key ik_hash i (item ∷ items) db ts (mid, t, rest, x, more, _, _) s =
      Entered-IsSound m key ik_hash (suc i) items mid rest more (
        Appended-IsSound (item_attempt m db) item.postings (item_commit i key ik_hash item)
          (first_only i ik_hash) x s)

  row-zero : (a : Asset) (k : Key) → ite (Bytes-discrete a k.asset) (pos 0) (pos 0) ≡ pos 0
  row-zero a k = ground arith

  locked-IsSound :
      (us : List VolumeUpdate) (db : Db) → IsSound e db → IsSound e (lock_volumes db us).0
  unfolding lock_volumes
  locked-IsSound us db s = record {
    conserved = λ a.
        sum_rows-materialise (row_input a) (row-zero a) us db.volumes
        ∙ s.conserved a
        ∙ sym (sum_rows-materialise (row_output a) (row-zero a) us db.volumes);
    within = materialise-IsWithin us db s.within;
    chained = s.chained;
    history = s.history;
  }

  -- If the ledger is sound (inputs equal to outputs in every asset, no balance where its row does
  -- not permit it, a log that verifies and ends where the ledger's row says, effective snapshots
  -- that are the sums of their moves), it is so after an attempt of commitBatchOnce that succeeds.
  pub commit_batch_once-IsSound :
      (a : Attempt) (items : List BatchItem) (opts : CommitOptions) (ik_hash : Bytes) {after : Db}
      {ts : List Transaction}
      → IsSound e a.db
      → commit_batch_once e a items opts ik_hash ≡ ok (after, ts)
      → IsSound e after
  commit_batch_once-IsSound a items opts ik_hash {ts = ts} s h =
      elim (commit_batch_once-cases e a items opts ik_hash h) [
        | inl (same, _) ↦ subst (IsSound e) (sym same) s
        | inr x ↦
            Entered-IsSound a.moment opts.idempotency_key ik_hash 0 items
              (lock_volumes a.db (sort_updates x.updates)).0 ts x.entered
              (locked-IsSound (sort_updates x.updates) a.db s)
      ]

  -- The items one by one: each is what commitOnce does on what the one before left, with the key on
  -- the first.
  abbrev pub Sequence : Moment → Bytes → Bytes → ℕ → List BatchItem → Db → Db → Type 0
  Sequence m key ik_hash i [] db after = after ≡ db
  Sequence m key ik_hash i (item ∷ items) db after =
      (mid : Db) × (t : Transaction) × (commit_once e (item_attempt m db) item.postings
          (item_commit i key ik_hash item) (first_only i ik_hash)
        ≡ ok (mid, t))
      × Sequence m key ik_hash (suc i) items mid after

  Entered-Sequence :
      (m : Moment) (key ik_hash : Bytes) (i : ℕ) (items : List BatchItem) (db after : Db)
      (ts : List Transaction)
      → Entered e m key ik_hash i items db after ts
      → Sequence m key ik_hash i items db after
  Entered-Sequence m key ik_hash i [] db after ts (same, _) = same
  Entered-Sequence m key ik_hash i (item ∷ items) db after ts (mid, t, rest, x, more, _, once) =
      (mid, t, once, Entered-Sequence m key ik_hash (suc i) items mid after rest more)

  -- An attempt of commitBatchOnce that succeeds leaves the database as it was, or what successful
  -- attempts of commitOnce leave that commit its items one after another, in the items' order, on
  -- the database with a volume row for every account and asset of the batch.
  pub commit_batch_once-Sequence :
      (a : Attempt) (items : List BatchItem) (opts : CommitOptions) (ik_hash : Bytes) {after : Db}
      {ts : List Transaction}
      → commit_batch_once e a items opts ik_hash ≡ ok (after, ts)
      → (after ≡ a.db)
        ⊎ ((locked : Db) × (lock_batch items a.db ≡ ok locked)
            × Sequence a.moment opts.idempotency_key ik_hash 0 items locked after)
  unfolding lock_batch
  commit_batch_once-Sequence a items opts ik_hash {after} {ts} h =
      elim (commit_batch_once-cases e a items opts ik_hash h) [
        | inl (same, _) ↦ inl same
        | inr x ↦ inr (
          (lock_volumes a.db (sort_updates x.updates)).0,
          rw x.collected refl,
          Entered-Sequence a.moment opts.idempotency_key ik_hash 0 items
              (lock_volumes a.db (sort_updates x.updates)).0 after ts x.entered,
        )
      ]
