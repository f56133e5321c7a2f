-- ===== src/Storage/Bulk/Keyed.antt =====
-- The idempotency key of a batch: what its first use writes, and what a later use returns.
use giro.Prelude.{
  ℕ, suc, ◌+◌, ◌≡◌, refl, sym, ap, ◌∙◌, subst, false, none, some, List, [], ◌∷◌, ◌++◌, ok, inl, inr,
  ◌⊎◌, arith, Bytes, length, length-append, Result, err, All, ok-injective, >>=-eq-ok, ◌>>=◌,
}
use giro.Ledger.Posting.Validation.{PostingIsValid}
use giro.Ledger.Volumes.{sort_updates}
use giro.Storage.Schema.{Db, Transaction, Log, Error}
use giro.Storage.Locking.{lock_volumes}
use giro.Storage.Rows.{is_empty}
use giro.Storage.Encoding.{Encoding, KeepsRows, hydrate_all, or_undecodable}
use giro.Storage.Log.{find_key}
use giro.Storage.Log.Chain.{same_bytes_refl}
use giro.Storage.Commit.{CommitOptions, Attempt}
use giro.Storage.Bulk.{
  BatchItem, tagged, or_nil, find_batch, batch_under, read_batch, commit_batch_once,
  batch_idempotency_hash,
}
use giro.Storage.Bulk.Entered.{Batched, Unwritten, commit_batch_once-cases}
use giro.Storage.Bulk.Replayed.{
  Entered-transactions, Entered-IsTagged, Entered-logs, Entered-find_key, tagged-append, tagged-All,
  find_key_grown,
}

-- An attempt of commitBatchOnce that succeeds writes nothing, being a dry run or answered by the
-- batch that is stored under its key, or it adds to the transactions exactly those that it returns,
-- one for each item and in their order.
pub commit_batch_once-writes :
    (e : Encoding) (a : Attempt) (items : List BatchItem) (opts : CommitOptions) (ik_hash : Bytes)
    {after : Db} {ts : List Transaction}
    → commit_batch_once e a items opts ik_hash ≡ ok (after, ts)
    → Unwritten e a items opts ik_hash after ts
      ⊎ ((after.transactions ≡ a.db.transactions ++ ts) × (length ts ≡ length items))
unfolding lock_volumes
commit_batch_once-writes e a items opts ik_hash {after} {ts} h =
    elim (commit_batch_once-cases e a items opts ik_hash h) [
      | inl unwritten ↦ inl unwritten
      | inr x ↦ inr (
          Entered-transactions e a.moment opts.idempotency_key ik_hash 0 items
            (lock_volumes a.db (sort_updates x.updates)).0 after ts x.entered)
    ]

-- The request has a key that neither the lookup nor the locked database has, and is no dry run.
pub record IsNew (a : Attempt) (opts : CommitOptions) : Type 0 where
  pub keyed : is_empty opts.idempotency_key ≡ false
  pub wet : opts.dry_run ≡ false
  pub unseen : find_key opts.idempotency_key a.seen.logs ≡ none
  pub unused : find_key opts.idempotency_key a.db.logs ≡ none

unused-Stored :
    (e : Encoding) (key ik_hash : Bytes) (db : Db) (ts : List Transaction)
    → find_key key db.logs ≡ none
    → find_batch e key ik_hash db ≡ ok (some ts)
    → ⊥
unfolding find_batch
unused-Stored e key ik_hash db ts unused found = cc (rw (find_batch, unused) at found)

module _ (e : Encoding) (a : Attempt) (item : BatchItem) (items : List BatchItem)
    (opts : CommitOptions) (ik_hash : Bytes) where
  -- A new request that succeeds has written its batch.
  new-Batched :
      {after : Db} {ts : List Transaction}
      → IsNew a opts
      → commit_batch_once e a (item ∷ items) opts ik_hash ≡ ok (after, ts)
      → Batched e a (item ∷ items) opts ik_hash after ts
  new-Batched {after} {ts} new h =
      elim (commit_batch_once-cases e a (item ∷ items) opts ik_hash h) [
        | inr x ↦ x
        | inl (_, inl dry) ↦ absurd (cc (sym dry ∙ new.wet))
        | inl (_, inr (inl (_, found))) ↦
            absurd (unused-Stored e opts.idempotency_key ik_hash a.seen ts new.unseen found)
        | inl (_, inr (inr (_, found))) ↦
            absurd (unused-Stored e opts.idempotency_key ik_hash a.db ts new.unused found)
      ]

  -- What a new batch leaves for later requests.
  record Left (after : Db) (ts : List Transaction) : Type 0 where
    entry : Log
    found : find_key opts.idempotency_key after.logs ≡ some entry
    hashed : entry.idempotency_hash ≡ ik_hash
    added : after.transactions ≡ a.db.transactions ++ ts
    count : length ts ≡ length (item ∷ items)
    own : tagged ik_hash ts ≡ ts

  new-Left :
      {after : Db} {ts : List Transaction}
      → IsNew a opts
      → commit_batch_once e a (item ∷ items) opts ik_hash ≡ ok (after, ts)
      → Left after ts
  unfolding lock_volumes
  new-Left {after} {ts} new h =
      let x = new-Batched new h in
      let locked = (lock_volumes a.db (sort_updates x.updates)).0 in
      let key = opts.idempotency_key in
      let (entry, found, hashed) =
        Entered-find_key e a.moment key ik_hash item items locked after ts new.keyed new.unused
          x.entered in
      let (added, count) =
        Entered-transactions e a.moment key ik_hash 0 (item ∷ items) locked after ts x.entered in
      record {
        entry = entry;
        found = found;
        hashed = hashed;
        added = added;
        count = count;
        own = tagged-All ik_hash ts (
            Entered-IsTagged e a.moment key ik_hash 0 (item ∷ items) locked after ts new.keyed
              x.entered);
      }

or_nil_full : (ts : List Transaction) (n : ℕ) → length ts ≡ suc n → or_nil ts ≡ some ts
or_nil_full [] n h = absurd (omega arith)
or_nil_full (t ∷ ts) n h = refl

find_batch_stored :
    (e : Encoding) (key ik_hash : Bytes) (db : Db) (l : Log) (ts : List Transaction)
    → find_key key db.logs ≡ some l
    → l.idempotency_hash ≡ ik_hash
    → tagged ik_hash db.transactions ≡ ts
    → find_batch e key ik_hash db ≡ read_batch e ts
unfolding find_batch
find_batch_stored e key ik_hash db l ts found hashed own =
    ap (batch_under e ik_hash db.transactions) found
    ∙ rw (hashed, same_bytes_refl ik_hash, own) refl

-- what an attempt returns that is answered with these rows
abbrev pub answer : Encoding → Db → List Transaction → Result Error (Db × List Transaction)
answer e db rows = do ts ← hydrate_all e rows; ok (db, ts)

length-hydrate_all :
    (e : Encoding) (rows : List Transaction) {ts : List Transaction}
    → hydrate_all e rows ≡ ok ts
    → length ts ≡ length rows
unfolding hydrate_all
length-hydrate_all e [] h = ap length (sym (ok-injective h))
length-hydrate_all e (t ∷ rows) h =
    let (d, one, rest) = >>=-eq-ok (or_undecodable (e.hydrate t)) _ h in
    let (ds, others, result) = >>=-eq-ok (hydrate_all e rows) (λ ds. ok (d ∷ ds)) rest in
    ap length (sym (ok-injective result)) ∙ ap suc (length-hydrate_all e rows others)

replay_stored :
    (e : Encoding) (c : Attempt) (items : List BatchItem) (opts : CommitOptions) (ik_hash : Bytes)
    (ts : List Transaction) (n : ℕ)
    → is_empty opts.idempotency_key ≡ false
    → find_batch e opts.idempotency_key ik_hash c.seen ≡ read_batch e ts
    → length ts ≡ suc n
    → commit_batch_once e c items opts ik_hash ≡ answer e c.db ts
unfolding commit_batch_once
replay_stored e c items opts ik_hash ts n keyed found count = go (hydrate_all e ts) refl
  where
    go :
        (r : Result Error (List Transaction))
        → hydrate_all e ts ≡ r
        → commit_batch_once e c items opts ik_hash ≡ answer e c.db ts
    go (err error) failed = rw (commit_batch_once, keyed, found, failed) refl
    go (ok all) read =
        rw
          (
            commit_batch_once,
            keyed,
            found,
            read,
            or_nil_full all n (length-hydrate_all e ts read ∙ count),
          )
          refl

-- The same transactions, by their ids and postings.
abbrev pub AreSame : List Transaction → List Transaction → Type 0
AreSame [] [] = Unit
AreSame [] (t ∷ ts) = ⊥
AreSame (u ∷ us) [] = ⊥
AreSame (u ∷ us) (t ∷ ts) = (u.id ≡ t.id) × (u.postings ≡ t.postings) × AreSame us ts

hydrate_all-AreSame :
    (e : Encoding)
    → KeepsRows e
    → (ts : List Transaction) → All (λ t. All PostingIsValid t.postings) ts
    → (us : List Transaction) × (hydrate_all e ts ≡ ok us) × AreSame us ts
unfolding hydrate_all
hydrate_all-AreSame e keeps [] valid = ([], refl, tt)
hydrate_all-AreSame e keeps (t ∷ ts) valid =
    let (d, one, same_id, same_postings) = keeps t valid.0 in
    let (us, others, same) = hydrate_all-AreSame e keeps ts valid.1 in
    (d ∷ us, rw (hydrate_all, one, others) refl, (same_id, same_postings, same))

-- If a batch that is no dry run succeeds under a key that neither its lookup nor the locked
-- database has, and no transaction there has the tag of its hash, every attempt of the same request
-- that sees what it left writes nothing and succeeds with transactions of the same ids and postings
-- in the same order, one for each item, given that the postings are valid and that reading a row
-- brings ids and valid postings back.
pub commit_batch_exactly_once :
    (e : Encoding)
    → KeepsRows e
    → (a c : Attempt) (item : BatchItem) (items : List BatchItem) (opts : CommitOptions)
      (ik_hash : Bytes) {after : Db} {ts : List Transaction}
    → IsNew a opts
    → tagged ik_hash a.db.transactions ≡ []
    → commit_batch_once e a (item ∷ items) opts ik_hash ≡ ok (after, ts)
    → All (λ t. All PostingIsValid t.postings) ts
    → c.seen ≡ after
    → (us : List Transaction) × (commit_batch_once e c (item ∷ items) opts ik_hash ≡ ok (c.db, us))
      × AreSame us ts
      × (length ts ≡ length (item ∷ items))
commit_batch_exactly_once e keeps a c item items opts ik_hash {after} {ts} new untagged h valid
      sees =
    let left = new-Left e a item items opts ik_hash new h in
    let own =
      ap (tagged ik_hash) left.added
      ∙ tagged-append ik_hash a.db.transactions ts
      ∙ rw (untagged, left.own) refl in
    let (us, read, same) = hydrate_all-AreSame e keeps ts valid in
    let found =
      ap (find_batch e opts.idempotency_key ik_hash) sees
      ∙ find_batch_stored e opts.idempotency_key ik_hash after left.entry ts left.found left.hashed
          own in
    (
      us,
      replay_stored e c (item ∷ items) opts ik_hash ts (length items) new.keyed found left.count
          ∙ ap (λ r. r >>= λ us. ok (c.db, us)) read,
      same,
      left.count,
    )

replay-returns_both :
    (e : Encoding) (a b c : Attempt) (item : BatchItem) (items : List BatchItem)
    (first second : CommitOptions) (ik_hash : Bytes) {after later : Db} {ts us : List Transaction}
    → IsNew a first
    → tagged ik_hash a.db.transactions ≡ []
    → commit_batch_once e a (item ∷ items) first ik_hash ≡ ok (after, ts)
    → IsNew b second
    → b.db ≡ after
    → commit_batch_once e b (item ∷ items) second ik_hash ≡ ok (later, us)
    → c.seen ≡ later
    → (commit_batch_once e c (item ∷ items) first ik_hash ≡ answer e c.db (ts ++ us))
      × (length (ts ++ us) ≡ length (item ∷ items) + length (item ∷ items))
unfolding lock_volumes
replay-returns_both e a b c item items first second ik_hash {after} {later} {ts} {us} new untagged h
      again on_after k sees =
    let left = new-Left e a item items first ik_hash new h in
    let next = new-Left e b item items second ik_hash again k in
    let x = new-Batched e b item items second ik_hash again k in
    let (more, grown) =
      Entered-logs e b.moment second.idempotency_key ik_hash 0 (item ∷ items)
        (lock_volumes b.db (sort_updates x.updates)).0 later us x.entered in
    let both : length (ts ++ us) ≡ suc (length items) + suc (length items) =
      length-append ts us ∙ rw (left.count, next.count) refl in
    let counted : length (ts ++ us) ≡ suc (length items + suc (length items)) =
      both ∙ omega arith in
    let own : tagged ik_hash later.transactions ≡ ts ++ us =
      ap (tagged ik_hash) (
        next.added
        ∙ ap (λ (d : Db). d.transactions ++ us) on_after
        ∙ ap (λ xs. xs ++ us) left.added)
      ∙ tagged-append ik_hash (a.db.transactions ++ ts) us
      ∙ rw (tagged-append ik_hash a.db.transactions ts, untagged, left.own, next.own) refl in
    let found =
      ap (find_key first.idempotency_key) (grown ∙ ap (λ (d : Db). d.logs ++ more) on_after)
      ∙ find_key_grown first.idempotency_key after.logs more left.entry left.found in
    (
      replay_stored e c (item ∷ items) first ik_hash (ts ++ us) (length items + suc (length items))
          new.keyed
          (ap (find_batch e first.idempotency_key ik_hash) sees
            ∙ find_batch_stored e first.idempotency_key ik_hash later left.entry (ts ++ us) found
                left.hashed own)
          counted,
      both,
    )

batch_idempotency_hash_keyed :
    (e : Encoding) (key other : Bytes) (items : List BatchItem)
    → is_empty key ≡ false
    → is_empty other ≡ false
    → batch_idempotency_hash e key items ≡ batch_idempotency_hash e other items
unfolding batch_idempotency_hash
batch_idempotency_hash_keyed e key other items keyed also = rw (batch_idempotency_hash, keyed, also)

-- If the same items are committed as a batch under a new key and then, on what that left, under
-- another new key, a replay of the first key reads and returns the rows of the transactions of both
-- batches, twice as many as the request has items, given that no transaction had the tag of its
-- hash before.
pub same_batch_twice-replays_both :
    (e : Encoding) (a b c : Attempt) (item : BatchItem) (items : List BatchItem)
    (first second : CommitOptions) {after later : Db} {ts us : List Transaction}
    → let hash_of =
        λ (opts : CommitOptions). batch_idempotency_hash e opts.idempotency_key (item ∷ items) in
      IsNew a first
      → tagged (hash_of first) a.db.transactions ≡ []
      → commit_batch_once e a (item ∷ items) first (hash_of first) ≡ ok (after, ts)
      → IsNew b second
      → b.db ≡ after
      → commit_batch_once e b (item ∷ items) second (hash_of second) ≡ ok (later, us)
      → c.seen ≡ later
      → (commit_batch_once e c (item ∷ items) first (hash_of first) ≡ answer e c.db (ts ++ us))
        × (length (ts ++ us) ≡ length (item ∷ items) + length (item ∷ items))
same_batch_twice-replays_both e a b c item items first second {after} {later} {ts} {us} new untagged
      h again on_after k sees =
    let same =
      batch_idempotency_hash_keyed e second.idempotency_key first.idempotency_key (item ∷ items)
        again.keyed new.keyed in
    replay-returns_both e a b c item items first second
      (batch_idempotency_hash e first.idempotency_key (item ∷ items)) new untagged h again on_after
      (subst (λ hash. commit_batch_once e b (item ∷ items) second hash ≡ ok (later, us)) same k)
      sees
