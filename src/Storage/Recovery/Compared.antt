-- ===== src/Storage/Recovery/Compared.antt =====
-- What the comparison with a recorded tip answers.
use giro.Prelude.{
  subst, any, err-ne-ok, ◌≡◌, ◌≢◌, refl, sym, ap, ◌∙◌, Bool, true, false, Option, none, some, List,
  [], ◌∷◌, ◌++◌, if◌then◌else◌, Result, ok, err, inl, inr, ◌⊎◌, arith, Bytes, Bool-cases, ℤ, pos,
  eqb_ℤ, All,
}
use giro.Ledger.Posting.{Postings}
use giro.Storage.Schema.{Db, LedgerRow, Log, Transaction, log_new_transaction}
use giro.Storage.Locking.{lock_volumes}
use giro.Storage.Rows.{same_bytes}
use giro.Storage.Encoding.{Encoding, new_transaction}
use giro.Storage.Log.{clashes, stored_log, insert_log, allocate, append_log, append_log_entry}
use giro.Storage.Log.Chain.{
  stored_log-id, stored_log-hash, insert_log-eq-ok, allocate-Follows, entry_of,
}
use giro.Storage.Commit.{CommitOptions, Attempt, commit_once}
use giro.Storage.Commit.Inversion.{commit_once-cases}
use giro.Storage.Commit.Chained.{IsChainedDb}
use giro.Storage.Recovery.{
  Tip, tip_of, TipError, unread, tip_mismatch, chain_behind, chain_forked, find_entry, check_tip,
  chain_tip, compare_entry, check_against,
}

-- The log holds the entry that a tip names.
abbrev pub Holds : ℤ → List Log → Log → Type 0
Holds id logs l = (find_entry id logs ≡ some l) × (pos l.id ≡ id)

-- What each answer of the comparison says of the log: the tip was of an empty ledger or its entry
-- is there with its hash; no entry has its id; or the entry with its id has another hash.
abbrev pub Compared : Tip → LedgerRow → Bytes → List Log → Result TipError (Unit {0}) → Type 0
Compared t row name logs (ok tt) =
    (t.log_id ≡ pos 0) ⊎ ((l : Log) × Holds t.log_id logs l × (l.hash ≡ t.hash))
Compared t row name logs (err (unread error)) = ⊥
Compared t row name logs (err (tip_mismatch expected actual chain_behind)) =
    (expected ≡ t)
    × (actual ≡ tip_of name row)
    × (t.log_id ≢ pos 0)
    × All (λ l. pos l.id ≢ t.log_id) logs
Compared t row name logs (err (tip_mismatch expected actual chain_forked)) =
    (expected ≡ t)
    × (actual ≡ tip_of name row)
    × (t.log_id ≢ pos 0)
    × ((l : Log) × Holds t.log_id logs l × (l.hash ≢ t.hash))

eqb_ℤ-false : (a b : ℤ) → eqb_ℤ a b ≡ false → a ≢ b
eqb_ℤ-false a b h e = ground arith

same_bytes-eq : (a b : Bytes) → same_bytes a b ≡ true → a ≡ b
same_bytes-eq a b h = ground arith

same_bytes-ne : (a b : Bytes) → same_bytes a b ≡ false → a ≢ b
same_bytes-ne a b h e = ground arith

find_entry-none :
    (id : ℤ) (logs : List Log) → find_entry id logs ≡ none → All (λ l. pos l.id ≢ id) logs
unfolding find_entry
find_entry-none id [] h = tt
find_entry-none id (l ∷ ls) h = elim (Bool-cases (eqb_ℤ (pos l.id) id)) [
  | inl same ↦ absurd (cc (rw (find_entry, same) at h))
  | inr other ↦ (λ e. eqb_ℤ-false _ _ other e, find_entry-none id ls (rw (find_entry, other) at h))
]

find_entry-some : (id : ℤ) (logs : List Log) (l : Log) → find_entry id logs ≡ some l → pos l.id ≡ id
unfolding find_entry
find_entry-some id [] l h = cc
find_entry-some id (m ∷ ls) l h = ground (arith, find_entry-some id ls l)

compare_entry-Compared :
    (t : Tip) (row : LedgerRow) (name : Bytes) (logs : List Log) (o : Option Log)
    → t.log_id ≢ pos 0
    → find_entry t.log_id logs ≡ o
    → Compared t row name logs (compare_entry t (tip_of name row) o)
compare_entry-Compared t row name logs none written found =
    (refl, refl, written, find_entry-none t.log_id logs found)
compare_entry-Compared t row name logs (some l) written found =
    let holds : Holds t.log_id logs l = (found, find_entry-some t.log_id logs l found) in
    elim (Bool-cases (same_bytes l.hash t.hash)) [
      | inl same ↦
          subst
            (λ b.
              Compared t row name logs
                (if b then ok tt else err (tip_mismatch t (tip_of name row) chain_forked)))
            (sym same) (inr (l, holds, same_bytes-eq l.hash t.hash same))
      | inr other ↦
          subst
            (λ b.
              Compared t row name logs
                (if b then ok tt else err (tip_mismatch t (tip_of name row) chain_forked)))
            (sym other) (refl, refl, written, (l, holds, same_bytes-ne l.hash t.hash other))
    ]

chain_tip_found :
    (name : Bytes) (db : Db) (row : LedgerRow)
    → db.ledger ≡ some row
    → chain_tip name db ≡ ok (tip_of name row)
unfolding chain_tip
chain_tip_found name db row found = ground arith

-- On a ledger that exists, CheckTip passes only a tip of an empty ledger or one whose entry is in
-- the log with the recorded hash, says behind, with both tips, only if no entry has the recorded
-- id, and forked only if the entry with that id has another hash; it has no other answer.
pub check_tip-Compared :
    (name : Bytes) (db : Db) (row : LedgerRow) (t : Tip)
    → db.ledger ≡ some row
    → Compared t row name db.logs (check_tip name db t)
unfolding check_tip
check_tip-Compared name db row t found =
    subst (λ r. Compared t row name db.logs (check_against t db.logs r))
      (sym (chain_tip_found name db row found))
      (elim (Bool-cases (eqb_ℤ t.log_id (pos 0))) [
        | inl unwritten ↦
            subst
              (λ b. Compared t row name db.logs (
                if b
                then ok tt
                else compare_entry t (tip_of name row) (find_entry t.log_id db.logs)))
              (sym unwritten) (inl (ground arith))
        | inr written ↦
            subst
              (λ b. Compared t row name db.logs (
                if b
                then ok tt
                else compare_entry t (tip_of name row) (find_entry t.log_id db.logs)))
              (sym written)
              (compare_entry-Compared t row name db.logs (find_entry t.log_id db.logs)
                (eqb_ℤ-false _ _ written) refl)
      ])

find_entry-append :
    (id : ℤ) (logs more : List Log) (l : Log)
    → find_entry id logs ≡ some l
    → find_entry id (logs ++ more) ≡ some l
unfolding find_entry
find_entry-append id [] more l h = cc
find_entry-append id (m ∷ ls) more l h = ground (arith, find_entry-append id ls more l)

find_entry_last :
    (entry : Log) (logs : List Log)
    → any (clashes entry) logs ≡ false
    → find_entry (pos entry.id) (logs ++ stored_log entry ∷ []) ≡ some (stored_log entry)
unfolding find_entry clashes
find_entry_last entry [] h = ground (arith, stored_log-id entry)
find_entry_last entry (m ∷ ls) h = ground (arith, find_entry_last entry ls)

-- A ledger's tip as it stands behind an entry that was just inserted, against a log that has grown.
insert_log-tip :
    (name : Bytes) (entry : Log) (row : LedgerRow) (logs more : List Log) (after later : Db)
    (later_row : LedgerRow)
    → entry.id ≡ row.last_log_id
    → insert_log entry (some row) logs ≡ ok (after.ledger, after.logs)
    → later.ledger ≡ some later_row
    → later.logs ≡ after.logs ++ more
    → (t : Tip) × (chain_tip name after ≡ ok t) × (check_tip name later t ≡ ok tt)
unfolding check_tip insert_log
insert_log-tip name entry row logs more after later later_row due h exists grown =
    let (updated, appended) = insert_log-eq-ok entry (some row) logs h in
    let tip = tip_of name (record row { last_log_hash = entry.hash }) in
    let found : find_entry tip.log_id later.logs ≡ some (stored_log entry) =
      ap (find_entry tip.log_id) (grown ∙ ap (λ ls. ls ++ more) appended)
      ∙ find_entry-append tip.log_id (logs ++ stored_log entry ∷ []) more (stored_log entry) (
          ap (λ n. find_entry (pos n) (logs ++ stored_log entry ∷ [])) (sym due)
          ∙ find_entry_last entry logs (fresh (any (clashes entry) logs) refl)) in
    (
      tip,
      chain_tip_found name after _ updated,
      ap (check_against tip later.logs) (chain_tip_found name later later_row exists)
          ∙ passes (eqb_ℤ tip.log_id (pos 0)) (find_entry tip.log_id later.logs) found,
    )
  where
    fresh : (b : Bool) → any (clashes entry) logs ≡ b → any (clashes entry) logs ≡ false
    fresh true clash = absurd (err-ne-ok (rw (insert_log, clash) at h))
    fresh false none_clash = none_clash

    passes :
        (b : Bool) (o : Option Log)
        → o ≡ some (stored_log entry)
        → (if b
            then ok tt
            else compare_entry
                (tip_of name (record row { last_log_hash = entry.hash }))
                (tip_of name later_row)
                o)
          ≡ ok tt
    passes true o found = refl
    passes false o found = ground (arith, stored_log-hash entry)

-- On a ledger whose log verifies and whose row holds the end of that log, an attempt of commitOnce
-- that succeeds leaves the database as it was, or leaves a position that ChainTip reads and that
-- CheckTip accepts on every later state of the ledger whose log continues the one that it left.
pub commit_once-tip :
    (e : Encoding) (name : Bytes) (a : Attempt) (p : Postings) (opts : CommitOptions)
    (ik_hash : Bytes) (later : Db) (later_row : LedgerRow) (more : List Log) {after : Db}
    {t : Transaction}
    → IsChainedDb e a.db
    → commit_once e a p opts ik_hash ≡ ok (after, t)
    → later.ledger ≡ some later_row
    → later.logs ≡ after.logs ++ more
    → (after ≡ a.db)
      ⊎ ((tip : Tip) × (chain_tip name after ≡ ok tip) × (check_tip name later tip ≡ ok tt))
unfolding lock_volumes append_log append_log_entry
commit_once-tip e name a p opts ik_hash later later_row more {after} {t} (row, found, _) h exists
      grown =
    elim (commit_once-cases e a p opts ik_hash h) [
      | inl same ↦ inl same
      | inr x ↦
          let w = x.by_apply.written in
          let follows = allocate-Follows row (ap allocate (sym found) ∙ w.allocated) in
          let entry =
            entry_of e x.alloc log_new_transaction (new_transaction t) t.inserted_at
              opts.idempotency_key ik_hash in
          let logged =
            ap (λ l. append_log e t x.alloc opts.idempotency_key ik_hash l x.applied.logs)
              (sym w.ledger)
            ∙ x.by_log
            ∙ ap (λ d. ok (d.ledger, d.logs)) (sym x.result) in
          inr (
            insert_log-tip name entry w.row x.applied.logs more after later later_row
              (follows.log_id ∙ sym follows.last_log_id) logged exists grown)
    ]
