-- ===== src/Storage/Bulk/Replayed.antt =====
-- Which transactions a batch leaves, and what a replay of its key returns.
use mathlib.Core.List.{append-nil, append_assoc}
use giro.Prelude.{
  ℕ, suc, ◌≡◌, refl, sym, ap, ◌∙◌, subst, false, none, some, List, [], ◌∷◌, ◌++◌, arith, Bytes,
  length, All,
}
use giro.Ledger.Metadata.{find_metadata, find-put_metadata}
use giro.Storage.Schema.{Db, Transaction, Log}
use giro.Storage.Locking.{lock_volumes}
use giro.Storage.Rows.{is_empty}
use giro.Storage.Encoding.{Encoding}
use giro.Storage.Log.{append_log, append_log_entry, find_key, stored_log}
use giro.Storage.Log.Chain.{insert_log-eq-ok, same_bytes_refl}
use giro.Storage.Log.Keys.{logged_entry, find_key-append_log}
use giro.Storage.Commit.{Moment}
use giro.Storage.Commit.Inversion.{Appended, written-transaction, written-transactions}
use giro.Storage.Bulk.{BatchItem, batch_key, find_metadata, with_batch_tag, tagged, first_only}
use giro.Storage.Bulk.Entered.{Entered, item_attempt, item_commit}

-- A transaction with the tag of a batch.
abbrev pub IsTagged : Bytes → Transaction → Type 0
IsTagged hash t = find_metadata batch_key t.metadata ≡ some hash

pub tagged-append :
    (hash : Bytes) (ts us : List Transaction)
    → tagged hash (ts ++ us) ≡ tagged hash ts ++ tagged hash us
unfolding tagged
tagged-append hash [] us = refl
tagged-append hash (t ∷ ts) us = ground (arith, tagged-append hash ts us)

pub tagged-All :
    (hash : Bytes) (ts : List Transaction) → All (IsTagged hash) ts → tagged hash ts ≡ ts
unfolding tagged
tagged-All hash [] h = refl
tagged-All hash (t ∷ ts) h =
    rw (tagged, h.0, same_bytes_refl hash) (ap (λ us. t ∷ us) (tagged-All hash ts h.1))

pub find_key_grown :
    (key : Bytes) (logs more : List Log) (l : Log)
    → find_key key logs ≡ some l
    → find_key key (logs ++ more) ≡ some l
unfolding find_key
find_key_grown key [] more l h = cc
find_key_grown key (m ∷ ms) more l h = ground (arith, find_key_grown key ms more l)

module _ (e : Encoding) (m : Moment) (key ik_hash : Bytes) where
  module _ (i : ℕ) (item : BatchItem) (db : Db) (mid : Db) (t : Transaction)
      (x : Appended e
        (item_attempt m db)
        item.postings
        (item_commit i key ik_hash item)
        (first_only i ik_hash)
        mid
        t) where
    Appended-transactions : mid.transactions ≡ db.transactions ++ t ∷ []
    unfolding lock_volumes
    Appended-transactions =
        ap (λ d. d.transactions) x.result ∙ written-transactions x.by_apply.written

    Appended-IsTagged : is_empty key ≡ false → IsTagged ik_hash t
    unfolding with_batch_tag
    Appended-IsTagged keyed =
        ap (λ (s : Transaction). find_metadata batch_key s.metadata)
          (written-transaction x.by_apply.written)
        ∙ rw keyed (find-put_metadata batch_key ik_hash item.metadata)

    Appended-logs : (l : Log) × (mid.logs ≡ db.logs ++ l ∷ [])
    unfolding append_log append_log_entry lock_volumes
    Appended-logs =
        let entry = logged_entry e t x.alloc (first_only i key) (first_only i ik_hash) in
        (
          stored_log entry,
          ap (λ d. d.logs) x.result
              ∙ (insert_log-eq-ok entry x.applied.ledger x.applied.logs x.by_log).1
              ∙ ap (λ ls. ls ++ stored_log entry ∷ []) x.by_apply.written.logs,
        )

  -- What the items add to the tables.
  pub Entered-transactions :
      (i : ℕ) (items : List BatchItem) (db after : Db) (ts : List Transaction)
      → Entered e m key ik_hash i items db after ts
      → (after.transactions ≡ db.transactions ++ ts) × (length ts ≡ length items)
  Entered-transactions i [] db after ts (same, no_ts) = (
    ap (λ d. d.transactions) same
        ∙ sym (append-nil db.transactions)
        ∙ ap (λ us. db.transactions ++ us) (sym no_ts),
    ap length no_ts,
  )
  Entered-transactions i (item ∷ items) db after ts (mid, t, rest, x, more, same, _) =
      let (grown, count) = Entered-transactions (suc i) items mid after rest more in
      (
        grown
            ∙ ap (λ us. us ++ rest) (Appended-transactions i item db mid t x)
            ∙ append_assoc db.transactions (t ∷ []) rest
            ∙ ap (λ us. db.transactions ++ us) (sym same),
        ap length same ∙ ap suc count,
      )

  pub Entered-IsTagged :
      (i : ℕ) (items : List BatchItem) (db after : Db) (ts : List Transaction)
      → is_empty key ≡ false
      → Entered e m key ik_hash i items db after ts
      → All (IsTagged ik_hash) ts
  Entered-IsTagged i [] db after ts keyed (same, no_ts) =
      subst (All (IsTagged ik_hash)) (sym no_ts) tt
  Entered-IsTagged i (item ∷ items) db after ts keyed (mid, t, rest, x, more, same, _) =
      subst (All (IsTagged ik_hash)) (sym same) (
        Appended-IsTagged i item db mid t x keyed,
        Entered-IsTagged (suc i) items mid after rest keyed more,
      )

  pub Entered-logs :
      (i : ℕ) (items : List BatchItem) (db after : Db) (ts : List Transaction)
      → Entered e m key ik_hash i items db after ts
      → (new : List Log) × (after.logs ≡ db.logs ++ new)
  Entered-logs i [] db after ts (same, no_ts) =
      ([], ap (λ d. d.logs) same ∙ sym (append-nil db.logs))
  Entered-logs i (item ∷ items) db after ts (mid, t, rest, x, more, same, _) =
      let (l, first) = Appended-logs i item db mid t x in
      let (new, grown) = Entered-logs (suc i) items mid after rest more in
      (l ∷ new, grown ∙ ap (λ ls. ls ++ new) first ∙ append_assoc db.logs (l ∷ []) new)

  -- The first item's entry has the key, and the lookup finds it.
  pub Entered-find_key :
      (item : BatchItem) (items : List BatchItem) (db after : Db) (ts : List Transaction)
      → is_empty key ≡ false
      → find_key key db.logs ≡ none
      → Entered e m key ik_hash 0 (item ∷ items) db after ts
      → (l : Log) × (find_key key after.logs ≡ some l) × (l.idempotency_hash ≡ ik_hash)
  unfolding lock_volumes
  Entered-find_key item items db after ts keyed unused (mid, t, rest, x, more, same, _) =
      let entry = logged_entry e t x.alloc key ik_hash in
      let (new, grown) = Entered-logs 1 items mid after rest more in
      let found =
        find_key-append_log e t x.alloc key ik_hash x.applied.ledger x.applied.logs keyed
          (ap (find_key key) x.by_apply.written.logs ∙ unused) x.by_log in
      (
        entry,
        ap (find_key key) grown
            ∙ find_key_grown key mid.logs new entry
                (ap (λ d. find_key key d.logs) x.result ∙ found),
        refl,
      )
