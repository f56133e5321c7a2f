-- ===== src/Storage/Log/Chain.antt =====
-- The hash chain of the log: appending the next entry to a chain that verifies.
use giro.Prelude.{
  ℕ, ◌+◌, ◌≡◌, refl, sym, ap, ◌∙◌, subst, true, false, Option, none, some, List, [], ◌∷◌, ◌++◌,
  Result, ok, err, inl, inr, arith, Bytes, Bool-cases, ok-injective, err-ne-ok, any, ◌⊎◌, ==_iff,
}
use giro.Storage.Schema.{Log, LogType, Time, Error, LedgerRow}
use giro.Storage.Rows.{same_bytes}
use giro.Storage.Encoding.{Encoding, Payload}
use giro.Storage.Log.{
  chain_hash, check_id, verify_from, verify_log, Allocation, append_log_entry, insert_log,
  stored_log, clashes, set_tip, allocate, allocate_log_id,
}

pub same_bytes_refl : (bs : Bytes) → same_bytes bs bs ≡ true
same_bytes_refl bs = ground arith

-- What the entry after a list of entries follows: the last hash, and the id that is due.
abbrev pub chain_end : Bytes → ℕ → List Log → Bytes × ℕ
chain_end previous expected [] = (previous, expected)
chain_end previous expected (l ∷ ls) = chain_end l.hash (l.id + 1) ls

check_id-cases : (r : Result Error (Unit {0})) → (r ≡ ok tt) ⊎ ((broken : Error) × (r ≡ err broken))
check_id-cases (ok tt) = inl refl
check_id-cases (err broken) = inr (broken, refl)

-- The facts of an allocation that the entry under it relies on.
pub record Follows (l row : LedgerRow) (a : Allocation) : Type 0 where
  pub log_id : a.log_id ≡ l.last_log_id + 1
  pub previous_hash : a.previous_hash ≡ l.last_log_hash
  pub last_log_id : row.last_log_id ≡ l.last_log_id + 1

pub stored_log-id : (l : Log) → (stored_log l).id ≡ l.id
unfolding stored_log
stored_log-id l = ground arith

pub stored_log-hash : (l : Log) → (stored_log l).hash ≡ l.hash
unfolding stored_log
stored_log-hash l = ground arith

pub stored_log-content : (l : Log) → (stored_log l).content ≡ l.content
unfolding stored_log
stored_log-content l = ground arith

pub stored_log-type : (l : Log) → (stored_log l).type ≡ l.type
unfolding stored_log
stored_log-type l = ground arith

pub insert_log-eq-ok :
    (l : Log) (row : Option LedgerRow) (logs : List Log) {row' : Option LedgerRow}
    {logs' : List Log}
    → insert_log l row logs ≡ ok (row', logs')
    → (row' ≡ set_tip l.hash row) × (logs' ≡ logs ++ stored_log l ∷ [])
unfolding insert_log
insert_log-eq-ok l row logs h = elim (Bool-cases (any (clashes l) logs)) [
  | inl clash ↦ absurd (err-ne-ok (rw (insert_log, clash) at h))
  | inr fresh ↦
      let same = ok-injective (rw (insert_log, fresh) at h) in
      (sym (ap (λ z. z.0) same), sym (ap (λ z. z.1) same))
]

pub allocate-Follows :
    (l : LedgerRow) {row : LedgerRow} {a : Allocation}
    → allocate (some l) ≡ ok (row, a)
    → Follows l row a
unfolding allocate
allocate-Follows l h =
    subst (λ z. Follows l z.0 z.1) (ok-injective h)
      (record { log_id = refl; previous_hash = refl; last_log_id = refl })

pub allocate_log_id-Follows :
    (l : LedgerRow) {row : LedgerRow} {a : Allocation}
    → allocate_log_id (some l) ≡ ok (row, a)
    → Follows l row a
unfolding allocate_log_id
allocate_log_id-Follows l h =
    subst (λ z. Follows l z.0 z.1) (ok-injective h)
      (record { log_id = refl; previous_hash = refl; last_log_id = refl })

module _ (e : Encoding) where
  -- One round of the loop, one equation for each way that it goes.
  pub verify_from_sound :
      (previous : Bytes) (expected checked : ℕ) (l : Log) (ls : List Log)
      → check_id e expected l ≡ ok tt
      → same_bytes (chain_hash e previous l.content) l.hash ≡ true
      → verify_from e previous expected checked (l ∷ ls)
        ≡ verify_from e l.hash (l.id + 1) (checked + 1) ls
  unfolding verify_from
  verify_from_sound previous expected checked l ls due linked = rw (verify_from, due, linked)

  verify_from_gap :
      (previous : Bytes) (expected checked : ℕ) (l : Log) (ls : List Log) (broken : Error)
      → check_id e expected l ≡ err broken
      → verify_from e previous expected checked (l ∷ ls) ≡ (checked, some broken)
  unfolding verify_from
  verify_from_gap previous expected checked l ls broken gap = rw (verify_from, gap)

  verify_from_unlinked :
      (previous : Bytes) (expected checked : ℕ) (l : Log) (ls : List Log)
      → check_id e expected l ≡ ok tt
      → same_bytes (chain_hash e previous l.content) l.hash ≡ false
      → verify_from e previous expected checked (l ∷ ls) ≡ (checked, some (Error.chain_broken l.id))
  unfolding verify_from
  verify_from_unlinked previous expected checked l ls due unlinked = rw (verify_from, due, unlinked)

  -- The first entry of a chain that verifies is due and linked.
  abbrev pub IsLinked : Bytes → ℕ → Log → Type 0
  IsLinked previous expected l =
      (check_id e expected l ≡ ok tt) × (same_bytes (chain_hash e previous l.content) l.hash ≡ true)

  pub verify_from-IsLinked :
      (previous : Bytes) (expected checked : ℕ) (l : Log) (ls : List Log) {n : ℕ}
      → verify_from e previous expected checked (l ∷ ls) ≡ (n, none)
      → IsLinked previous expected l
  verify_from-IsLinked previous expected checked l ls h =
      elim (check_id-cases (check_id e expected l)) [
        | inr (broken, gap) ↦
            let stopped = sym (verify_from_gap previous expected checked l ls broken gap) ∙ h in
            absurd (cc (ap (λ z. z.1) stopped))
        | inl due ↦ elim (Bool-cases (same_bytes (chain_hash e previous l.content) l.hash)) [
          | inl linked ↦ (due, linked)
          | inr unlinked ↦
              let stopped =
                sym (verify_from_unlinked previous expected checked l ls due unlinked) ∙ h in
              absurd (cc (ap (λ z. z.1) stopped))
        ]
      ]

  -- A chain that verifies still does when an entry that is due, or declares the gap before it,
  -- comes after it, linked to its end.
  pub verify_from-append :
      (previous : Bytes) (expected checked : ℕ) (ls : List Log) (l : Log) {n : ℕ}
      → verify_from e previous expected checked ls ≡ (n, none)
      → check_id e (chain_end previous expected ls).1 l ≡ ok tt
      → l.hash ≡ chain_hash e (chain_end previous expected ls).0 l.content
      → verify_from e previous expected checked (ls ++ l ∷ []) ≡ (n + 1, none)
  verify_from-append previous expected checked [] l {n} h due linked =
      verify_from_sound previous expected checked l [] due (rw (← linked) (same_bytes_refl l.hash))
      ∙ unfold verify_from in (ap (λ z. (z.0 + 1, none)) (unfold verify_from in h))
  verify_from-append previous expected checked (m ∷ ls) l h due linked =
      let (m_due, m_linked) = verify_from-IsLinked previous expected checked m ls h in
      verify_from_sound previous expected checked m (ls ++ l ∷ []) m_due m_linked
      ∙ verify_from-append m.hash (m.id + 1) (checked + 1) ls l
          (sym (verify_from_sound previous expected checked m ls m_due m_linked) ∙ h) due linked

  chain_end-append :
      (previous : Bytes) (expected : ℕ) (ls : List Log) (l : Log)
      → chain_end previous expected (ls ++ l ∷ []) ≡ (l.hash, l.id + 1)
  chain_end-append previous expected [] l = refl
  chain_end-append previous expected (m ∷ ls) l = chain_end-append m.hash (m.id + 1) ls l

  -- The log verifies to its end, and the ledger's row holds where it ends.
  pub record IsChained (row : LedgerRow) (logs : List Log) : Type 0 where
    pub count : ℕ
    pub verified : verify_log e logs ≡ (count, none)
    pub tip : chain_end [] 1 logs ≡ (row.last_log_hash, row.last_log_id + 1)

  -- The entry that a ledger's row allows next, in its place or behind a gap that it declares.
  pub checked-IsChained :
      (l row : LedgerRow) (logs : List Log) (entry : Log)
      → IsChained l logs
      → check_id e (l.last_log_id + 1) entry ≡ ok tt
      → entry.id ≡ row.last_log_id
      → entry.hash ≡ chain_hash e l.last_log_hash entry.content
      → IsChained (record row { last_log_hash = entry.hash }) (logs ++ entry ∷ [])
  checked-IsChained l row logs entry c due last linked = record {
    count = c.count + 1;
    verified =
        unfold verify_log in
        verify_from-append [] 1 0 logs entry (unfold verify_log in c.verified)
          (ap (λ z. check_id e z.1 entry) c.tip ∙ due)
          (linked ∙ ap (λ z. chain_hash e z.0 entry.content) (sym c.tip));
    tip = chain_end-append [] 1 logs entry ∙ ap (λ n. (entry.hash, n + 1)) last;
  }

  pub check_id_due : (expected : ℕ) (l : Log) → l.id ≡ expected → check_id e expected l ≡ ok tt
  check_id_due expected l due = rw ((==_iff l.id expected).1 due)

  append-IsChained :
      (l row : LedgerRow) (a : Allocation) (logs : List Log) (entry : Log)
      → Follows l row a
      → IsChained l logs
      → entry.id ≡ a.log_id
      → entry.hash ≡ chain_hash e a.previous_hash entry.content
      → IsChained (record row { last_log_hash = entry.hash }) (logs ++ entry ∷ [])
  append-IsChained l row a logs entry f c due linked =
      checked-IsChained l row logs entry c (check_id_due _ entry (due ∙ f.log_id))
        (due ∙ f.log_id ∙ sym f.last_log_id)
        (linked ∙ ap (λ h. chain_hash e h entry.content) f.previous_hash)

  abbrev pub entry_of : Allocation → LogType → Payload → Time → Bytes → Bytes → Log
  entry_of a type payload date key ik_hash = record {
    id = a.log_id;
    type = type;
    date = date;
    content = e.marshal payload;
    hash = chain_hash e a.previous_hash (e.marshal payload);
    idempotency_key = key;
    idempotency_hash = ik_hash;
  }

  -- `appendLogEntry` under an allocation that follows a chain extends the chain by one entry.
  pub append_log_entry-IsChained :
      (l row : LedgerRow) (a : Allocation) (type : LogType) (payload : Payload) (date : Time)
      (key ik_hash : Bytes) (logs : List Log) {ledger' : Option LedgerRow} {logs' : List Log}
      → Follows l row a
      → IsChained l logs
      → append_log_entry e a type payload date key ik_hash (some row) logs ≡ ok (ledger', logs')
      → (row' : LedgerRow) × (ledger' ≡ some row') × IsChained row' logs'
  unfolding append_log_entry
  append_log_entry-IsChained l row a type payload date key ik_hash logs f c h =
      let entry = entry_of a type payload date key ik_hash in
      let (updated, appended) = insert_log-eq-ok entry (some row) logs h in
      (
        record row { last_log_hash = (stored_log entry).hash },
        updated ∙ ap (λ x. some (record row { last_log_hash = x })) (sym (stored_log-hash entry)),
        subst (IsChained (record row { last_log_hash = (stored_log entry).hash })) (sym appended) (
            append-IsChained l row a logs (stored_log entry) f c (stored_log-id entry) (
              stored_log-hash entry
              ∙ ap (chain_hash e a.previous_hash) (sym (stored_log-content entry)))),
      )
