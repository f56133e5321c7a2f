-- ===== src/Storage/Recovery/Declared.antt =====
-- A recovery leaves a log that verifies and counters above the watermark.
use mathlib.Core.Option.{some-injective}
use giro.Prelude.{
  neg_part, ◌^◌, List, [], ◌∷◌, ◌++◌, ltb, ℤ, negsuc, pos_part, ◌<◌, ℕ, ◌+◌, ◌≤◌, ◌≡◌, refl, sym,
  ap, ◌∙◌, subst, true, false, Option, none, some, List, Result, ok, err, if◌then◌else◌,
  ok-injective, inl, inr, ◌⊎◌, arith, Bytes, Bool-cases, pos, ◌≤ℤ◌, ◌+ℤ◌,
}
use giro.Storage.Schema.{Db, LedgerRow, Log, Time, Error, log_recovery}
use giro.Storage.Encoding.{Encoding, Payload, RecoveryPayload}
use giro.Storage.Log.{check_id, chain_hash, insert_log, stored_log, declares}
use giro.Storage.Log.Chain.{
  IsChained, checked-IsChained, check_id_due, insert_log-eq-ok, stored_log-id, stored_log-hash,
  stored_log-content, stored_log-type,
}
use giro.Storage.Commit.Chained.{IsChainedDb}
use giro.Storage.Recovery.{
  Tip, is_past, resumed_row, recovery_payload, recovery_entry, append_recovery, record_recovery,
  with_entry, max64, resume_watermark,
}

-- What a recovery that wrote has done, on the row that it found under the lock.
pub record Recovered (e : Encoding) (watermark : Tip) (note : Bytes) (now : Time) (db after : Db)
    : Type 0 where
  pub row : LedgerRow
  pub found : db.ledger ≡ some row
  pub short : is_past watermark row ≡ false
  pub by_log :
      insert_log
        (recovery_entry e watermark note now row)
        (some (resumed_row watermark row))
        db.logs
      ≡ ok (after.ledger, after.logs)
  pub result : after ≡ record db { ledger = after.ledger; logs = after.logs }

insert_log-with_entry :
    (db : Db) (r : Result Error (Option LedgerRow × List Log)) {after : Db}
    → with_entry db r ≡ ok after
    → (r ≡ ok (after.ledger, after.logs))
      × (after ≡ record db { ledger = after.ledger; logs = after.logs })
insert_log-with_entry db (err error) h = cc
insert_log-with_entry db (ok (row, logs)) h =
    let same = ok-injective h in
    (
      ap (λ d. ok (d.ledger, d.logs)) same,
      subst (λ d. d ≡ record db { ledger = d.ledger; logs = d.logs }) same refl,
    )

-- An `int64`.
abbrev pub IsInt64 : ℤ → Type 0
IsInt64 z = (pos_part z < 2 ^ 63) × (neg_part z ≤ 2 ^ 63)

-- A payload decodes from its JSON, and both of its ids come back. Nothing is said of the note: what
-- is not UTF-8 in it does not come back.
abbrev pub KeepsRecoveries : Encoding → Type 0
KeepsRecoveries e =
    (p : RecoveryPayload)
    → IsInt64 p.resumed_from
    → IsInt64 p.skipped_through
    → (d : RecoveryPayload) × (e.unmarshal_recovery (e.marshal (Payload.recovery p)) ≡ some d)
      × (d.resumed_from ≡ p.resumed_from)
      × (d.skipped_through ≡ p.skipped_through)

-- Nothing was written, since a row that was read is past the watermark.
abbrev Unneeded : Tip → Db → Db → Db → Type 0
Unneeded watermark seen db after =
    (after ≡ db)
    × ((row : LedgerRow) × ((seen.ledger ≡ some row) ⊎ (db.ledger ≡ some row))
        × (is_past watermark row ≡ true))

module _ (e : Encoding) (watermark : Tip) (note : Bytes) (now : Time) where
  append_recovery-cases :
      (seen db : Db) (o : Option LedgerRow) {after : Db}
      → db.ledger ≡ o
      → append_recovery e watermark note now db o ≡ ok after
      → Unneeded watermark seen db after ⊎ Recovered e watermark note now db after
  append_recovery-cases seen db none found h = cc
  append_recovery-cases seen db (some row) found h = elim (Bool-cases (is_past watermark row)) [
    | inl past ↦ inl (sym (ok-injective (rw past at h)), (row, inr found, past))
    | inr short ↦
        let (logged, result) = insert_log-with_entry db _ (rw short at h) in
        inr (record { row = row; found = found; short = short; by_log = logged; result = result })
  ]

  -- A recovery that succeeds changes nothing, or appends its entry under the lock.
  pub record_recovery-cases :
      (seen db : Db) {after : Db}
      → record_recovery e watermark note now seen db ≡ ok after
      → Unneeded watermark seen db after ⊎ Recovered e watermark note now db after
  unfolding record_recovery
  record_recovery-cases seen db {after} h = go seen.ledger refl h
    where
      go :
          (o : Option LedgerRow)
          → seen.ledger ≡ o
          → elim o as (λ _. Result Error Db) [
            | none ↦ err Error.ledger_not_found
            | some row ↦
                if is_past watermark row
                then ok db
                else append_recovery e watermark note now db db.ledger
          ]
            ≡ ok after
          → Unneeded watermark seen db after ⊎ Recovered e watermark note now db after
      go none read h = cc
      go (some row) read h = elim (Bool-cases (is_past watermark row)) [
        | inl past ↦ inl (sym (ok-injective (rw past at h)), (row, inl read, past))
        | inr short ↦ append_recovery-cases seen db db.ledger refl (rw short at h)
      ]

check_id_declared :
    (e : Encoding) (expected : ℕ) (l : Log) (p : RecoveryPayload)
    → l.type ≡ log_recovery
    → l.content ≡ e.marshal (Payload.recovery p)
    → KeepsRecoveries e
    → IsInt64 p.resumed_from
    → IsInt64 p.skipped_through
    → declares e expected l.id (some p) ≡ true
    → check_id e expected l ≡ ok tt
check_id_declared e expected l p typed stored keeps from_fits through_fits declared =
    let (d, decoded, from, through) = keeps p from_fits through_fits in
    let same : declares e expected l.id (some d) ≡ true = rw (from, through) declared in
    ground (arith, decoded, ap e.unmarshal_recovery stored, same)

-- The entry's id is the next one, or stands behind the gap that its payload declares.
entry_id_cases :
    (e : Encoding) (last : ℕ) (through : ℤ) (note : Bytes)
    → let id = pos_part (max64 (pos last) through) + 1 in
      let p : RecoveryPayload = record {
        resumed_from = pos last;
        skipped_through = through;
        note = note;
      } in
      (id ≡ last + 1) ⊎ (declares e (last + 1) id (some p) ≡ true)
unfolding ◌+ℤ◌
entry_id_cases e last (negsuc n) note = inl (ground arith)
entry_id_cases e last (pos n) note = elim (Bool-cases (ltb n last)) [
  | inl below ↦ inl (ground arith)
  | inr above ↦ inr (ground arith)
]

-- The counter of the log and the watermark are short of the last `int64`, so that Go's sum of the
-- next id does not wrap.
abbrev pub HasRoom : Tip → LedgerRow → Type 0
HasRoom watermark row =
    IsInt64 watermark.log_id
    × IsInt64 (pos row.last_log_id)
    × (pos_part watermark.log_id + 1 < 2 ^ 63)
    × (row.last_log_id + 1 < 2 ^ 63)

Recovered-checked :
    (e : Encoding) (watermark : Tip) (note : Bytes) (now : Time) (row : LedgerRow)
    → KeepsRecoveries e
    → HasRoom watermark row
    → let entry = stored_log (recovery_entry e watermark note now row) in
      check_id e (row.last_log_id + 1) entry ≡ ok tt
Recovered-checked e watermark note now row keeps room =
    let entry = recovery_entry e watermark note now row in
    elim (entry_id_cases e row.last_log_id watermark.log_id note) [
      | inl next ↦ check_id_due e _ (stored_log entry) (stored_log-id entry ∙ next)
      | inr gap ↦
          check_id_declared e _ (stored_log entry) (recovery_payload watermark note row)
            (stored_log-type entry) (stored_log-content entry) keeps room.1 room.0
            (ap
                (λ id.
                  declares e (row.last_log_id + 1) id (some (recovery_payload watermark note row)))
                (stored_log-id entry)
              ∙ gap)
    ]

-- If VerifyLog accepts the log and the row of the ledger holds its last hash and last id, that is
-- so after a RecordRecovery that succeeds, gap and all, given that JSON brings back the two ids of
-- a recovery payload (those of the int64 range), and that the last log id and that of the watermark
-- are ids below the last int64.
pub record_recovery-IsChainedDb :
    (e : Encoding) (watermark : Tip) (note : Bytes) (now : Time) (seen db : Db) (row : LedgerRow)
    {after : Db}
    → KeepsRecoveries e
    → IsChainedDb e db
    → db.ledger ≡ some row
    → HasRoom watermark row
    → record_recovery e watermark note now seen db ≡ ok after
    → IsChainedDb e after
record_recovery-IsChainedDb e watermark note now seen db row {after} keeps (held, found, chained)
      locked room h =
    elim (record_recovery-cases e watermark note now seen db h) [
      | inl (same, _) ↦ subst (IsChainedDb e) (sym same) (held, found, chained)
      | inr x ↦
          let entry = recovery_entry e watermark note now x.row in
          let resumed = resumed_row watermark x.row in
          let (updated, appended) = insert_log-eq-ok entry (some resumed) db.logs x.by_log in
          let chained_row =
            subst (λ r. IsChained e r db.logs) (some-injective _ _ (sym found ∙ x.found)) chained in
          let kept =
            checked-IsChained e x.row resumed db.logs (stored_log entry) chained_row
              (Recovered-checked e watermark note now x.row keeps
                (subst (HasRoom watermark) (some-injective _ _ (sym locked ∙ x.found)) room))
              (stored_log-id entry)
              (stored_log-hash entry
                ∙ ap (chain_hash e x.row.last_log_hash) (sym (stored_log-content entry))) in
          (
            record resumed { last_log_hash = (stored_log entry).hash },
            updated
                ∙ ap (λ s. some (record resumed { last_log_hash = s }))
                    (sym (stored_log-hash entry)),
            subst (IsChained e (record resumed { last_log_hash = (stored_log entry).hash }))
                (sym appended) kept,
          )
    ]

-- The counters of a row are at or past a tip's.
abbrev pub Reaches : Tip → LedgerRow → Type 0
Reaches t row = (t.log_id ≤ℤ pos row.last_log_id) × (t.tx_id ≤ℤ pos row.last_tx_id)

is_past-Reaches : (t : Tip) (row : LedgerRow) → is_past t row ≡ true → Reaches t row
is_past-Reaches t row h = ground arith

Reaches-is_past : (t : Tip) (row : LedgerRow) → Reaches t row → is_past t row ≡ true
Reaches-is_past t row h = ground arith

max64_bounds :
    (n : ℕ) (w : ℤ) → (w ≤ℤ pos (pos_part (max64 (pos n) w))) × (n ≤ pos_part (max64 (pos n) w))
max64_bounds n (pos m) = ground arith
max64_bounds n (negsuc m) = ground arith

max64_twice :
    (n : ℕ) (w : ℤ) → let m = pos_part (max64 (pos n) (max64 (pos n) w)) in (w ≤ℤ pos m) × (n ≤ m)
max64_twice n (pos m) = ground arith
max64_twice n (negsuc m) = ground arith

-- What a recovery leaves when the row under the lock is short of the watermark.
pub Recovered-resumed :
    {e : Encoding} {watermark : Tip} {note : Bytes} {now : Time} {db after : Db}
    → (x : Recovered e watermark note now db after)
    → (row' : LedgerRow) × (after.ledger ≡ some row')
      × Reaches watermark row'
      × (x.row.last_log_id < row'.last_log_id)
      × (x.row.last_tx_id ≤ row'.last_tx_id)
Recovered-resumed {e} {watermark} {note} {now} {db} x =
    let entry = recovery_entry e watermark note now x.row in
    let resumed = resumed_row watermark x.row in
    let (updated, _) = insert_log-eq-ok entry (some resumed) db.logs x.by_log in
    let (w_log, n_log) = max64_bounds x.row.last_log_id watermark.log_id in
    let (w_tx, n_tx) = max64_twice x.row.last_tx_id watermark.tx_id in
    (record resumed { last_log_hash = entry.hash }, updated, (omega arith, w_tx), omega arith, n_tx)

-- A recovery in progress: the row that is read first, and the row under the lock, which other
-- commits have only moved on.
pub record Reads (seen db : Db) (first row : LedgerRow) : Type 0 where
  pub read : seen.ledger ≡ some first
  pub locked : db.ledger ≡ some row
  pub log_grown : first.last_log_id ≤ row.last_log_id
  pub tx_grown : first.last_tx_id ≤ row.last_tx_id

-- What a recovery promises of the counters: they reach the watermark, and none went down.
abbrev pub IsResumed : Tip → LedgerRow → Db → Type 0
IsResumed watermark row after =
    (row' : LedgerRow) × (after.ledger ≡ some row')
    × Reaches watermark row'
    × (row.last_log_id ≤ row'.last_log_id)
    × (row.last_tx_id ≤ row'.last_tx_id)

record_recovery_again :
    (e : Encoding) (watermark : Tip) (note : Bytes) (now : Time) (after : Db) (row : LedgerRow)
    → after.ledger ≡ some row
    → is_past watermark row ≡ true
    → record_recovery e watermark note now after after ≡ ok after
unfolding record_recovery
record_recovery_again e watermark note now after row found past = ground arith

-- If other commits only raise the counters between its two reads, a RecordRecovery that succeeds
-- leaves both counters at or past the watermark and neither lower than before, and to run it again
-- changes nothing.
pub record_recovery-IsResumed :
    (e : Encoding) (watermark : Tip) (note : Bytes) (now : Time) (seen db : Db)
    (first row : LedgerRow) {after : Db}
    → Reads seen db first row
    → record_recovery e watermark note now seen db ≡ ok after
    → IsResumed watermark row after × (record_recovery e watermark note now after after ≡ ok after)
record_recovery-IsResumed e watermark note now seen db first row {after} reads h =
    elim (record_recovery-cases e watermark note now seen db h) [
      | inl (same, (r, source, past)) ↦
          let (log, tx) = is_past-Reaches watermark r past in
          let (r_log, r_tx) = grown r source in
          let reached : Reaches watermark row = (omega arith, omega arith) in
          let found = ap (λ d. d.ledger) same ∙ reads.locked in
          (
            (row, found, reached, omega arith, omega arith),
            record_recovery_again e watermark note now after row found
                (Reaches-is_past watermark row reached),
          )
      | inr x ↦
          let same = some-injective _ _ (sym x.found ∙ reads.locked) in
          let (row', found, reached, log, tx) = Recovered-resumed x in
          (
            (
              row',
              found,
              reached,
              subst (λ r. r.last_log_id ≤ row'.last_log_id) same (omega arith),
              subst (λ r. r.last_tx_id ≤ row'.last_tx_id) same tx,
            ),
            record_recovery_again e watermark note now after row' found
                (Reaches-is_past watermark row' reached),
          )
    ]
  where
    grown :
        (r : LedgerRow)
        → (seen.ledger ≡ some r) ⊎ (db.ledger ≡ some r)
        → (r.last_log_id ≤ row.last_log_id) × (r.last_tx_id ≤ row.last_tx_id)
    grown r (inl read) =
        let same = some-injective _ _ (sym reads.read ∙ read) in
        (
          subst (λ q. q.last_log_id ≤ row.last_log_id) same reads.log_grown,
          subst (λ q. q.last_tx_id ≤ row.last_tx_id) same reads.tx_grown,
        )
    grown r (inr locked) =
        let same = some-injective _ _ (sym reads.locked ∙ locked) in
        (
          subst (λ q. q.last_log_id ≤ row.last_log_id) same (omega arith),
          subst (λ q. q.last_tx_id ≤ row.last_tx_id) same (omega arith),
        )

-- On a ledger that is at or past the log id that the text of a tip gives, but has issued fewer
-- transactions than that number, the command `recover resume`, if it succeeds, appends one entry of
-- the type of a recovery, with the next id, and moves the transaction counter to the tip's log id.
pub resume-moves_current :
    (e : Encoding) (note : Bytes) (now : Time) (db : Db) (row : LedgerRow) (t : Tip) (n : ℕ)
    {after : Db}
    → db.ledger ≡ some row
    → t.log_id ≡ pos n
    → n ≤ row.last_log_id
    → row.last_tx_id < n
    → record_recovery e (resume_watermark t) note now db db ≡ ok after
    → (row' : LedgerRow) × (after.ledger ≡ some row')
      × (row'.last_tx_id ≡ n)
      × (row'.last_log_id ≡ row.last_log_id + 1)
      × ((entry : Log) × (entry.type ≡ log_recovery)
          × (entry.id ≡ row.last_log_id + 1)
          × (after.logs ≡ db.logs ++ entry ∷ []))
unfolding resume_watermark
resume-moves_current e note now db row t n found named held fewer h =
    elim (record_recovery-cases e (resume_watermark t) note now db db h) [
      | inl (same, (r, source, past)) ↦
          let same_row = some-injective _ _ (sym found ∙ either r source) in
          let (log, tx) = is_past-Reaches (resume_watermark t) r past in
          absurd (
            omega
              (arith, subst (λ w. w ≤ℤ pos r.last_tx_id) named tx, ap (λ q. q.last_tx_id) same_row))
      | inr x ↦
          let entry = recovery_entry e (resume_watermark t) note now x.row in
          let (updated, appended) =
            insert_log-eq-ok entry (some (resumed_row (resume_watermark t) x.row)) db.logs
              x.by_log in
          let same_row = some-injective _ _ (sym found ∙ x.found) in
          (
            record (resumed_row (resume_watermark t) x.row) { last_log_hash = entry.hash },
            updated,
            rw named (rw (← same_row) (ground arith)),
            rw named (rw (← same_row) (ground arith)),
            (
              stored_log entry,
              stored_log-type entry,
              stored_log-id entry ∙ rw named (rw (← same_row) (ground arith)),
              appended,
            ),
          )
    ]
  where
    either : (r : LedgerRow) → (db.ledger ≡ some r) ⊎ (db.ledger ≡ some r) → db.ledger ≡ some r
    either r (inl read) = read
    either r (inr read) = read
