-- ===== src/Storage/Recovery.antt =====
-- storage/recovery.go: the position of a ledger, recorded before a restore and compared after it,
-- and the log entry that resumes a restored ledger above every id that it has issued.
pub mod Declared
pub mod Compared
pub mod Text
use giro.Prelude.{
  ℕ, ◌+◌, Bool, true, false, not, ◌&&◌, Option, none, some, List, [], ◌∷◌, if◌then◌else◌, Result,
  ok, err, Bytes, ℤ, pos, pos_part, ltb_ℤ, eqb_ℤ,
}
use giro.Storage.Schema.{Db, LedgerRow, Log, log_recovery, Time, Error, ledger_not_found}
use giro.Storage.Rows.{same_bytes}
use giro.Storage.Encoding.{Encoding, Payload, RecoveryPayload}
use giro.Storage.Log.{chain_hash, insert_log}

-- `Tip`; the ids are `int64`, and one that was read from a text may be below zero
pub record Tip : Type 0 where
  pub ledger : Bytes
  pub tx_id : ℤ
  pub log_id : ℤ
  pub hash : Bytes

abbrev pub tip_of : Bytes → LedgerRow → Tip
tip_of name row = record {
  ledger = name;
  tx_id = pos row.last_tx_id;
  log_id = pos row.last_log_id;
  hash = row.last_log_hash;
}

-- `ChainTip`, of the ledger with this name
unfoldable pub chain_tip : Bytes → Db → Result Error Tip
chain_tip name db = elim db.ledger [ none ↦ err ledger_not_found | some row ↦ ok (tip_of name row) ]

-- `ErrChainBehind`, `ErrChainForked`
pub data MismatchKind : Type 0 where
  chain_behind chain_forked : MismatchKind

-- the errors of `CheckTip`: those of the store, and `TipMismatch` with the expected and actual tip
pub data TipError : Type 0 where
  unread : Error → TipError
  tip_mismatch : Tip → Tip → MismatchKind → TipError

-- `select hash from logs where ledger = $1 and id = $2`
unfoldable pub find_entry : ℤ → List Log → Option Log
find_entry id [] = none
find_entry id (l ∷ ls) = if eqb_ℤ (pos l.id) id then some l else find_entry id ls

-- the entry at the recorded id, against the recorded hash
abbrev pub compare_entry : Tip → Tip → Option Log → Result TipError (Unit {0})
compare_entry expected actual none = err (tip_mismatch expected actual chain_behind)
compare_entry expected actual (some l) =
    if same_bytes l.hash expected.hash
    then ok tt
    else err (tip_mismatch expected actual chain_forked)

abbrev pub check_against : Tip → List Log → Result Error Tip → Result TipError (Unit {0})
check_against expected logs (err error) = err (unread error)
check_against expected logs (ok actual) =
    if eqb_ℤ expected.log_id (pos 0)
    then ok tt
    else compare_entry expected actual (find_entry expected.log_id logs)

-- `CheckTip`
unfoldable pub check_tip : Bytes → Db → Tip → Result TipError (Unit {0})
unfolding chain_tip find_entry
check_tip name db expected = check_against expected db.logs (chain_tip name db)

-- `max64`
abbrev pub max64 : ℤ → ℤ → ℤ
max64 a b = if ltb_ℤ b a then a else b

-- `lastLog >= watermark.LogID && lastTx >= watermark.TxID`
abbrev pub is_past : Tip → LedgerRow → Bool
is_past watermark row =
    not (ltb_ℤ (pos row.last_log_id) watermark.log_id)
    && not (ltb_ℤ (pos row.last_tx_id) watermark.tx_id)

-- the counters after `update ledgers set last_tx_id = greatest(...), last_log_id = $3`; neither
-- maximum is below zero, since the row's own counter is one of its sides; the sum is Go's as long as
-- the maximum is not the last int64
abbrev pub resumed_row : Tip → LedgerRow → LedgerRow
resumed_row watermark row = record row {
  last_tx_id = pos_part (max64 (pos row.last_tx_id) (max64 (pos row.last_tx_id) watermark.tx_id));
  last_log_id = pos_part (max64 (pos row.last_log_id) watermark.log_id) + 1;
}

abbrev pub recovery_payload : Tip → Bytes → LedgerRow → RecoveryPayload
recovery_payload watermark note row = record {
  resumed_from = pos row.last_log_id;
  skipped_through = watermark.log_id;
  note = note;
}

abbrev pub with_entry : Db → Result Error (Option LedgerRow × List Log) → Result Error Db
with_entry db (err error) = err error
with_entry db (ok (row, logs)) = ok (record db { ledger = row; logs = logs })

module _ (e : Encoding) where
  abbrev pub recovery_entry : Tip → Bytes → Time → LedgerRow → Log
  recovery_entry watermark note now row =
      let content = e.marshal (Payload.recovery (recovery_payload watermark note row)) in
      record {
        id = (resumed_row watermark row).last_log_id;
        type = log_recovery;
        date = now;
        content = content;
        hash = chain_hash e row.last_log_hash content;
        idempotency_key = [];
        idempotency_hash = [];
      }

  -- what is done with the row that is read again under its lock
  abbrev pub append_recovery : Tip → Bytes → Time → Db → Option LedgerRow → Result Error Db
  append_recovery watermark note now db none = err ledger_not_found
  append_recovery watermark note now db (some row) =
      if is_past watermark row
      then ok db
      else with_entry db (
          insert_log (recovery_entry watermark note now row) (some (resumed_row watermark row))
            db.logs)

  -- `RecordRecovery`: `seen` is what `ChainTip` reads, `db` what is there under the lock
  unfoldable pub record_recovery : Tip → Bytes → Time → Db → Db → Result Error Db
  unfolding chain_hash insert_log
  record_recovery watermark note now seen db = elim seen.ledger [
    | none ↦ err ledger_not_found
    | some row ↦
        if is_past watermark row then ok db else append_recovery watermark note now db db.ledger
  ]

-- cmd/giro/recover.go, `recoverResume`: the text of a tip has no transaction id, and the log id
-- stands in for it
unfoldable pub resume_watermark : Tip → Tip
resume_watermark tip = record {
  ledger = tip.ledger;
  tx_id = tip.log_id;
  log_id = tip.log_id;
  hash = [];
}
