-- ===== src/Storage/Log.antt =====
-- storage/allocate.go, storage/log.go and `ChainHash` of ledger/log.go: ids, the hash chain, and the
-- idempotency keys.
pub mod Chain
pub mod Keys
pub mod Verified
use giro.Prelude.{
  ℕ, ◌+◌, Bool, false, ◌&&◌, ◌||◌, Option, none, some, List, [], ◌∷◌, ◌++◌, if◌then◌else◌, ◌==◌,
  any, Result, ok, err, ◌>>=◌, Bytes, eqb_ℤ, ◌+ℤ◌, pos,
}
use giro.Storage.Schema.{
  LedgerRow, Log, LogType, log_new_transaction, log_recovery, Transaction, Time, Error,
  ledger_not_found, unique_violation, idempotency_mismatch, decode_failed, chain_broken,
}
use giro.Storage.Rows.{is_empty, same_bytes}
use giro.Storage.Encoding.{
  Encoding, Payload, new_transaction, IdempotencyInput, RecoveryPayload, hex,
}

pub record Allocation : Type 0 where
  pub transaction_id : ℕ
  pub log_id : ℕ
  pub previous_hash : Bytes

-- `allocate`: both counters go up, and the chain tip is read
unfoldable pub allocate : Option LedgerRow → Result Error (LedgerRow × Allocation)
allocate none = err ledger_not_found
allocate (some l) = ok (
  record l { last_tx_id = l.last_tx_id + 1; last_log_id = l.last_log_id + 1 },
  record {
    transaction_id = l.last_tx_id + 1;
    log_id = l.last_log_id + 1;
    previous_hash = l.last_log_hash;
  },
)

-- `allocateLogID`
unfoldable pub allocate_log_id : Option LedgerRow → Result Error (LedgerRow × Allocation)
allocate_log_id none = err ledger_not_found
allocate_log_id (some l) = ok (
  record l { last_log_id = l.last_log_id + 1 },
  record { transaction_id = 0; log_id = l.last_log_id + 1; previous_hash = l.last_log_hash },
)

-- the primary key (ledger, id), and the unique index on a key that is not null
unfoldable pub clashes : Log → Log → Bool
clashes l row =
    l.id == row.id
    || (if is_empty l.idempotency_key
        then false
        else same_bytes l.idempotency_key row.idempotency_key)

-- `insertLog`: without a key the hash of the request is not stored either
unfoldable pub stored_log : Log → Log
stored_log l = if is_empty l.idempotency_key then record l { idempotency_hash = [] } else l

-- `update ledgers set last_log_hash = $6`
abbrev pub set_tip : Bytes → Option LedgerRow → Option LedgerRow
set_tip hash none = none
set_tip hash (some row) = some (record row { last_log_hash = hash })

unfoldable pub insert_log :
    Log → Option LedgerRow → List Log → Result Error (Option LedgerRow × List Log)
unfolding clashes stored_log
insert_log l row logs =
    if any (clashes l) logs
    then err unique_violation
    else ok (set_tip l.hash row, logs ++ stored_log l ∷ [])

-- the row that the query on the key returns
unfoldable pub find_key : Bytes → List Log → Option Log
find_key key [] = none
find_key key (l ∷ ls) = if same_bytes key l.idempotency_key then some l else find_key key ls

module _ (e : Encoding) where
  -- `ChainHash`
  unfoldable pub chain_hash : Bytes → Bytes → Bytes
  chain_hash previous content = e.sha256 (previous ++ content)

  -- `appendLogEntry`, of a payload that `json.Marshal` does not refuse
  unfoldable pub append_log_entry :
      Allocation
      → LogType
      → Payload
      → Time
      → Bytes
      → Bytes
      → Option LedgerRow
      → List Log
      → Result Error (Option LedgerRow × List Log)
  unfolding chain_hash insert_log
  append_log_entry a type payload date key ik_hash row logs =
      let content = e.marshal payload in
      insert_log
        (record {
          id = a.log_id;
          type = type;
          date = date;
          content = content;
          hash = chain_hash a.previous_hash content;
          idempotency_key = key;
          idempotency_hash = ik_hash;
        })
        row logs

  -- `appendLog`
  unfoldable pub append_log :
      Transaction
      → Allocation
      → Bytes
      → Bytes
      → Option LedgerRow
      → List Log
      → Result Error (Option LedgerRow × List Log)
  unfolding append_log_entry
  append_log t a key ik_hash row logs =
      append_log_entry a log_new_transaction (new_transaction t) t.inserted_at key ik_hash row logs

  -- `idempotencyHash`
  unfoldable pub idempotency_hash : IdempotencyInput → Bytes
  unfolding hex
  idempotency_hash input = hex (e.sha256 (e.marshal_input input))

  abbrev pub replayed : Bytes → Option Log → Result Error (Option Transaction)
  replayed want none = ok none
  replayed want (some l) =
      if same_bytes l.idempotency_hash want
      then elim (e.unmarshal_transaction l.content) [
        | none ↦ err decode_failed
        | some t ↦ ok (some t)
      ]
      else err idempotency_mismatch

  -- `findByIdempotencyKey`: none when the key is unused
  unfoldable pub find_by_idempotency_key :
      Bytes → Bytes → List Log → Result Error (Option Transaction)
  unfolding find_key
  find_by_idempotency_key key want logs = replayed want (find_key key logs)

  -- `declaredGap`
  abbrev pub declared_gap : Log → Result Error (Option RecoveryPayload)
  declared_gap l = elim l.type [
    | log_recovery ↦ elim (e.unmarshal_recovery l.content) [
      | none ↦ err (chain_broken l.id)
      | some p ↦ ok (some p)
    ]
    | _ ↦ ok none
  ]

  -- whether a gap before entry `id` is the one that a payload declares
  abbrev pub declares : ℕ → ℕ → Option RecoveryPayload → Bool
  declares expected id none = false
  declares expected id (some p) =
      eqb_ℤ (p.resumed_from +ℤ pos 1) (pos expected) && eqb_ℤ (p.skipped_through +ℤ pos 1) (pos id)

  -- the test on the id in the loop of `VerifyLog`
  abbrev pub check_id : ℕ → Log → Result Error (Unit {0})
  check_id expected l = if l.id == expected then ok tt else (do
    declared ← declared_gap l
    if declares expected l.id declared then ok tt else err (chain_broken l.id))

  -- the loop of `VerifyLog`: the entries checked, and the error that stopped it
  unfoldable pub verify_from : Bytes → ℕ → ℕ → List Log → ℕ × Option Error
  unfolding chain_hash
  verify_from previous expected checked [] = (checked, none)
  verify_from previous expected checked (l ∷ ls) =
      let rest = verify_from l.hash (l.id + 1) (checked + 1) ls in
      elim (check_id expected l) [
        | err broken ↦ (checked, some broken)
        | ok _ ↦
            if same_bytes (chain_hash previous l.content) l.hash
            then rest
            else (checked, some (chain_broken l.id))
      ]

  -- `VerifyLog`; the table is kept in the order of the ids
  unfoldable pub verify_log : List Log → ℕ × Option Error
  unfolding verify_from
  verify_log logs = verify_from [] 1 0 logs
