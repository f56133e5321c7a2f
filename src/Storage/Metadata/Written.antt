-- ===== src/Storage/Metadata/Written.antt =====
-- What the changes of metadata leave in the ledger: rows with the new value, and a log that says so.
use mathlib.Core.Option.{some-injective}
use giro.Prelude.{
  ◌≡◌, refl, sym, ap, ◌∙◌, inl, inr, Bool, true, false, Option, some, List, [], ◌∷◌, ◌++◌, Result,
  ok, Option-cases, ◌>>=◌, ok-injective, err-ne-ok, ◌⊎◌, subst, >>=-eq-ok,
}
use giro.Storage.Schema.{Db, LedgerRow, Log, LogType, Error, Time}
use giro.Storage.Encoding.{Encoding, Payload}
use giro.Storage.Log.{Allocation, allocate_log_id, append_log_entry, stored_log}
use giro.Storage.Log.Chain.{
  IsChained, allocate_log_id-Follows, append_log_entry-IsChained, insert_log-eq-ok, entry_of,
  stored_log-content,
}
use giro.Storage.Bulk.Sound.{IsSound}
use giro.Storage.Metadata.{truncate_time, append_change, record_change, mutate_metadata}

-- The database with one entry more in its log, and nothing else but the ledger's row different.
pub record Logged (e : Encoding) (type : LogType) (payload : Payload) (db after : Db) : Type 0 where
  pub row : LedgerRow
  pub next : LedgerRow
  pub alloc : Allocation
  pub updated : Option LedgerRow
  pub logs : List Log
  pub date : Time
  pub found : db.ledger ≡ some row
  pub allocated : allocate_log_id (some row) ≡ ok (next, alloc)
  pub appended :
      append_log_entry e alloc type payload date [] [] (some next) db.logs ≡ ok (updated, logs)
  pub result : after ≡ record db { ledger = updated; logs = logs }

module _ (e : Encoding) where
  append_change-Logged :
      (date : Time) (type : LogType) (payload : Payload) (db : Db) {after : Db}
      → append_change e date type payload db ≡ ok after
      → Logged e type payload db after
  unfolding append_change allocate_log_id
  append_change-Logged date type payload db {after} h = elim (Option-cases db.ledger) [
    | inl absent ↦ absurd (err-ne-ok (rw (append_change, absent) at h))
    | inr (row, found) ↦
        let ((next, alloc), allocated, rest) =
          >>=-eq-ok (allocate_log_id db.ledger)
            (λ z.
              append_log_entry e z.1 type payload (truncate_time date) [] [] (some z.0) db.logs
              >>= λ w. ok (record db { ledger = w.0; logs = w.1 }))
            h in
        let ((updated, logs), appended, result) =
          >>=-eq-ok
            (append_log_entry e alloc type payload (truncate_time date) [] [] (some next) db.logs)
            (λ w. ok (record db { ledger = w.0; logs = w.1 })) rest in
        record {
          row = row;
          next = next;
          alloc = alloc;
          updated = updated;
          logs = logs;
          date = truncate_time date;
          found = found;
          allocated = ap allocate_log_id (sym found) ∙ allocated;
          appended = appended;
          result = sym (ok-injective result);
        }
  ]

  Logged-IsSound :
      {type : LogType} {payload : Payload} {db after : Db}
      → Logged e type payload db after
      → IsSound e db
      → IsSound e after
  Logged-IsSound {type} {payload} {db} x s =
      let (row, found, chained) = s.chained in
      let chained_row =
        subst (λ r. IsChained e r db.logs) (some-injective _ _ (sym found ∙ x.found)) chained in
      let kept =
        append_log_entry-IsChained e x.row x.next x.alloc type payload x.date [] [] db.logs
          (allocate_log_id-Follows x.row x.allocated) chained_row x.appended in
      subst (IsSound e) (sym x.result)
        (record { conserved = s.conserved; within = s.within; chained = kept; history = s.history })

  Logged-entry :
      {type : LogType} {payload : Payload} {db after : Db}
      → Logged e type payload db after
      → (entry : Log) × (entry.content ≡ e.marshal payload) × (after.logs ≡ db.logs ++ entry ∷ [])
  unfolding append_log_entry
  Logged-entry {type} {payload} {db} x =
      let entry = entry_of e x.alloc type payload x.date [] [] in
      let (_, appended) = insert_log-eq-ok entry (some x.next) db.logs x.appended in
      (stored_log entry, stored_log-content entry, ap (λ d. d.logs) x.result ∙ appended)

  -- What `mutateMetadata` makes of a change: nothing more if there was none, else an entry.
  abbrev pub Outcome : LogType → Payload → Db × Bool → Db → Type 0
  Outcome type payload (db, changed) after =
      ((changed ≡ false) × (after ≡ db)) ⊎ Logged e type payload db after

  record_change-Outcome :
      (date : Time) (type : LogType) (payload : Payload) (db : Db) (changed : Bool) {after : Db}
      → record_change e date type payload (db, changed) ≡ ok after
      → Outcome type payload (db, changed) after
  record_change-Outcome date type payload db true h =
      inr (append_change-Logged date type payload db h)
  record_change-Outcome date type payload db false h = inl (refl, sym (ok-injective h))

  pub mutate_metadata-Outcome :
      (date : Time) (applied : Result Error (Db × Bool)) (type : LogType) (payload : Payload)
      {after : Db}
      → mutate_metadata e date applied type payload ≡ ok after
      → (x : Db × Bool) × (applied ≡ ok x) × Outcome type payload x after
  unfolding mutate_metadata
  mutate_metadata-Outcome date applied type payload h =
      let ((db, changed), done, rest) = >>=-eq-ok applied (record_change e date type payload) h in
      ((db, changed), done, record_change-Outcome date type payload db changed rest)

  pub Outcome-IsSound :
      {type : LogType} {payload : Payload} {db after : Db} {changed : Bool}
      → Outcome type payload (db, changed) after
      → IsSound e db
      → IsSound e after
  Outcome-IsSound (inl (_, same)) s = subst (IsSound e) (sym same) s
  Outcome-IsSound (inr x) s = Logged-IsSound x s

  -- The trail of a change: the database is as it was, or its log has one entry more, of the payload.
  abbrev pub IsRecorded : Payload → Db → Db → Type 0
  IsRecorded payload db after =
      (after ≡ db)
      ⊎ ((entry : Log) × (entry.content ≡ e.marshal payload) × (after.logs ≡ db.logs ++ entry ∷ []))

  pub Outcome-IsRecorded :
      {type : LogType} {payload : Payload} {db applied after : Db} {changed : Bool}
      → Outcome type payload (applied, changed) after
      → (changed ≡ false → applied ≡ db)
      → applied.logs ≡ db.logs
      → IsRecorded payload db after
  Outcome-IsRecorded (inl (unchanged, same)) idle logs = inl (same ∙ idle unchanged)
  Outcome-IsRecorded (inr x) idle logs =
      let (entry, content, appended) = Logged-entry x in
      inr (entry, content, appended ∙ ap (λ ls. ls ++ entry ∷ []) logs)

  pub Outcome-transactions :
      {type : LogType} {payload : Payload} {db after : Db} {changed : Bool}
      → Outcome type payload (db, changed) after
      → after.transactions ≡ db.transactions
  Outcome-transactions (inl (_, same)) = ap (λ d. d.transactions) same
  Outcome-transactions (inr x) = ap (λ d. d.transactions) x.result

  pub Outcome-accounts :
      {type : LogType} {payload : Payload} {db after : Db} {changed : Bool}
      → Outcome type payload (db, changed) after
      → after.accounts ≡ db.accounts
  Outcome-accounts (inl (_, same)) = ap (λ d. d.accounts) same
  Outcome-accounts (inr x) = ap (λ d. d.accounts) x.result

  pub Outcome-volumes :
      {type : LogType} {payload : Payload} {db after : Db} {changed : Bool}
      → Outcome type payload (db, changed) after
      → after.volumes ≡ db.volumes
  Outcome-volumes (inl (_, same)) = ap (λ d. d.volumes) same
  Outcome-volumes (inr x) = ap (λ d. d.volumes) x.result
