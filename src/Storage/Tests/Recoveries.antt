-- ===== src/Storage/Tests/Recoveries.antt =====
-- Tips and recoveries of a concrete ledger.
use giro.Prelude.{
  ◌++◌, ◌≡◌, refl, none, some, [], ◌∷◌, ok, err, ◌⊎◌, Bytes, Bytes-discrete, codes, arith, pos,
}
use giro.Ledger.Tests.{deposit}
use giro.Storage.Schema.{Db, LedgerRow, Log, log_set_metadata, log_recovery}
use giro.Storage.Revert.{digits_from}
use giro.Storage.Commit.Chained.{IsChainedDb, commit_once-IsChainedDb}
use giro.Storage.Recovery.{
  Tip, tip_of, chain_tip, check_tip, tip_mismatch, chain_behind, record_recovery, resume_watermark,
}
use giro.Storage.Recovery.Declared.{
  IsResumed, record_recovery-IsChainedDb, record_recovery-IsResumed, resume-moves_current,
}
use giro.Storage.Recovery.Compared.{Compared, check_tip-Compared, commit_once-tip}
use giro.Storage.Recovery.Text.{to_string, parse_tip}
use giro.Storage.Recovery.Text.Parsed.{kept, parse_tip-to_string}
use giro.Storage.Tests.{
  genesis, logged_deposit, deposit_content, attempt_on, keyed, commit-deposit, genesis-IsChainedDb,
}
use giro.Storage.Tests.Codec.{toy, toy-KeepsRecoveries}

abbrev main_name : Bytes
main_name = codes "main"

abbrev deposit_row : LedgerRow
deposit_row = record { last_tx_id = 1; last_log_id = 1; last_log_hash = deposit_content }

-- a tip recorded before a restore that lost four entries
abbrev lost : Tip
lost = record { ledger = main_name; tx_id = pos 3; log_id = pos 5; hash = 1 ∷ 2 ∷ 3 ∷ [] }

recover-lost :
    (d : Db) × (record_recovery toy lost (codes "n") 7000 logged_deposit logged_deposit ≡ ok d)
unfolding record_recovery Bytes-discrete
recover-lost = (_, refl)

deposit-IsChainedDb : IsChainedDb toy logged_deposit
deposit-IsChainedDb =
    commit_once-IsChainedDb toy (attempt_on genesis none) deposit (keyed (codes "k")) (codes "h")
      genesis-IsChainedDb commit-deposit

record_recovery-IsChainedDb_example : IsChainedDb toy recover-lost.0
record_recovery-IsChainedDb_example =
    record_recovery-IsChainedDb toy lost (codes "n") 7000 logged_deposit logged_deposit deposit_row
      toy-KeepsRecoveries deposit-IsChainedDb refl
      ((omega arith, omega arith), (omega arith, omega arith), omega arith, omega arith)
      recover-lost.1

record_recovery-IsResumed_example :
    IsResumed lost deposit_row recover-lost.0
    × (record_recovery toy lost (codes "n") 7000 recover-lost.0 recover-lost.0 ≡ ok recover-lost.0)
record_recovery-IsResumed_example =
    record_recovery-IsResumed toy lost (codes "n") 7000 logged_deposit logged_deposit deposit_row
      deposit_row
      (record { read = refl; locked = refl; log_grown = omega arith; tx_grown = omega arith })
      recover-lost.1

-- the lost entry is not there, and the log entry 6 declares the gap before it
check-lost :
    check_tip main_name logged_deposit lost
    ≡ err (tip_mismatch lost (tip_of main_name deposit_row) chain_behind)
unfolding check_tip
check-lost = refl

check_tip-Compared_example :
    Compared lost deposit_row main_name logged_deposit.logs
      (check_tip main_name logged_deposit lost)
check_tip-Compared_example = check_tip-Compared main_name logged_deposit deposit_row lost refl

commit_once-tip_example :
    (logged_deposit ≡ genesis)
    ⊎ ((tip : Tip) × (chain_tip main_name logged_deposit ≡ ok tip)
        × (check_tip main_name recover-lost.0 tip ≡ ok tt))
unfolding record_recovery recover-lost Bytes-discrete
commit_once-tip_example =
    commit_once-tip toy main_name (attempt_on genesis none) deposit (keyed (codes "k")) (codes "h")
      recover-lost.0 _ _ genesis-IsChainedDb commit-deposit refl refl

-- A ledger at log entry 3 with one transaction: its other entries changed metadata.
abbrev edit : Log
edit = record {
  id = 3;
  type = log_set_metadata;
  date = 6000;
  content = [];
  hash = 9 ∷ [];
  idempotency_key = [];
  idempotency_hash = [];
}

abbrev edited : Db
edited = record genesis {
  ledger = some (record { last_tx_id = 1; last_log_id = 3; last_log_hash = 9 ∷ [] });
  logs = edit ∷ [];
}

abbrev current : Tip
current = record { ledger = main_name; tx_id = pos 0; log_id = pos 3; hash = 9 ∷ [] }

check-current : check_tip main_name edited current ≡ ok tt
unfolding check_tip Bytes-discrete
check-current = refl

resume-edited :
    (d : Db) × (record_recovery toy (resume_watermark current) [] 7000 edited edited ≡ ok d)
unfolding record_recovery resume_watermark Bytes-discrete
resume-edited = (_, refl)

resume-moves_current_example :
    (row : LedgerRow) × (resume-edited.0.ledger ≡ some row)
    × (row.last_tx_id ≡ 3)
    × (row.last_log_id ≡ 4)
    × ((entry : Log) × (entry.type ≡ log_recovery)
        × (entry.id ≡ 4)
        × (resume-edited.0.logs ≡ edited.logs ++ entry ∷ []))
resume-moves_current_example =
    resume-moves_current toy [] 7000 edited
      (record { last_tx_id = 1; last_log_id = 3; last_log_hash = 9 ∷ [] }) current 3 refl refl
      (omega arith) (omega arith) resume-edited.1

parse_tip-to_string_example : parse_tip (to_string lost) ≡ some (kept lost 5)
parse_tip-to_string_example =
    parse_tip-to_string lost 5 (omega arith) refl (omega arith) (omega arith)

text-lost : to_string lost ≡ codes "main:5:AQID"
unfolding to_string digits_from
text-lost = refl
