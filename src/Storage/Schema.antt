-- ===== src/Storage/Schema.antt =====
-- The rows of one ledger in the database (migrations/*.sql, as the SQL in storage/*.go uses them),
-- the domain records that they hold (ledger/transaction.go, ledger/log.go), and the errors.
use giro.Prelude.{ℕ, Bool, Option, List, ℤ, Bytes}
use giro.Ledger.Address.{Address}
use giro.Ledger.Asset.{Asset}
use giro.Ledger.Metadata.{MetadataFault}
use giro.Ledger.Posting.{Postings, PostingFault}
use giro.Ledger.Volumes.{Key, Volumes}

-- Nanoseconds since Go's zero time, so that `IsZero` is a test for 0.
abbrev pub Time : Type 0
Time = ℕ

abbrev pub Metadata : Type 0
Metadata = List (Bytes × Bytes)

-- `PostCommitVolumes`, a map of maps, as one map from pairs
abbrev pub PostCommitVolumes : Type 0
PostCommitVolumes = List (Key × Volumes)

pub record Transaction : Type 0 where
  pub id : ℕ
  pub postings : Postings
  pub timestamp : Time
  pub inserted_at : Time
  pub reverted_at : Option Time
  pub reference : Bytes
  pub metadata : Metadata
  pub post_commit_volumes : PostCommitVolumes

pub data LogType : Type 0 where
  log_new_transaction log_reverted_transaction log_set_metadata : LogType
  log_delete_metadata log_recovery : LogType

-- a row of `logs`; an empty key is the column's null
pub record Log : Type 0 where
  pub id : ℕ
  pub type : LogType
  pub date : Time
  pub content : Bytes
  pub hash : Bytes
  pub idempotency_key : Bytes
  pub idempotency_hash : Bytes

-- a row of `accounts_volumes`
pub record VolumeRow : Type 0 where
  pub key : Key
  pub volumes : Volumes
  pub allow_negative : Bool
  pub allow_positive : Bool

-- a row of `accounts`
pub record AccountRow : Type 0 where
  pub address : Address
  pub first_usage : Time
  pub insertion_date : Time
  pub updated_at : Time
  pub metadata : Metadata
  pub closed : Bool

-- a row of `moves`; the table is kept in the order of `seq`
pub record MoveRow : Type 0 where
  pub tx_id : ℕ
  pub key : Key
  pub amount : ℤ
  pub is_source : Bool
  pub effective_date : Time
  pub insertion_date : Time
  pub pcv : Volumes
  pub pcev : Volumes

-- the row of `ledgers`
pub record LedgerRow : Type 0 where
  pub last_tx_id : ℕ
  pub last_log_id : ℕ
  pub last_log_hash : Bytes

-- What the database holds of one ledger. `ledger` is none until the ledger is created.
pub record Db : Type 0 where
  pub ledger : Option LedgerRow
  pub assets : List Asset
  pub volumes : List VolumeRow
  pub accounts : List AccountRow
  pub transactions : List Transaction
  pub moves : List MoveRow
  pub logs : List Log

pub data Error : Type 0 where
  no_postings : Error
  posting_error : ℕ → PostingFault → Error
  nil_amount : ℕ → Error
  ledger_not_found : Error
  unknown_asset : Asset → Asset → Error
  -- account and asset, available, requested
  insufficient_funds : Key → ℤ → ℤ → Error
  -- account and asset, balance
  unexpected_credit : Key → ℤ → Error
  unbounded_sweep : Key → Error
  account_closed : Address → Error
  duplicate_reference : Bytes → Error
  rows_affected : Key → ℕ → Error
  not_found : ℕ → Error
  already_reverted : ℕ → Error
  idempotency_mismatch : Error
  chain_broken : ℕ → Error
  decode_failed : Error
  -- 40P01, 40001, 23505
  deadlock_detected serialization_failure unique_violation : Error
  cancelled : Error
  giving_up : Error
  -- any other failure of the database
  database_failure : Error
  invalid_address : Error
  invalid_asset_name : Error
  world_must_allow_negative : Error
  account_closure_refused : Error
  account_not_empty : Error
  not_closed : Error
  batch_too_large : Error
  -- the item's index in the batch, and what it met
  batch_item : ℕ → Error → Error
  empty_metadata : Error
  invalid_metadata : MetadataFault → Error
  -- 22P05, a NUL in the text for a jsonb column
  untranslatable_character : Error
  account_not_found : Address → Error
