-- ===== src/Lib.antt =====
-- giro: a double-entry ledger over a relational database, written in Go.
--
-- The program commits lists of postings, each a movement of an amount of one asset between two
-- accounts, as transactions. The package ledger/ holds the data and what can be computed without a
-- database: validation, the deltas of a list of postings, reversal. The package storage/ runs a
-- commit inside one database transaction: it locks the volume rows of the accounts concerned in a
-- fixed order, resolves postings with a ceiling against what is held, checks closures and balances,
-- writes the rows, and appends an entry to a hash-chained log, which also carries the idempotency
-- keys. Around it stand a retry loop for conflicts, batches of commits, reversals, permissions,
-- closures, the position of a ledger that is recorded against a restore, and checks that compare the
-- stored rows with one another and with the log. The package fx/ builds and checks exchanges of one
-- asset for another on top of it.
--
-- The files and the code that they model:
--   Prelude         shared names; Prelude/Int has Go's *big.Int as unbounded integers over the native
--                   numbers, Prelude/Results a call that returns a value or an error, Prelude/Text
--                   strings as lists of bytes with their order
--   Ledger/Address  ledger/address.go   the regular expression as a recogniser
--   Ledger/Asset    ledger/asset.go     the same, with the scale and the code of an asset
--   Ledger/Posting  ledger/posting.go   Validate, HasUpTo, Reverse
--   Ledger/Metadata ledger/transaction.go Metadata.Validate, and the operators of jsonb on metadata
--   Ledger/Volumes  ledger/volumes.go   VolumeUpdates: the index, then the sort of its entries
--   Storage/Schema  migrations/*.sql, ledger/transaction.go, ledger/log.go, storage/errors.go: the
--                   tables of one ledger as lists of rows (the record Db), and the errors
--   Storage/Locking storage/volumes.go  lockVolumes, applyVolumes
--   Storage/Guards, Storage/Sweep, Storage/Commit
--                   storage/commit.go, storage/retry.go: checkBalances, checkClosed, resolveUpTo,
--                   applyTransaction, commitOnce, and the loop of CommitTransaction
--   Storage/Moves   storage/moves.go    the rows of moves and their two histories; Moves/History has
--                   the sums that an effective snapshot is to carry
--   Storage/Rows    storage/rows.go     the inserts of transactions and accounts, idempotencyRace
--   Storage/Encoding, Storage/Log
--                   storage/allocate.go, storage/log.go: ids, the chain, the keys, VerifyLog
--   Storage/Assets  storage/assets.go   RegisterAsset, checkAssets with its cache
--   Storage/Policy  storage/policy.go   permissions to hold a balance on either side of zero
--   Storage/Closure storage/closure.go  closing, reopening, VerifyClosedAccounts
--   Storage/Revert  storage/revert.go   revertOnce and its loop
--   Storage/Projection storage/verify.go  replayLog, VerifyProjection
--   Storage/Conservation storage/verify_runs.go  VerifyConservation
--   Storage/Effective storage/effective.go  what an account held at a date; Effective/Order and
--                   Effective/Sums have the order of the replay and the sums that it runs
--   Storage/Runs    storage/verify_runs.go, storage/stale.go: Verify, what is stale, the record of runs
--   Storage/Metadata storage/metadata.go and two reads of storage/read.go: Metadata/Targets has the row
--                   that a change names, Metadata/Written the log, Metadata/Steps the four operations
--                   as steps of the ledger
--   Storage/Bulk    storage/bulk.go     CommitBatch: Bulk/Entered has what a batch does item by item,
--                   Bulk/Sound its invariants, Bulk/Keyed the key of a batch
--   Storage/Recovery storage/recovery.go, cmd/giro/recover.go: tips, CheckTip, RecordRecovery;
--                   Recovery/Text has String and ParseTip with base64
--   Fx              fx/conversion.go, fx/verify.go: conversions at a stated rate, and their check
--   Storage/Page    storage/page.go and the lists of transactions and log entries in storage/read.go
-- The modules below each of these hold its lemmas and theorems, the modules Tests hold runs on
-- concrete data and the theorems at them.
--
-- How state is modelled. A database transaction is a function from Db to an error, which leaves the
-- database as it was, or to the database that COMMIT leaves. Statements are functions on rows: an
-- insert checks the unique indexes that the code relies on, an update goes over the rows that its
-- condition selects. The order in which transactions interleave shows in an Attempt: it has the
-- database that the lookup of an idempotency key reads, the one that is there once the row locks are
-- held, the error that the database reports at the end if it does not commit, and whether the
-- context is cancelled in the backoff. Since the locks are held until COMMIT, nothing else writes to
-- the locked rows in between. The retry loop runs over a function from the number of an attempt to an
-- Attempt, so every sequence of conflicts is covered. Queries and updates that touch other rows
-- than the locked ones see the same database as the rest of the attempt.
--
-- Bounds and fuel. Amounts are unbounded, as in the source, with its guard of 333 bits. The retry
-- loop recurses on the number of attempts left, of which the source allows ten. The decimal form of
-- an id recurses on a number that is larger than its count of digits. Everything else recurses on
-- its lists. A walk over pages recurses on the number of pages that may be read; one more than there
-- are rows is enough. Times are nanoseconds since Go's zero time.
--
-- What is a parameter. SHA-256, the JSON of log entries, what a read makes of the columns written
-- for a transaction (hydrate), and what a jsonb column makes of metadata (jsonb: text that is not
-- UTF-8 is coerced, a NUL is refused) are fields of the record Encoding. The theorems on replays
-- take as a hypothesis that JSON gives back the ids and postings of transactions whose postings are
-- valid (the records RoundTrips and KeepsRows), that on recoveries that it gives back the two ids
-- of a payload, that on metadata that a jsonb object has one value at a key; Storage/Tests/Codec
-- has an encoding for which these hold. What big.Rat.SetString makes of a rate that is no plain
-- decimal is a parameter of Fx. The JSON of cursors (the record CursorJson, with what the walk over
-- pages relies on in KeepsCursors) is a parameter of Storage/Page, the texts of findings, of stale
-- balances and of the error of their query are parameters of Storage/Runs.
--
-- What is not modelled. Telemetry, the two test seams, the length of the backoff, and the text of
-- errors are left out. So are the database's triggers and roles, which repeat checks of the code,
-- and the parts of the repository that are I/O over these components: the HTTP handlers of
-- internal/api and the command line of cmd/giro. Balances, moves and statements as reads of
-- storage/, and the packages recon/, migrate/ and obs/ have no counterpart here. A commit keeps the
-- metadata that it is given in the row of its transaction as it is; only the reads that return a
-- replayed batch or a transaction by its id apply hydrate. A failure of json.Marshal on a log
-- entry, a counter at the last int64, and the order in which the checks list closed accounts and
-- balances that are not permitted are left out too. The lookup of closed accounts takes no lock,
-- and an account that is closed between that lookup and the end of the commit may receive what the
-- commit posts: the code leaves this to VerifyClosedAccounts. In an attempt the lookup reads the
-- same Db as the rest, and closures of other sessions are stated beside it, in the theorem on
-- apply_transaction and close_rows.
pub mod Prelude
pub mod Ledger
pub mod Storage
pub mod Fx
