-- ===== src/Storage/Encoding.antt =====
-- What the program takes from encoding/json, from jsonb columns and from crypto/sha256: payloads as
-- bytes, what comes back of rows and metadata, and a digest.
use giro.Prelude.{
  ℕ, ◌≡◌, Option, none, some, Result, ok, err, ◌>>=◌, Bytes, ◌+◌, ◌/◌, ◌%◌, [], ◌∷◌, ltb,
  if◌then◌else◌, All, ◌-◌, ℤ, List,
}
use giro.Ledger.Address.{Address}
use giro.Ledger.Posting.{Postings}
use giro.Ledger.Posting.Validation.{PostingIsValid}
use giro.Storage.Schema.{Transaction, Metadata, Time, Error, decode_failed}

-- `MetadataTargetType` with `TargetID`
pub data MetadataTarget : Type 0 where
  transaction_target : ℕ → MetadataTarget
  account_target : Address → MetadataTarget

-- ledger/log.go: `RecoveryPayload`
pub record RecoveryPayload : Type 0 where
  pub resumed_from : ℤ
  pub skipped_through : ℤ
  pub note : Bytes

-- what a log entry records, by its type
pub data Payload : Type 0 where
  new_transaction : Transaction → Payload
  reverted_transaction : ℕ → Transaction → Payload
  set_metadata : MetadataTarget → Metadata → Payload
  delete_metadata : MetadataTarget → Bytes → Payload
  recovery : RecoveryPayload → Payload

-- storage/log.go: `idempotencyInput`
pub record IdempotencyInput : Type 0 where
  pub postings : Postings
  pub timestamp : Time
  pub reference : Bytes
  pub metadata : Metadata

-- The bytes of a payload, and what `json.Unmarshal` makes of bytes, by the type it decodes into.
pub record Encoding : Type 0 where
  pub sha256 : Bytes → Bytes
  pub marshal : Payload → Bytes
  pub marshal_input : IdempotencyInput → Bytes
  pub marshal_inputs : List IdempotencyInput → Bytes
  pub unmarshal_transaction : Bytes → Option Transaction
  pub unmarshal_reverted : Bytes → Option (ℕ × Transaction)
  pub unmarshal_recovery : Bytes → Option RecoveryPayload
  -- `hydrateTransaction` on the columns that were written for a transaction; none is its error
  pub hydrate : Transaction → Option Transaction
  -- metadata as a `jsonb` column holds it: `json.Marshal` puts U+FFFD for what is not UTF-8, and the
  -- cast refuses a NUL
  pub jsonb : Metadata → Option Metadata

-- `hex.EncodeToString`
abbrev hex_digit : ℕ → ℕ
hex_digit d = if ltb d 10 then b'0' + d else b'a' + d - 10

unfoldable pub hex : Bytes → Bytes
hex [] = []
hex (b ∷ bs) = hex_digit (b / 16) ∷ hex_digit (b % 16) ∷ hex bs

-- The two round trips that a replay of the log relies on: ids and postings come back from JSON.
-- They are stated for postings that passed validation, whose texts are ASCII.
pub record RoundTrips (e : Encoding) : Type 0 where
  pub transaction :
      (t : Transaction)
      → All PostingIsValid t.postings
      → (d : Transaction) × (e.unmarshal_transaction (e.marshal (new_transaction t)) ≡ some d)
        × (d.id ≡ t.id)
        × (d.postings ≡ t.postings)
  pub reverted :
      (id : ℕ) (t : Transaction)
      → All PostingIsValid t.postings
      → (d : ℕ × Transaction) × (e.unmarshal_reverted (e.marshal (reverted_transaction id t))
          ≡ some d)
        × (d.1.id ≡ t.id)
        × (d.1.postings ≡ t.postings)

abbrev pub or_undecodable : Option Transaction → Result Error Transaction
or_undecodable none = err decode_failed
or_undecodable (some t) = ok t

-- the rows of a query, each through `hydrateTransaction`
unfoldable pub hydrate_all : Encoding → List Transaction → Result Error (List Transaction)
hydrate_all e [] = ok []
hydrate_all e (t ∷ ts) = do d ← or_undecodable (e.hydrate t); ds ← hydrate_all e ts; ok (d ∷ ds)

-- Ids and postings that passed validation come back from the columns of a transaction.
abbrev pub KeepsRows : Encoding → Type 0
KeepsRows e =
    (t : Transaction)
    → All PostingIsValid t.postings
    → (d : Transaction) × (e.hydrate t ≡ some d) × (d.id ≡ t.id) × (d.postings ≡ t.postings)
