-- ===== src/Storage/Tests/Codec.antt =====
-- An encoding of transactions that keeps ids and postings, for the runs of the store.
use mathlib.Core.Option.{some-injective}
use giro.Prelude.{
  ◌≢◌, ite, subst, sym, Bytes-discrete, ℕ, zero, suc, ◌≡◌, refl, ap, ◌∙◌, Bool, true, false, Option,
  none, some, [], ◌∷◌, ◌++◌, ℤ, pos, negsuc, Bytes, length, take, drop,
}
use giro.Ledger.Posting.{Posting, Postings}
use giro.Ledger.Metadata.{put_metadata, merge_metadata, HasNoKey, IsMap}
use giro.Storage.Schema.{Transaction, Metadata}
use giro.Storage.Encoding.{KeepsRows, Encoding, Payload, RoundTrips, RecoveryPayload}
use giro.Storage.Metadata.Merged.{StoresMaps}
use giro.Storage.Recovery.Declared.{KeepsRecoveries}

abbrev write_bytes : Bytes → Bytes → Bytes
write_bytes bs rest = length bs ∷ bs ++ rest

abbrev read_bytes : Bytes → Bytes × Bytes
read_bytes [] = ([], [])
read_bytes (n ∷ xs) = (take n xs, drop n xs)

take-append : (bs rest : Bytes) → take (length bs) (bs ++ rest) ≡ bs
take-append [] rest = refl
take-append (b ∷ bs) rest = ap (λ xs. b ∷ xs) (take-append bs rest)

drop-append : (bs rest : Bytes) → drop (length bs) (bs ++ rest) ≡ rest
drop-append [] rest = refl
drop-append (b ∷ bs) rest = drop-append bs rest

abbrev write_amount : Option ℤ → Bytes → Bytes
write_amount none rest = 0 ∷ 0 ∷ rest
write_amount (some (pos n)) rest = 1 ∷ n ∷ rest
write_amount (some (negsuc n)) rest = 2 ∷ n ∷ rest

abbrev amount_at : ℕ → ℕ → Option ℤ
amount_at zero n = none
amount_at (suc zero) n = some (pos n)
amount_at (suc (suc m)) n = some (negsuc n)

abbrev read_amount : Bytes → Option ℤ × Bytes
read_amount [] = (none, [])
read_amount (tag ∷ []) = (none, [])
read_amount (tag ∷ n ∷ rest) = (amount_at tag n, rest)

abbrev write_flag : Bool → Bytes → Bytes
write_flag true rest = 1 ∷ rest
write_flag false rest = 0 ∷ rest

abbrev read_flag : Bytes → Bool × Bytes
read_flag [] = (false, [])
read_flag (zero ∷ rest) = (false, rest)
read_flag (suc n ∷ rest) = (true, rest)

abbrev write_posting : Posting → Bytes → Bytes
write_posting s rest = write_bytes s.source (
    write_bytes s.destination
      (write_bytes s.asset (write_amount s.amount (write_flag s.up_to rest))))

abbrev read_posting : Bytes → Posting × Bytes
read_posting bs =
    let (source, r1) = read_bytes bs in
    let (destination, r2) = read_bytes r1 in
    let (asset, r3) = read_bytes r2 in
    let (amount, r4) = read_amount r3 in
    let (up_to, r5) = read_flag r4 in
    (
      record {
        source = source;
        destination = destination;
        asset = asset;
        amount = amount;
        up_to = up_to;
      },
      r5,
    )

read-write_parts :
    (source destination asset : Bytes) (amount : Option ℤ) (up_to : Bool) (rest : Bytes)
    → let s : Posting = record {
      source = source;
      destination = destination;
      asset = asset;
      amount = amount;
      up_to = up_to;
    } in
      read_posting (write_posting s rest) ≡ (s, rest)
read-write_parts source destination asset none true rest = simp (take-append, drop-append)
read-write_parts source destination asset none false rest = simp (take-append, drop-append)
read-write_parts source destination asset (some (pos n)) true rest = simp (take-append, drop-append)
read-write_parts source destination asset (some (pos n)) false rest =
    simp (take-append, drop-append)
read-write_parts source destination asset (some (negsuc n)) true rest =
    simp (take-append, drop-append)
read-write_parts source destination asset (some (negsuc n)) false rest =
    simp (take-append, drop-append)

read-write_posting : (s : Posting) (rest : Bytes) → read_posting (write_posting s rest) ≡ (s, rest)
read-write_posting s rest = read-write_parts s.source s.destination s.asset s.amount s.up_to rest

abbrev write_postings : Postings → Bytes
write_postings [] = []
write_postings (s ∷ p) = write_posting s (write_postings p)

abbrev read_postings : ℕ → Bytes → Postings
read_postings zero bs = []
read_postings (suc n) bs = let (s, rest) = read_posting bs in s ∷ read_postings n rest

read-write_postings : (p : Postings) → read_postings (length p) (write_postings p) ≡ p
read-write_postings [] = refl
read-write_postings (s ∷ p) =
    ap (λ z. z.0 ∷ read_postings (length p) z.1) (read-write_posting s (write_postings p))
    ∙ ap (λ q. s ∷ q) (read-write_postings p)

abbrev write_transaction_bytes : Transaction → Bytes
write_transaction_bytes t = t.id ∷ length t.postings ∷ write_postings t.postings

abbrev bare : ℕ → Postings → Transaction
bare id p = record {
  id = id;
  postings = p;
  timestamp = 0;
  inserted_at = 0;
  reverted_at = none;
  reference = [];
  metadata = [];
  post_commit_volumes = [];
}

abbrev read_transaction : Bytes → Option Transaction
read_transaction [] = none
read_transaction (id ∷ []) = none
read_transaction (id ∷ n ∷ rest) = some (bare id (read_postings n rest))

abbrev with_id : ℕ → Option Transaction → Option (ℕ × Transaction)
with_id id none = none
with_id id (some t) = some (id, t)

abbrev read_reverted : Bytes → Option (ℕ × Transaction)
read_reverted [] = none
read_reverted (id ∷ rest) = with_id id (read_transaction rest)

abbrev write_recovery : RecoveryPayload → Bytes
write_recovery p = write_amount (some p.resumed_from) (write_amount (some p.skipped_through) p.note)

abbrev recovery_of : Option ℤ → Option ℤ → Bytes → Option RecoveryPayload
recovery_of (some from) (some through) note =
    some (record { resumed_from = from; skipped_through = through; note = note })
recovery_of _ _ note = none

abbrev read_recovery : Bytes → Option RecoveryPayload
read_recovery bs =
    let (from, r1) = read_amount bs in
    let (through, r2) = read_amount r1 in recovery_of from through r2

-- the digest is the text itself
abbrev pub toy : Encoding
toy = record {
  sha256 = λ bs. bs;
  marshal = λ p. elim p [
    | Payload.new_transaction t ↦ write_transaction_bytes t
    | Payload.reverted_transaction id t ↦ id ∷ write_transaction_bytes t
    | Payload.recovery p ↦ write_recovery p
    | _ ↦ []
  ];
  marshal_input = λ i. i.reference;
  marshal_inputs = λ is. [];
  unmarshal_transaction = read_transaction;
  unmarshal_reverted = read_reverted;
  unmarshal_recovery = read_recovery;
  hydrate = λ t. some t;
  jsonb = λ m. some (merge_metadata [] m);
}

pub toy-RoundTrips : RoundTrips toy
toy-RoundTrips = record {
  transaction = λ t valid. (
    bare t.id (read_postings (length t.postings) (write_postings t.postings)),
    refl,
    refl,
    read-write_postings t.postings,
  );
  reverted = λ id t valid. (
    (id, bare t.id (read_postings (length t.postings) (write_postings t.postings))),
    refl,
    refl,
    read-write_postings t.postings,
  );
}

ite-either :
    (P : Metadata → Type 0) {Q : Type 0} (d : Dec Q) (x y : Metadata)
    → (Q → P x)
    → (¬ Q → P y)
    → P (ite d x y)
ite-either P (yes q) x y here there = here q
ite-either P (no nq) x y here there = there nq

put-HasNoKey :
    (j k v : Bytes) (m : Metadata) → j ≢ k → HasNoKey j m → HasNoKey j (put_metadata k v m)
unfolding put_metadata
put-HasNoKey j k v [] other h = (other, tt)
put-HasNoKey j k v ((i, w) ∷ m) other h =
    ite-either (HasNoKey j) (Bytes-discrete k i) ((k, v) ∷ m) ((i, w) ∷ put_metadata k v m)
      (λ same. (other, h.1)) (λ different. (h.0, put-HasNoKey j k v m other h.1))

put-IsMap : (k v : Bytes) (m : Metadata) → IsMap m → IsMap (put_metadata k v m)
unfolding put_metadata
put-IsMap k v [] h = (tt, tt)
put-IsMap k v ((i, w) ∷ m) h =
    ite-either IsMap (Bytes-discrete k i) ((k, v) ∷ m) ((i, w) ∷ put_metadata k v m)
      (λ same. (subst (λ j. HasNoKey j m) (sym same) h.0, h.1))
      (λ different. (put-HasNoKey i k v m (λ same. different (sym same)) h.0, put-IsMap k v m h.1))

merge-IsMap : (m new : Metadata) → IsMap m → IsMap (merge_metadata m new)
unfolding merge_metadata
merge-IsMap m [] h = h
merge-IsMap m ((k, v) ∷ new) h = merge-IsMap (put_metadata k v m) new (put-IsMap k v m h)

pub toy-StoresMaps : StoresMaps toy
toy-StoresMaps m stored h = subst IsMap (some-injective _ _ h) (merge-IsMap [] m tt)

pub toy-KeepsRows : KeepsRows toy
toy-KeepsRows t valid = (t, refl, refl, refl)

pub toy-KeepsRecoveries : KeepsRecoveries toy
toy-KeepsRecoveries p _ _ = (p, kept p.resumed_from p.skipped_through p.note, refl, refl)
  where
    kept :
        (from through : ℤ) (note : Bytes)
        → let p : RecoveryPayload = record {
          resumed_from = from;
          skipped_through = through;
          note = note;
        } in
          read_recovery (write_recovery p) ≡ some p
    kept (pos a) (pos b) note = refl
    kept (pos a) (negsuc b) note = refl
    kept (negsuc a) (pos b) note = refl
    kept (negsuc a) (negsuc b) note = refl
