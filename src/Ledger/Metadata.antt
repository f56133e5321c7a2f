-- ===== src/Ledger/Metadata.antt =====
-- ledger/transaction.go, `Metadata`: a map from strings to strings, as an association list.
use giro.Prelude.{
  ℕ, Bool, true, false, ◌&&◌, if◌then◌else◌, ltb, length, refl, sym, ◌∙◌, ap, inl, inr,
  Option-cases, ◌≡◌, ◌≢◌, Option, none, some, List, [], ◌∷◌, ite, arith, Bytes, Bytes-discrete,
}

-- ErrEmptyMetadataKey, ErrTooManyMetadataKeys, ErrMetadataKeyTooLong, ErrMetadataValueTooLong
pub data MetadataFault : Type 0 where
  empty_metadata_key too_many_metadata_keys : MetadataFault
  metadata_key_too_long metadata_value_too_long : MetadataFault

-- `MaxMetadataKeys`, `MaxMetadataKeyLength`, `MaxMetadataValueLength`
abbrev pub max_metadata_keys : ℕ
max_metadata_keys = 32

abbrev pub max_metadata_key_length : ℕ
max_metadata_key_length = 128

abbrev pub max_metadata_value_length : ℕ
max_metadata_value_length = 1024

abbrev pub is_blank : Bytes → Bool
is_blank [] = true
is_blank (c ∷ cs) = false

-- one round of the loop in `Validate`
unfoldable pub pair_fault : Bytes → Bytes → Option MetadataFault
pair_fault k v =
    if is_blank k
    then some empty_metadata_key
    else if ltb max_metadata_key_length (length k)
    then some metadata_key_too_long
    else if ltb max_metadata_value_length (length v)
    then some metadata_value_too_long
    else none

-- the loop; Go leaves the order of a map open, so of several faults any may be reported
unfoldable pub pairs_fault : List (Bytes × Bytes) → Option MetadataFault
unfolding pair_fault
pairs_fault [] = none
pairs_fault ((k, v) ∷ m) = elim (pair_fault k v) [ some fault ↦ some fault | none ↦ pairs_fault m ]

-- `Metadata.Validate`
unfoldable pub validate_metadata : List (Bytes × Bytes) → Option MetadataFault
unfolding pairs_fault
validate_metadata m =
    if ltb max_metadata_keys (length m) then some too_many_metadata_keys else pairs_fault m

-- `out[k] = v`
unfoldable pub put_metadata : Bytes → Bytes → List (Bytes × Bytes) → List (Bytes × Bytes)
put_metadata k v [] = (k, v) ∷ []
put_metadata k v ((j, w) ∷ m) = ite (Bytes-discrete k j) ((k, v) ∷ m) ((j, w) ∷ put_metadata k v m)

-- `metadata || $x`
unfoldable pub merge_metadata : List (Bytes × Bytes) → List (Bytes × Bytes) → List (Bytes × Bytes)
unfolding put_metadata
merge_metadata m [] = m
merge_metadata m ((k, v) ∷ new) = merge_metadata (put_metadata k v m) new

-- `metadata - $key`
unfoldable pub remove_key : Bytes → List (Bytes × Bytes) → List (Bytes × Bytes)
remove_key k [] = []
remove_key k ((j, w) ∷ m) =
    let rest = remove_key k m in ite (Bytes-discrete k j) rest ((j, w) ∷ rest)

-- `metadata->>$2`
unfoldable pub find_metadata : Bytes → List (Bytes × Bytes) → Option Bytes
find_metadata k [] = none
find_metadata k ((j, w) ∷ m) = ite (Bytes-discrete k j) (some w) (find_metadata k m)

-- `jsonb_exists(metadata, $3)`
abbrev pub is_some {ℓ} : {A : Type ℓ} → Option A → Bool
is_some none = false
is_some (some a) = true

unfoldable pub has_key : Bytes → List (Bytes × Bytes) → Bool
unfolding find_metadata
has_key k m = is_some (find_metadata k m)

-- `metadata @> $3`
abbrev pub is_value : Bytes → Option Bytes → Bool
is_value v none = false
is_value v (some w) = ite (Bytes-discrete v w) true false

unfoldable pub contains_metadata : List (Bytes × Bytes) → List (Bytes × Bytes) → Bool
unfolding find_metadata
contains_metadata m [] = true
contains_metadata m ((k, v) ∷ part) = is_value v (find_metadata k m) && contains_metadata m part

pub find-put_metadata :
    (k v : Bytes) (m : List (Bytes × Bytes)) → find_metadata k (put_metadata k v m) ≡ some v
unfolding find_metadata put_metadata
find-put_metadata k v [] = ground arith
find-put_metadata k v ((j, w) ∷ m) = ground (arith, find-put_metadata k v m)

pub find-put_other :
    (j k v : Bytes) (m : List (Bytes × Bytes))
    → j ≢ k
    → find_metadata j (put_metadata k v m) ≡ find_metadata j m
unfolding find_metadata put_metadata
find-put_other j k v [] other = ground arith
find-put_other j k v ((i, w) ∷ m) other = ground (arith, find-put_other j k v m)

-- The keys of a map are distinct.
abbrev pub HasNoKey : Bytes → List (Bytes × Bytes) → Type 0
HasNoKey k [] = Unit
HasNoKey k ((j, w) ∷ m) = (k ≢ j) × HasNoKey k m

abbrev pub IsMap : List (Bytes × Bytes) → Type 0
IsMap [] = Unit
IsMap ((k, v) ∷ m) = HasNoKey k m × IsMap m

pub find-merge_other :
    (j : Bytes) (m new : List (Bytes × Bytes))
    → HasNoKey j new
    → find_metadata j (merge_metadata m new) ≡ find_metadata j m
unfolding merge_metadata
find-merge_other j m [] h = refl
find-merge_other j m ((k, v) ∷ new) h =
    find-merge_other j (put_metadata k v m) new h.1 ∙ find-put_other j k v m h.0

pub contains-merge :
    (m new : List (Bytes × Bytes)) → IsMap new → contains_metadata (merge_metadata m new) new ≡ true
unfolding merge_metadata contains_metadata
contains-merge m [] h = refl
contains-merge m ((k, v) ∷ new) h =
    let found = find-merge_other k (put_metadata k v m) new h.0 ∙ find-put_metadata k v m in
    ground (arith, found, contains-merge (put_metadata k v m) new h.1)

pub find-remove_key :
    (k : Bytes) (m : List (Bytes × Bytes)) → find_metadata k (remove_key k m) ≡ none
unfolding find_metadata remove_key
find-remove_key k [] = refl
find-remove_key k ((j, w) ∷ m) = ground (arith, find-remove_key k m)

put-found :
    (k v : Bytes) (m : List (Bytes × Bytes)) → find_metadata k m ≡ some v → put_metadata k v m ≡ m
unfolding find_metadata put_metadata
put-found k v [] h = absurd (cc h)
put-found k v ((j, w) ∷ m) h = elim (Bytes-discrete k j) [
  | yes same ↦ ground (arith, same)
  | no other ↦ ground (arith, put-found k v m)
]

-- To merge what a map contains changes nothing.
pub merge-contained :
    (m new : List (Bytes × Bytes)) → contains_metadata m new ≡ true → merge_metadata m new ≡ m
unfolding merge_metadata contains_metadata
merge-contained m [] h = refl
merge-contained m ((k, v) ∷ new) h = elim (Option-cases (find_metadata k m)) [
  | inl absent ↦ ground arith
  | inr (w, found) ↦ elim (Bytes-discrete v w) [
    | yes same ↦
        rw (put-found k v m (found ∙ ap some (sym same))) (merge-contained m new (ground arith))
    | no other ↦ ground arith
  ]
]

-- To remove a key that a map has not changes nothing.
pub remove-absent :
    (k : Bytes) (m : List (Bytes × Bytes)) → has_key k m ≡ false → remove_key k m ≡ m
unfolding has_key find_metadata remove_key
remove-absent k [] h = refl
remove-absent k ((j, w) ∷ m) h = ground (arith, remove-absent k m)

pub has_key-remove_key : (k : Bytes) (m : List (Bytes × Bytes)) → has_key k (remove_key k m) ≡ false
unfolding has_key
has_key-remove_key k m = rw (find-remove_key k m) refl
