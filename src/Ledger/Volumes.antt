-- ===== src/Ledger/Volumes.antt =====
-- ledger/volumes.go: volumes, and the volume deltas that a list of postings amounts to.
pub mod Order
pub mod Totals
pub mod Keys
use giro.Prelude.{
  ℕ, zero, suc, ◌≡◌, refl, Bool, true, false, Option, none, some, List, [], ◌∷◌, ite, Ordering,
  Result, ok, err, ◌>>=◌, ℤ, pos, ◌+ℤ◌, ◌-ℤ◌, Bytes-discrete, compare_bytes, or_else, if◌then◌else◌,
}
use giro.Ledger.Address.{Address}
use giro.Ledger.Asset.{Asset}
use giro.Ledger.Posting.{Posting, Postings, NilAmount, nil_amount}

-- A nil counter of the source is a zero here, as `orZero` reads it.
pub record Volumes : Type 0 where
  pub input : ℤ
  pub output : ℤ

-- `NewVolumes`
abbrev pub new_volumes : Volumes
new_volumes = record { input = pos 0; output = pos 0 }

-- `Volumes.Balance`
unfoldable pub balance : Volumes → ℤ
balance v = v.input -ℤ v.output

-- `key` of `VolumeUpdates`, and of storage/volumes.go
pub record Key : Type 0 where
  pub account : Address
  pub asset : Asset

unfoldable pub Key-discrete : Discrete Key
unfolding Bytes-discrete
Key-discrete = hlevel Bytes-discrete

-- `VolumeUpdate`, its account and asset as one key
pub record VolumeUpdate : Type 0 where
  pub key : Key
  pub input : ℤ
  pub output : ℤ

abbrev pub zero_update : Key → VolumeUpdate
zero_update k = record { key = k; input = pos 0; output = pos 0 }

abbrev pub add_output : ℤ → VolumeUpdate → VolumeUpdate
add_output amount u = record u { output = u.output +ℤ amount }

abbrev pub add_input : ℤ → VolumeUpdate → VolumeUpdate
add_input amount u = record u { input = u.input +ℤ amount }

-- `at(account, asset)` followed by a write through the pointer that it returns: the entry is made
-- if it is missing. The entries stand in the order of their first use.
unfoldable pub update_at :
    Key → (VolumeUpdate → VolumeUpdate) → List VolumeUpdate → List VolumeUpdate
update_at k f [] = f (zero_update k) ∷ []
update_at k f (u ∷ us) = ite (Key-discrete k u.key) (f u ∷ us) (u ∷ update_at k f us)

abbrev pub source_key : Posting → Key
source_key posting = record { account = posting.source; asset = posting.asset }

abbrev pub destination_key : Posting → Key
destination_key posting = record { account = posting.destination; asset = posting.asset }

-- the amount that the loop counts: an `UpTo` with no ceiling counts zero, a nil is an error
abbrev pub counted : Option ℤ → Bool → Option ℤ
counted (some amount) up_to = some amount
counted none up_to = if up_to then some (pos 0) else none

-- the two writes of one round
unfoldable pub count_posting : Posting → ℤ → List VolumeUpdate → List VolumeUpdate
unfolding update_at
count_posting posting amount index =
    update_at (destination_key posting) (add_input amount)
      (update_at (source_key posting) (add_output amount) index)

unfoldable pub count_from : ℕ → Postings → List VolumeUpdate → Result NilAmount (List VolumeUpdate)
count_from i [] index = ok index
count_from i (posting ∷ p) index = elim (counted posting.amount posting.up_to) [
  | none ↦ err (nil_amount i)
  | some amount ↦ count_from (suc i) p (count_posting posting amount index)
]

-- the comparison that `slices.SortFunc` is given
unfoldable pub compare_key : Key → Key → Ordering
unfolding compare_bytes
compare_key a b = or_else (compare_bytes a.account b.account) (compare_bytes a.asset b.asset)

-- `slices.SortFunc`, as an insertion sort
unfoldable pub insert_update : VolumeUpdate → List VolumeUpdate → List VolumeUpdate
unfolding compare_key
insert_update u [] = u ∷ []
insert_update u (v ∷ vs) = elim (compare_key u.key v.key) [
  | Ordering.gt ↦ v ∷ insert_update u vs
  | _ ↦ u ∷ v ∷ vs
]

unfoldable pub sort_updates : List VolumeUpdate → List VolumeUpdate
unfolding insert_update
sort_updates [] = []
sort_updates (u ∷ us) = insert_update u (sort_updates us)

-- `Postings.VolumeUpdates`
unfoldable pub volume_updates : Postings → Result NilAmount (List VolumeUpdate)
unfolding count_from count_posting sort_updates
volume_updates p = do index ← count_from 0 p []; ok (sort_updates index)
