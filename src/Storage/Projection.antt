-- ===== src/Storage/Projection.antt =====
-- storage/verify.go: the volumes that the log amounts to, against the volumes that are stored.
pub mod Replayed
pub mod Decides
use giro.Prelude.{
  ℕ, suc, ◌+◌, ◌==◌, Bool, true, false, not, ◌&&◌, ◌||◌, Option, none, some, List, [], ◌∷◌, ◌++◌,
  ite, if◌then◌else◌, Result, ok, err, ◌>>=◌, ℤ, pos, ltb_ℤ, any, length, map, Ordering,
}
use giro.Ledger.Posting.{Posting, Postings}
use giro.Ledger.Volumes.{Key, Key-discrete, Volumes, VolumeUpdate, count_posting, compare_key}
use giro.Storage.Schema.{
  Db, Transaction, Log, VolumeRow, Error, decode_failed, log_new_transaction,
  log_reverted_transaction,
}
use giro.Storage.Encoding.{Encoding}
use giro.Storage.Locking.{find_row}
use giro.Storage.Moves.{posted_amount}

-- the two calls of `apply` for each posting, on a map that is kept as its entries
unfoldable pub replay_postings : Postings → List VolumeUpdate → List VolumeUpdate
unfolding count_posting
replay_postings [] index = index
replay_postings (posting ∷ p) index =
    replay_postings p (count_posting posting (posted_amount posting) index)

-- `transactions[tx.ID] = true`
unfoldable pub add_id : ℕ → List ℕ → List ℕ
add_id id ids = if any (λ i. i == id) ids then ids else id ∷ ids

-- one round of the loop, on what the entry carries
unfoldable pub replay_carried :
    Option Transaction → List VolumeUpdate × List ℕ → List VolumeUpdate × List ℕ
unfolding replay_postings add_id
replay_carried none (index, ids) = (index, ids)
replay_carried (some t) (index, ids) = (replay_postings t.postings index, add_id t.id ids)

module _ (e : Encoding) where
  -- the transaction that an entry carries: metadata and recoveries move no value
  unfoldable pub carried_transaction : Log → Result Error (Option Transaction)
  carried_transaction l = elim l.type [
    | log_new_transaction ↦ elim (e.unmarshal_transaction l.content) [
      | none ↦ err decode_failed
      | some t ↦ ok (some t)
    ]
    | log_reverted_transaction ↦ elim (e.unmarshal_reverted l.content) [
      | none ↦ err decode_failed
      | some d ↦ ok (some d.1)
    ]
    | _ ↦ ok none
  ]

  -- the loop of `replayLog`
  unfoldable pub replay_from :
      List VolumeUpdate × List ℕ → List Log → Result Error (List VolumeUpdate × List ℕ)
  unfolding carried_transaction replay_carried
  replay_from state [] = ok state
  replay_from state (l ∷ ls) = do
    carried ← carried_transaction l
    replay_from (replay_carried carried state) ls

  -- `replayLog`
  unfoldable pub replay_log : List Log → Result Error (List VolumeUpdate × List ℕ)
  unfolding replay_from
  replay_log logs = replay_from ([], []) logs

-- `ProjectionMismatch`, and the two errors of `verifyTransactionsMatchLog`
pub data ProjectionFault : Type 0 where
  missing_row extra_row differing_row : Key → ProjectionFault
  unlogged_transaction : ℕ → ProjectionFault
  count_mismatch : ℕ → ℕ → ProjectionFault
  replay_failed : Error → ProjectionFault

-- `want[k]`
unfoldable pub find_update : Key → List VolumeUpdate → Option VolumeUpdate
find_update k [] = none
find_update k (u ∷ us) = ite (Key-discrete k u.key) (some u) (find_update k us)

abbrev pub differ : ℤ → ℤ → Bool
differ a b = ltb_ℤ a b || ltb_ℤ b a

-- the `switch` on one key: what the log says, and what is stored
unfoldable pub projection_fault :
    Key → Option VolumeUpdate → Option VolumeRow → Option ProjectionFault
projection_fault k (some u) none = some (missing_row k)
projection_fault k none (some r) =
    if differ r.volumes.input r.volumes.output || differ r.volumes.input (pos 0)
    then some (extra_row k)
    else none
projection_fault k (some u) (some r) =
    if differ r.volumes.input u.input || differ r.volumes.output u.output
    then some (differing_row k)
    else none
projection_fault k none none = none

unfoldable pub insert_key : Key → List Key → List Key
unfolding compare_key
insert_key k [] = k ∷ []
insert_key k (j ∷ js) = elim (compare_key k j) [
  | Ordering.gt ↦ j ∷ insert_key k js
  | _ ↦ k ∷ j ∷ js
]

unfoldable pub sort_keys : List Key → List Key
unfolding insert_key
sort_keys [] = []
sort_keys (k ∷ ks) = insert_key k (sort_keys ks)

-- the keys of the rows that the log does not mention
unfoldable pub extra_keys : List VolumeUpdate → List VolumeRow → List Key
unfolding find_update
extra_keys index [] = []
extra_keys index (r ∷ rs) =
    let rest = extra_keys index rs in
    elim (find_update r.key index) [ none ↦ r.key ∷ rest | some u ↦ rest ]

-- the loop over the keys
unfoldable pub verify_keys :
    List VolumeUpdate → List VolumeRow → ℕ → List Key → ℕ × Option ProjectionFault
unfolding find_update find_row projection_fault
verify_keys index rows checked [] = (checked, none)
verify_keys index rows checked (k ∷ ks) =
    let rest = verify_keys index rows (checked + 1) ks in
    elim (projection_fault k (find_update k index) (find_row k rows)) [
      | some fault ↦ (checked, some fault)
      | none ↦ rest
    ]

unfoldable pub find_unlogged : List ℕ → List Transaction → Option ℕ
find_unlogged ids [] = none
find_unlogged ids (t ∷ ts) = if any (λ i. i == t.id) ids then find_unlogged ids ts else some t.id

-- `verifyTransactionsMatchLog`
unfoldable pub match_transactions : List ℕ → List Transaction → Option ProjectionFault
unfolding find_unlogged
match_transactions ids rows = elim (find_unlogged ids rows) [
  | some id ↦ some (unlogged_transaction id)
  | none ↦
      if length rows == length ids then none else some (count_mismatch (length ids) (length rows))
]

abbrev pub verify_replayed :
    List VolumeUpdate × List ℕ → Db → ℕ × Option ProjectionFault → ℕ × Option ProjectionFault
verify_replayed state db (checked, some fault) = (checked, some fault)
verify_replayed state db (checked, none) = (checked, match_transactions state.1 db.transactions)

module _ (e : Encoding) where
  -- `VerifyProjection`
  unfoldable pub verify_projection : Db → ℕ × Option ProjectionFault
  unfolding replay_log extra_keys sort_keys verify_keys match_transactions
  verify_projection db = elim (replay_log e db.logs) [
    | err error ↦ (0, some (replay_failed error))
    | ok (index, ids) ↦
        verify_replayed (index, ids) db
          (verify_keys index db.volumes 0
            (sort_keys (map (λ u. u.key) index ++ extra_keys index db.volumes)))
  ]
