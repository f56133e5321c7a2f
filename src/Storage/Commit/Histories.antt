-- ===== src/Storage/Commit/Histories.antt =====
-- The effective snapshots of the moves, after a commit.
use giro.Prelude.{◌≡◌, sym, ap, ◌∙◌, subst, Bool, [], ok, inl, inr, Bytes}
use giro.Ledger.Posting.{Postings}
use giro.Ledger.Volumes.{volume_updates}
use giro.Storage.Schema.{Db, Transaction}
use giro.Storage.Locking.{lock_volumes}
use giro.Storage.Moves.{queue_moves, effective_volumes_at}
use giro.Storage.Moves.History.{Snapshots}
use giro.Storage.Moves.History.Kept.{queue_moves-Snapshots}
use giro.Storage.Encoding.{Encoding}
use giro.Storage.Log.{Allocation}
use giro.Storage.Commit.{CommitOptions, ApplyOptions, Moment, Attempt, commit_once}
use giro.Storage.Commit.Inversion.{Applied, commit_once-cases, written-transaction}

-- On either side, every move's effective snapshot is the sum of the moves of its account and asset
-- that come no later in effective date, and in insertion where the dates are the same.
abbrev pub IsHistory : Db → Type 0
IsHistory db = (side : Bool) → Snapshots side [] db.moves

pub Applied-IsHistory :
    {m : Moment} {opts : ApplyOptions} {p : Postings} {db after : Db} {t : Transaction}
    {alloc : Allocation}
    → Applied m opts p db after t alloc
    → IsHistory db
    → IsHistory after
unfolding lock_volumes
Applied-IsHistory {db = db} {t = t} x h side =
    let before = (lock_volumes db x.named).1 in
    let same = written-transaction x.written in
    let dated : t.timestamp ≡ x.written.timestamp = ap (λ s. s.timestamp) same in
    subst (Snapshots side [])
      (sym (
        x.written.moves
        ∙ ap (λ d. queue_moves t before (effective_volumes_at db.moves d) x.updates db.moves)
            (sym dated)))
      (queue_moves-Snapshots side t before x.updates db.moves
        (ap (λ s. volume_updates s.postings) same ∙ x.recounted) (h side))

-- If the effective snapshot of every move is, on both counters, the sum of the moves of its account
-- and asset that come no later (in effective date, and in insertion where dates are equal), that is
-- so after an attempt of commitOnce that succeeds, whatever its effective date.
pub commit_once-IsHistory :
    (e : Encoding) (a : Attempt) (p : Postings) (opts : CommitOptions) (ik_hash : Bytes)
    {after : Db} {t : Transaction}
    → IsHistory a.db
    → commit_once e a p opts ik_hash ≡ ok (after, t)
    → IsHistory after
commit_once-IsHistory e a p opts ik_hash h c = elim (commit_once-cases e a p opts ik_hash c) [
  | inl same ↦ subst IsHistory (sym same) h
  | inr x ↦ subst IsHistory (sym x.result) (Applied-IsHistory x.by_apply h)
]
