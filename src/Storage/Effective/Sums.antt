-- ===== src/Storage/Effective/Sums.antt =====
-- Snapshots as sums, in the order of the table and in the order of the replay.
use giro.Prelude.{
  le→leb, lt→ltb, ◌≡◌, refl, sym, ap, ◌∙◌, subst, Bool, true, false, List, [], ◌∷◌, ◌++◌, inl, inr,
  arith, Bool-cases, leb, ltb, ℤ, pos, ◌+ℤ◌, int_laws, ◌↔◌, if◌then◌else◌,
}
use giro.Ledger.Volumes.{Key, Key-discrete}
use giro.Storage.Schema.{MoveRow, Time}
use giro.Storage.Moves.Latest.{sum_upto, sum_before, sum_upto-append}
use giro.Storage.Moves.History.{part, moved, moved-IsLocal, Snapshots}
use giro.Storage.Effective.{move_leq, insert_move, sort_moves}
use giro.Storage.Effective.Order.{
  move_leq-dates, move_leq-later, AllAfter, AllAfter-trans, IsOrdered, insert_move_here,
  insert_move_later, sort_moves-IsOrdered,
}

iff_trans {ℓ κ μ} : {A : Type ℓ} {B : Type κ} {C : Type μ} → A ↔ B → B ↔ C → A ↔ C
iff_trans f g = (λ a. g.0 (f.0 a), λ c. f.1 (g.1 c))

iff_both {ℓ κ μ ν} :
    {A : Type ℓ} {B : Type κ} {C : Type μ} {D : Type ν} → A ↔ B → C ↔ D → (A × C) ↔ (B × D)
iff_both f g = (λ p. (f.0 p.0, g.0 p.1), λ p. (f.1 p.0, g.1 p.1))

iff_rhs : (a b c : ℤ) → b ≡ c → (a ≡ b) ↔ (a ≡ c)
iff_rhs a b c e = (λ h. h ∙ e, λ h. h ∙ sym e)

-- The sum of a weight over all moves of a list.
abbrev pub sum_all : (MoveRow → ℤ) → List MoveRow → ℤ
sum_all w [] = pos 0
sum_all w (m ∷ ms) = w m +ℤ sum_all w ms

module _ (side : Bool) where
  -- Each move's snapshot is the sum of the moves gone over before it, of itself, and of what stands
  -- in the table before these with a date up to its own.
  abbrev pub Replays : List MoveRow → List MoveRow → List MoveRow → Type 0
  Replays earlier gone [] = Unit
  Replays earlier gone (m ∷ ms) =
      (part side m.pcev
        ≡ sum_upto (moved side m.key) m.effective_date earlier
          +ℤ sum_all (moved side m.key) gone
          +ℤ moved side m.key m)
      × Replays earlier (m ∷ gone) ms

  -- What a move counts at another that comes after it in the order, or before it.
  counted_after :
      (m n : MoveRow)
      → move_leq m n ≡ true
      → (if leb m.effective_date n.effective_date then moved side n.key m else pos 0)
        ≡ moved side n.key m
  counted_after m n h = elim (Key-discrete n.key m.key) [
    | yes same ↦
        rw (le→leb m.effective_date n.effective_date (move_leq-dates m n h (sym same))) refl
    | no other ↦ rw (moved-IsLocal side n.key m other) (ground arith)
  ]

  not_counted :
      (m n : MoveRow)
      → move_leq m n ≡ false
      → (if leb m.effective_date n.effective_date then moved side n.key m else pos 0) ≡ pos 0
  not_counted m n h = elim (Key-discrete n.key m.key) [
    | yes same ↦ ground (arith, move_leq-later m n h (sym same))
    | no other ↦ rw (moved-IsLocal side n.key m other) (ground arith)
  ]

  counted_before :
      (m n : MoveRow)
      → move_leq m n ≡ false
      → (if ltb n.effective_date m.effective_date then moved side m.key n else pos 0)
        ≡ moved side m.key n
  counted_before m n h = elim (Key-discrete m.key n.key) [
    | yes same ↦ rw (lt→ltb n.effective_date m.effective_date (move_leq-later m n h same)) refl
    | no other ↦ rw (moved-IsLocal side m.key n other) (ground arith)
  ]

  not_before :
      (m n : MoveRow)
      → move_leq m n ≡ true
      → (if ltb n.effective_date m.effective_date then moved side m.key n else pos 0) ≡ pos 0
  not_before m n h = elim (Key-discrete m.key n.key) [
    | yes same ↦ ground (arith, move_leq-dates m n h same)
    | no other ↦ rw (moved-IsLocal side m.key n other) (ground arith)
  ]

  none_before :
      (m : MoveRow) (ns : List MoveRow)
      → AllAfter m ns
      → sum_before (moved side m.key) m.effective_date ns ≡ pos 0
  none_before m [] h = refl
  none_before m (n ∷ ns) h = rw (not_before m n h.0, none_before m ns h.1) (omega int_laws)

  -- A move may be taken for gone over, or for one that stands before the others in the table, if
  -- they all come after it in the order.
  Replays-shift :
      (m : MoveRow) (earlier with_m without_m ns : List MoveRow)
      → ((k : Key)
          → sum_all (moved side k) with_m ≡ moved side k m +ℤ sum_all (moved side k) without_m)
      → AllAfter m ns
      → Replays earlier with_m ns ↔ Replays (earlier ++ m ∷ []) without_m ns
  Replays-shift m earlier with_m without_m [] sums h = (λ t. t, λ t. t)
  Replays-shift m earlier with_m without_m (n ∷ ns) sums h =
      iff_both
        (iff_rhs (part side n.pcev) _ _ (
          rw
            (
              sums n.key,
              sum_upto-append (moved side n.key) n.effective_date earlier (m ∷ []),
              counted_after m n h.0,
            )
            (omega int_laws)))
        (Replays-shift m earlier (n ∷ with_m) (n ∷ without_m) ns (λ k. rw (sums k) (omega int_laws))
          h.1)

  -- The condition on one move, when some are gone over and some are left.
  abbrev At : List MoveRow → List MoveRow → MoveRow → List MoveRow → Type 0
  At earlier gone m ns =
      part side m.pcev
      ≡ sum_upto (moved side m.key) m.effective_date earlier
        +ℤ sum_all (moved side m.key) gone
        +ℤ moved side m.key m
        +ℤ sum_before (moved side m.key) m.effective_date ns

  -- To replay a list with one more move put in its place is to replay the list, that move standing
  -- before it in the table, and to check that move.
  Replays-insert_move :
      (earlier gone : List MoveRow) (m : MoveRow) (ns : List MoveRow)
      → IsOrdered ns
      → Replays earlier gone (insert_move m ns)
        ↔ (At earlier gone m ns × Replays (earlier ++ m ∷ []) gone ns)
  Replays-insert_move earlier gone m [] h =
      unfold insert_move in
      iff_both (iff_rhs (part side m.pcev) _ _ (omega int_laws)) (λ t. t, λ t. t)
  Replays-insert_move earlier gone m (n ∷ ns) h = elim (Bool-cases (move_leq m n)) [
    | inl before ↦
        let after : AllAfter m (n ∷ ns) = (before, AllAfter-trans m n ns before h.0) in
        subst
          (λ l.
            Replays earlier gone l
            ↔ (At earlier gone m (n ∷ ns) × Replays (earlier ++ m ∷ []) gone (n ∷ ns)))
          (sym (insert_move_here m n ns before))
          (iff_both
            (iff_rhs (part side m.pcev) _ _ (rw (none_before m (n ∷ ns) after) (omega int_laws)))
            (Replays-shift m earlier (m ∷ gone) gone (n ∷ ns) (λ k. refl) after))
    | inr after ↦
        subst
          (λ l.
            Replays earlier gone l
            ↔ (At earlier gone m (n ∷ ns) × Replays (earlier ++ m ∷ []) gone (n ∷ ns)))
          (sym (insert_move_later m n ns after))
          (later after (Replays-insert_move earlier (n ∷ gone) m ns h.1))
  ]
    where
      at_later : move_leq m n ≡ false → At earlier (n ∷ gone) m ns ↔ At earlier gone m (n ∷ ns)
      at_later after =
          iff_rhs (part side m.pcev) _ _ (rw (counted_before m n after) (omega int_laws))

      head_later :
          move_leq m n ≡ false
          → (part side n.pcev
              ≡ sum_upto (moved side n.key) n.effective_date earlier
                +ℤ sum_all (moved side n.key) gone
                +ℤ moved side n.key n)
            ↔ (part side n.pcev
                ≡ sum_upto (moved side n.key) n.effective_date (earlier ++ m ∷ [])
                  +ℤ sum_all (moved side n.key) gone
                  +ℤ moved side n.key n)
      head_later after = iff_rhs (part side n.pcev) _ _ (
          rw
            (
              sum_upto-append (moved side n.key) n.effective_date earlier (m ∷ []),
              not_counted m n after,
            )
            (omega int_laws))

      later :
          move_leq m n ≡ false
          → Replays earlier (n ∷ gone) (insert_move m ns)
            ↔ (At earlier (n ∷ gone) m ns × Replays (earlier ++ m ∷ []) (n ∷ gone) ns)
          → Replays earlier gone (n ∷ insert_move m ns)
            ↔ (At earlier gone m (n ∷ ns) × Replays (earlier ++ m ∷ []) gone (n ∷ ns))
      later after ih = (
        λ r. let (at, rest) = ih.0 r.1 in ((at_later after).0 at, ((head_later after).0 r.0, rest)),
        λ r. ((head_later after).1 r.1.0, ih.1 ((at_later after).1 r.0, r.1.1)),
      )

  sum_before-insert_move :
      (w : MoveRow → ℤ) (at : Time) (m : MoveRow) (ns : List MoveRow)
      → sum_before w at (insert_move m ns) ≡ sum_before w at (m ∷ ns)
  sum_before-insert_move w at m [] = unfold insert_move in refl
  sum_before-insert_move w at m (n ∷ ns) = elim (Bool-cases (move_leq m n)) [
    | inl before ↦ ap (sum_before w at) (insert_move_here m n ns before)
    | inr after ↦
        ap (sum_before w at) (insert_move_later m n ns after)
        ∙ rw (sum_before-insert_move w at m ns) (omega int_laws)
  ]

  sum_before-sort_moves :
      (w : MoveRow → ℤ) (at : Time) (ms : List MoveRow)
      → sum_before w at (sort_moves ms) ≡ sum_before w at ms
  unfolding sort_moves
  sum_before-sort_moves w at [] = refl
  sum_before-sort_moves w at (m ∷ ms) =
      sum_before-insert_move w at m (sort_moves ms) ∙ rw (sum_before-sort_moves w at ms) refl

  -- The snapshots of a table are sums exactly when they are those of the replay in order.
  pub Snapshots-Replays :
      (earlier ms : List MoveRow) → Snapshots side earlier ms ↔ Replays earlier [] (sort_moves ms)
  unfolding sort_moves
  Snapshots-Replays earlier [] = (λ t. t, λ t. t)
  Snapshots-Replays earlier (m ∷ ms) =
      let inserted = Replays-insert_move earlier [] m (sort_moves ms) (sort_moves-IsOrdered ms) in
      iff_trans
        (iff_both
          (iff_rhs (part side m.pcev) _ _
            (rw (sum_before-sort_moves (moved side m.key) m.effective_date ms) (omega int_laws)))
          (Snapshots-Replays (earlier ++ m ∷ []) ms))
        (inserted.1, inserted.0)
