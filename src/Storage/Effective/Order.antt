-- ===== src/Storage/Effective/Order.antt =====
-- The order in which the moves are replayed: by account and asset, then by effective date.
use giro.Prelude.{
  ◌≡◌, refl, sym, ap, ◌∙◌, subst, true, false, List, [], ◌∷◌, inl, inr, arith, Bool-cases, All, leb,
  ◌≤◌, ◌<◌, Ordering, leb→le, le→leb, ◌⊎◌,
}
use giro.Ledger.Volumes.{compare_key}
use giro.Ledger.Volumes.Order.{
  compare_key-eq, compare_key_refl, compare_key_trans, compare_key_flip,
}
use giro.Storage.Schema.{MoveRow}
use giro.Storage.Effective.{move_leq, insert_move, sort_moves}

Ordering-cases : (o : Ordering) → (o ≡ Ordering.lt) ⊎ ((o ≡ Ordering.eq) ⊎ (o ≡ Ordering.gt))
Ordering-cases Ordering.lt = inl refl
Ordering-cases Ordering.eq = inr (inl refl)
Ordering-cases Ordering.gt = inr (inr refl)

-- The order, without the test: an earlier key, or the same key and no later date.
abbrev Leq : MoveRow → MoveRow → Type 0
Leq m n =
    (compare_key m.key n.key ≡ Ordering.lt)
    ⊎ ((m.key ≡ n.key) × (m.effective_date ≤ n.effective_date))

move_leq-Leq : (m n : MoveRow) → move_leq m n ≡ true → Leq m n
unfolding move_leq
move_leq-Leq m n h = elim (Ordering-cases (compare_key m.key n.key)) [
  | inl lt ↦ inl lt
  | inr (inl eq) ↦ inr (
    compare_key-eq m.key n.key eq,
    leb→le m.effective_date n.effective_date (rw (move_leq, eq) at h),
  )
  | inr (inr gt) ↦ absurd (cc (rw (move_leq, gt) at h))
]

Leq-move_leq : (m n : MoveRow) → Leq m n → move_leq m n ≡ true
unfolding move_leq
Leq-move_leq m n (inl lt) = rw (move_leq, lt)
Leq-move_leq m n (inr (same, le)) =
    let eq = ap (λ k. compare_key k n.key) same ∙ compare_key_refl n.key in
    rw (move_leq, eq) (le→leb m.effective_date n.effective_date le)

Leq-trans : (a b c : MoveRow) → Leq a b → Leq b c → Leq a c
Leq-trans a b c (inl lt) (inl lt') = inl (compare_key_trans a.key b.key c.key lt lt')
Leq-trans a b c (inl lt) (inr (same, le)) = inl (ap (λ k. compare_key a.key k) (sym same) ∙ lt)
Leq-trans a b c (inr (same, le)) (inl lt) = inl (ap (λ k. compare_key k c.key) same ∙ lt)
Leq-trans a b c (inr (same, le)) (inr (same', le')) = inr (same ∙ same', omega arith)

pub move_leq_trans :
    (a b c : MoveRow) → move_leq a b ≡ true → move_leq b c ≡ true → move_leq a c ≡ true
move_leq_trans a b c h k =
    Leq-move_leq a c (Leq-trans a b c (move_leq-Leq a b h) (move_leq-Leq b c k))

pub move_leq_flip : (a b : MoveRow) → move_leq a b ≡ false → move_leq b a ≡ true
unfolding move_leq
move_leq_flip a b h = elim (Ordering-cases (compare_key a.key b.key)) [
  | inl lt ↦ absurd (cc (rw (move_leq, lt) at h))
  | inr (inl eq) ↦
      Leq-move_leq b a
        (inr (sym (compare_key-eq a.key b.key eq), not_leb a b (rw (move_leq, eq) at h)))
  | inr (inr gt) ↦ Leq-move_leq b a (inl (compare_key_flip a.key b.key gt))
]
  where
    not_leb :
        (a b : MoveRow)
        → leb a.effective_date b.effective_date ≡ false
        → b.effective_date ≤ a.effective_date
    not_leb a b h = ground arith

-- What the order says of two moves of one key.
pub move_leq-dates :
    (a b : MoveRow) → move_leq a b ≡ true → a.key ≡ b.key → a.effective_date ≤ b.effective_date
unfolding move_leq
move_leq-dates a b h same =
    let eq = ap (λ k. compare_key k b.key) same ∙ compare_key_refl b.key in
    leb→le a.effective_date b.effective_date (rw (move_leq, eq) at h)

pub move_leq-later :
    (a b : MoveRow) → move_leq a b ≡ false → a.key ≡ b.key → b.effective_date < a.effective_date
unfolding move_leq
move_leq-later a b h same =
    let eq = ap (λ k. compare_key k b.key) same ∙ compare_key_refl b.key in
    dates a b (rw (move_leq, eq) at h)
  where
    dates :
        (a b : MoveRow)
        → leb a.effective_date b.effective_date ≡ false
        → b.effective_date < a.effective_date
    dates a b h = ground arith

abbrev pub AllAfter : MoveRow → List MoveRow → Type 0
AllAfter m ns = All (λ n. move_leq m n ≡ true) ns

abbrev pub IsOrdered : List MoveRow → Type 0
IsOrdered [] = Unit
IsOrdered (m ∷ ms) = AllAfter m ms × IsOrdered ms

pub AllAfter-trans :
    (a b : MoveRow) (ns : List MoveRow) → move_leq a b ≡ true → AllAfter b ns → AllAfter a ns
AllAfter-trans a b [] h k = tt
AllAfter-trans a b (n ∷ ns) h k = (move_leq_trans a b n h k.0, AllAfter-trans a b ns h k.1)

-- One round of the insertion, for each way that it goes.
pub insert_move_here :
    (m n : MoveRow) (ns : List MoveRow) → move_leq m n ≡ true → insert_move m (n ∷ ns) ≡ m ∷ n ∷ ns
unfolding insert_move
insert_move_here m n ns h = rw (insert_move, h)

pub insert_move_later :
    (m n : MoveRow) (ns : List MoveRow)
    → move_leq m n ≡ false
    → insert_move m (n ∷ ns) ≡ n ∷ insert_move m ns
unfolding insert_move
insert_move_later m n ns h = rw (insert_move, h)

AllAfter-insert_move :
    (a m : MoveRow) (ns : List MoveRow)
    → move_leq a m ≡ true
    → AllAfter a ns
    → AllAfter a (insert_move m ns)
AllAfter-insert_move a m [] h k = unfold insert_move in (h, tt)
AllAfter-insert_move a m (n ∷ ns) h k = elim (Bool-cases (move_leq m n)) [
  | inl before ↦ subst (AllAfter a) (sym (insert_move_here m n ns before)) (h, k)
  | inr after ↦
      subst (AllAfter a) (sym (insert_move_later m n ns after))
        (k.0, AllAfter-insert_move a m ns h k.1)
]

insert_move-IsOrdered :
    (m : MoveRow) (ns : List MoveRow) → IsOrdered ns → IsOrdered (insert_move m ns)
insert_move-IsOrdered m [] h = unfold insert_move in (tt, tt)
insert_move-IsOrdered m (n ∷ ns) h = elim (Bool-cases (move_leq m n)) [
  | inl before ↦
      subst IsOrdered (sym (insert_move_here m n ns before))
        ((before, AllAfter-trans m n ns before h.0), h)
  | inr after ↦
      subst IsOrdered (sym (insert_move_later m n ns after))
        (AllAfter-insert_move n m ns (move_leq_flip m n after) h.0, insert_move-IsOrdered m ns h.1)
]

pub sort_moves-IsOrdered : (ms : List MoveRow) → IsOrdered (sort_moves ms)
unfolding sort_moves
sort_moves-IsOrdered [] = tt
sort_moves-IsOrdered (m ∷ ms) = insert_move-IsOrdered m (sort_moves ms) (sort_moves-IsOrdered ms)
