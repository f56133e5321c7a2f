-- ===== src/Storage/Moves/History/Written.antt =====
-- The moves that a transaction writes, and the shift of the moves that are dated after it.
use giro.Prelude.{
  ◌≡◌, refl, sym, ap, ◌∙◌, Bool, true, false, List, [], ◌∷◌, ◌++◌, if◌then◌else◌, leb, ltb, inl,
  inr, arith, ℤ, pos, ◌+ℤ◌, int_laws, +ℤ-zero, zero-+ℤ, Bool-cases,
}
use giro.Ledger.Posting.{Posting, Postings}
use giro.Ledger.Volumes.{Key, Key-discrete, source_key, destination_key}
use giro.Ledger.Volumes.Totals.{flow, inflow, outflow, amount_of}
use giro.Storage.Schema.{MoveRow, Time, Transaction}
use giro.Storage.Moves.{VolumeMap, apply_move, move_row, posted_amount, moves_from}
use giro.Storage.Moves.Latest.{sum_upto, sum_before, sum_upto-append}
use giro.Storage.Moves.History.{part, weigh, moved, Snapshots}

module _ (side : Bool) where
  pub part-apply_move :
      (e : VolumeMap) (k j : Key) (amount : ℤ) (is_source : Bool)
      → part side (apply_move e k amount is_source j)
        ≡ part side (e j) +ℤ weigh side j k amount is_source
  part-apply_move e k j amount is_source = elim (Key-discrete j k) [
    | yes same ↦ rw same (here side is_source)
    | no other ↦ ground (arith, +ℤ-zero (part side (e j)))
  ]
    where
      here :
          (side is_source : Bool)
          → part side (apply_move e k amount is_source k)
            ≡ part side (e k) +ℤ weigh side k k amount is_source
      here true true = ground arith
      here true false = ground (arith, +ℤ-zero (part true (e k)))
      here false true = ground (arith, +ℤ-zero (part false (e k)))
      here false false = ground arith

-- A map after both movements of a posting.
abbrev pub both_moved : Posting → VolumeMap → VolumeMap
both_moved posting m =
    apply_move (apply_move m (source_key posting) (posted_amount posting) true)
      (destination_key posting) (posted_amount posting) false

posted_amount-amount_of : (posting : Posting) → posted_amount posting ≡ amount_of posting
posted_amount-amount_of posting = ground arith

abbrev pub side_flow : Bool → Key → Posting → ℤ → ℤ
side_flow true k posting amount = outflow k posting amount
side_flow false k posting amount = inflow k posting amount

weigh-side_flow :
    (side : Bool) (k : Key) (posting : Posting) (amount : ℤ)
    → weigh side k (source_key posting) amount true
        +ℤ weigh side k (destination_key posting) amount false
      ≡ side_flow side k posting amount
weigh-side_flow true k posting amount =
    ground (arith, +ℤ-zero (pos 0), +ℤ-zero amount, zero-+ℤ amount)
weigh-side_flow false k posting amount =
    ground (arith, +ℤ-zero (pos 0), +ℤ-zero amount, zero-+ℤ amount)

module _ (side : Bool) (t : Transaction) where
  -- The new moves count for later moves with what the postings move.
  pub sum_before-moves_from :
      (k : Key) (at : Time) (running effective : VolumeMap) (p : Postings)
      → sum_before (moved side k) at (moves_from t running effective p)
        ≡ (if ltb t.timestamp at then flow (side_flow side k) p else pos 0)
  unfolding moves_from
  sum_before-moves_from k at running effective [] = ground arith
  sum_before-moves_from k at running effective (posting ∷ p) =
      elim (Bool-cases (ltb t.timestamp at)) [
        | inl later ↦
            rw
              (
                sum_before-moves_from k at (both_moved posting running)
                    (both_moved posting effective) p,
                later,
                ← posted_amount-amount_of posting,
                ← weigh-side_flow side k posting (posted_amount posting),
              )
              (omega int_laws)
        | inr not_later ↦
            rw
              (
                sum_before-moves_from k at (both_moved posting running)
                    (both_moved posting effective) p,
                not_later,
              )
              (omega int_laws)
      ]

  -- What the running volumes hold of the moves so far.
  abbrev pub Holds : VolumeMap → List MoveRow → Type 0
  Holds effective gone =
      (k : Key) → part side (effective k) ≡ sum_upto (moved side k) t.timestamp gone

  Holds-step :
      (effective : VolumeMap) (gone : List MoveRow) (m : MoveRow)
      → m.effective_date ≡ t.timestamp
      → Holds effective gone
      → Holds (apply_move effective m.key m.amount m.is_source) (gone ++ m ∷ [])
  Holds-step effective gone m dated h k =
      part-apply_move side effective m.key k m.amount m.is_source
      ∙ ap (λ x. x +ℤ moved side k m) (h k)
      ∙ sym (
          sum_upto-append (moved side k) t.timestamp gone (m ∷ [])
          ∙ rw (due m dated) (omega int_laws))
    where
      due : (m : MoveRow) → m.effective_date ≡ t.timestamp → leb m.effective_date t.timestamp ≡ true
      due m dated = ground arith

  snapshot-own :
      (gone : List MoveRow) (effective : VolumeMap) (m : MoveRow) (rest : List MoveRow)
      → m.effective_date ≡ t.timestamp
      → Holds effective gone
      → part side m.pcev ≡ part side (effective m.key) +ℤ moved side m.key m
      → sum_before (moved side m.key) t.timestamp rest ≡ pos 0
      → part side m.pcev
        ≡ sum_upto (moved side m.key) m.effective_date gone
          +ℤ moved side m.key m
          +ℤ sum_before (moved side m.key) m.effective_date rest
  snapshot-own gone effective m rest dated h own none_before =
      own
      ∙ ap (λ x. x +ℤ moved side m.key m) (h m.key)
      ∙ sym (
          ap
            (λ d.
              sum_upto (moved side m.key) d gone
              +ℤ moved side m.key m
              +ℤ sum_before (moved side m.key) d rest)
            dated
          ∙ rw none_before
              (+ℤ-zero (sum_upto (moved side m.key) t.timestamp gone +ℤ moved side m.key m)))

  none_before-moves_from :
      (k : Key) (running effective : VolumeMap) (p : Postings)
      → sum_before (moved side k) t.timestamp (moves_from t running effective p) ≡ pos 0
  none_before-moves_from k running effective p =
      sum_before-moves_from k t.timestamp running effective p
      ∙ ap (λ b. if b then flow (side_flow side k) p else pos 0) (ltb_self t.timestamp)
    where
      ltb_self : (d : Time) → ltb d d ≡ false
      ltb_self d = ground arith

  none_before_cons :
      (k : Key) (m : MoveRow) (rest : List MoveRow)
      → m.effective_date ≡ t.timestamp
      → sum_before (moved side k) t.timestamp rest ≡ pos 0
      → sum_before (moved side k) t.timestamp (m ∷ rest) ≡ pos 0
  none_before_cons k m rest dated h = rw h (
      ap (λ b. (if b then moved side k m else pos 0) +ℤ pos 0) (not_before m dated)
      ∙ +ℤ-zero (pos 0))
    where
      not_before :
          (m : MoveRow) → m.effective_date ≡ t.timestamp → ltb m.effective_date t.timestamp ≡ false
      not_before m dated = ground arith

  -- The moves that a transaction writes carry the sums of the moves up to their date.
  pub moves_from-Snapshots :
      (gone : List MoveRow) (running effective : VolumeMap) (p : Postings)
      → Holds effective gone
      → Snapshots side gone (moves_from t running effective p)
  unfolding moves_from
  moves_from-Snapshots gone running effective [] h = tt
  moves_from-Snapshots gone running effective (posting ∷ p) h =
      let src = source_key posting in
      let dst = destination_key posting in
      let amount = posted_amount posting in
      let running1 = apply_move running src amount true in
      let effective1 = apply_move effective src amount true in
      let running2 = apply_move running1 dst amount false in
      let effective2 = apply_move effective1 dst amount false in
      let out = move_row t src amount true running1 effective1 in
      let into = move_row t dst amount false running2 effective2 in
      let rest = moves_from t running2 effective2 p in
      let h1 = Holds-step effective gone out refl h in
      let h2 = Holds-step effective1 (gone ++ out ∷ []) into refl h1 in
      (
        snapshot-own gone effective out (into ∷ rest) refl h
            (part-apply_move side effective src src amount true)
            (none_before_cons src into rest refl
              (none_before-moves_from src running2 effective2 p)),
        (
          snapshot-own (gone ++ out ∷ []) effective1 into rest refl h1
              (part-apply_move side effective1 dst dst amount false)
              (none_before-moves_from dst running2 effective2 p),
          moves_from-Snapshots ((gone ++ out ∷ []) ++ into ∷ []) running2 effective2 p h2,
        ),
      )
