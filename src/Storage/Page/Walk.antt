-- ===== src/Storage/Page/Walk.antt =====
-- A walk over the pages of a list: every row once, in order.
use mathlib.Core.List.{append-nil, append_assoc}
use giro.Prelude.{
  ℕ, zero, suc, ◌<◌, ◌≤◌, ◌≡◌, refl, sym, ap, ◌∙◌, subst, Bool, true, false, ◌&&◌, none, List, [],
  ◌∷◌, ◌++◌, take, length, if◌then◌else◌, Bytes, Result, ok, err, ◌>>=◌, All, ℤ, pos, pos_part,
  ◌≤ℤ◌, arith, Bool-cases, inl, inr, ◌⊎◌, length-append, err-ne-ok, dec_lt,
}
use giro.Storage.Rows.{is_empty}
use giro.Storage.Recovery.Text.{decode_base64}
use giro.Storage.Recovery.Text.Base64.{decode-encode_base64}
use giro.Storage.Page.{
  Cursor, PageError, CursorJson, KeepsCursors, clamp_limit, decode_cursor, encode_cursor, where_all,
  is_after, last_id, finish, query_rows, first_cursor, cursor_of, list_page, max_page_size,
}

-- The limit of a cursor is one that decodeCursor takes.
abbrev pub HasValidLimit : {F : Type 0} → Cursor F → Type 0
HasValidLimit c = (pos 1 ≤ℤ c.limit) × (c.limit ≤ℤ max_page_size)

clamp_limit-bounds : (n : ℤ) → (pos 1 ≤ℤ clamp_limit n) × (clamp_limit n ≤ℤ max_page_size)
unfolding clamp_limit
clamp_limit-bounds n = ground arith

decode-encode_cursor :
    {F : Type 0} (json : CursorJson F) (c : Cursor F)
    → KeepsCursors json c.filter
    → c.after_date ≡ none
    → HasValidLimit c
    → decode_cursor json (encode_cursor json c) ≡ ok c
unfolding decode_cursor encode_cursor
decode-encode_cursor json c keeps dateless valid =
    rw (decode-encode_base64 (json.marshal c) (keeps.small c), keeps.round_trip c refl dateless)
      (ground arith)

no_text :
    {F : Type 0} (json : CursorJson F) (filter : F)
    → KeepsCursors json filter
    → decode_cursor json [] ≡ err PageError.not_a_valid_cursor
unfolding decode_cursor decode_base64
no_text json filter keeps = rw (keeps.nothing) refl

encode_cursor-is_empty :
    {F : Type 0} (json : CursorJson F) (c : Cursor F)
    → KeepsCursors json c.filter
    → c.after_date ≡ none
    → HasValidLimit c
    → is_empty (encode_cursor json c) ≡ false
encode_cursor-is_empty json c keeps dateless valid =
    is_text (encode_cursor json c) (decode-encode_cursor json c keeps dateless valid)
  where
    is_text : (text : Bytes) → decode_cursor json text ≡ ok c → is_empty text ≡ false
    is_text [] h = absurd (err-ne-ok (sym (no_text json c.filter keeps) ∙ h))
    is_text (b ∷ bs) h = refl

module _ {A : Type 0} where
  where_all-twice :
      (p q : A → Bool) (xs : List A) → where_all (λ x. p x && q x) xs ≡ where_all p (where_all q xs)
  unfolding where_all
  where_all-twice p q [] = refl
  where_all-twice p q (x ∷ xs) = ground (arith, where_all-twice p q xs)

  where_all-every : (p : A → Bool) (xs : List A) → All (λ x. p x ≡ true) xs → where_all p xs ≡ xs
  unfolding where_all
  where_all-every p [] h = refl
  where_all-every p (x ∷ xs) h = ground (arith, where_all-every p xs)

  where_all-All {κ} :
      (P : A → Type κ) (p : A → Bool) (xs : List A) → All P xs → All P (where_all p xs)
  unfolding where_all
  where_all-All P p [] h = tt
  where_all-All P p (x ∷ xs) h = elim (Bool-cases (p x)) [
    | inl held ↦ rw held (h.0, where_all-All P p xs h.1)
    | inr not_held ↦ rw not_held (where_all-All P p xs h.1)
  ]

  length-where_all : (p : A → Bool) (xs : List A) → length (where_all p xs) ≤ length xs
  unfolding where_all
  length-where_all p [] = omega arith
  length-where_all p (x ∷ xs) = ground (arith, length-where_all p xs)

  -- A list that is longer than a page, as the page, with its last item apart, and the rest.
  pub record Split (n : ℕ) (xs : List A) : Type 0 where
    pub init : List A
    pub last : A
    pub rest : List A
    pub all : xs ≡ init ++ last ∷ rest
    pub page : take n (take (suc n) xs) ≡ init ++ last ∷ []

  split : (n : ℕ) (xs : List A) → 1 ≤ n → n < length xs → Split n xs
  split zero xs h long = absurd (omega arith)
  split (suc n) [] h long = absurd (omega arith)
  split (suc zero) (x ∷ xs) h long = record {
    init = [];
    last = x;
    rest = xs;
    all = refl;
    page = refl;
  }
  split (suc (suc n)) (x ∷ xs) h long =
      let s = split (suc n) xs (omega arith) (omega arith) in
      record {
        init = x ∷ s.init;
        last = s.last;
        rest = s.rest;
        all = ap (λ ys. x ∷ ys) s.all;
        page = ap (λ ys. x ∷ ys) s.page;
      }

  take-short : (n : ℕ) (xs : List A) → length xs ≤ n → take n xs ≡ xs
  take-short zero [] h = refl
  take-short zero (x ∷ xs) h = absurd (omega arith)
  take-short (suc n) [] h = refl
  take-short (suc n) (x ∷ xs) h = ap (λ ys. x ∷ ys) (take-short n xs (omega arith))

  length-take_long : (n : ℕ) (xs : List A) → n ≤ length xs → length (take n xs) ≡ n
  length-take_long zero xs h = omega arith
  length-take_long (suc n) [] h = absurd (omega arith)
  length-take_long (suc n) (x ∷ xs) h = omega (arith, length-take_long n xs (omega arith))

module _ {A : Type 0} (id : A → ℕ) where
  -- The ids are positive and rise.
  abbrev pub IsAscending : List A → Type 0
  IsAscending [] = Unit
  IsAscending (x ∷ xs) = (0 < id x) × All (λ y. id x < id y) xs × IsAscending xs

  where_all-IsAscending :
      (p : A → Bool) (xs : List A) → IsAscending xs → IsAscending (where_all p xs)
  unfolding where_all
  where_all-IsAscending p [] h = tt
  where_all-IsAscending p (x ∷ xs) (positive, below, h) = elim (Bool-cases (p x)) [
    | inl held ↦
        rw held
          (positive, where_all-All (λ y. id x < id y) p xs below, where_all-IsAscending p xs h)
    | inr not_held ↦ rw not_held (where_all-IsAscending p xs h)
  ]

  last_id-append : (xs : List A) (y : A) → last_id id (xs ++ y ∷ []) ≡ id y
  last_id-append [] y = refl
  last_id-append (x ∷ []) y = refl
  last_id-append (x ∷ z ∷ xs) y = last_id-append (z ∷ xs) y

  after-All :
      (y : A) (ys : List A)
      → All (λ z. id y < id z) ys
      → All (λ z. is_after (pos (id y)) (id z) ≡ true) ys
  after-All y [] h = tt
  after-All y (z ∷ ys) h = (ground arith, after-All y ys h.1)

  at_middle : (xs : List A) (y : A) (ys : List A) (P : A → Type 0) → All P (xs ++ y ∷ ys) → P y
  at_middle [] y ys P h = h.0
  at_middle (x ∷ xs) y ys P h = at_middle xs y ys P h.1

  -- What is after an item of a list is the rest of the list.
  where_all-after :
      (xs : List A) (y : A) (ys : List A)
      → IsAscending (xs ++ y ∷ ys)
      → where_all (λ r. is_after (pos (id y)) (id r)) (xs ++ y ∷ ys) ≡ ys
  unfolding where_all
  where_all-after [] y ys (positive, below, h) =
      ground (arith, where_all-every (λ r. is_after (pos (id y)) (id r)) ys (after-All y ys below))
  where_all-after (x ∷ xs) y ys (positive, below, h) =
      let under = at_middle xs y ys (λ z. id x < id z) below in
      ground (arith, under, where_all-after xs y ys h)

module _ {A F : Type 0} (json : CursorJson F) (id : A → ℕ) (matches : F → A → Bool) where
  -- Page after page, from the cursor that a text gives until there is no next one; at most so many.
  unfoldable pub walk : F → ℤ → ℕ → Bytes → List A → Result PageError (List A)
  unfolding list_page
  walk filter limit zero text rows = ok []
  walk filter limit (suc pages) text rows = do
    page ← list_page json id matches filter limit text rows
    rest ← if is_empty page.next then ok [] else walk filter limit pages page.next rows
    ok (page.items ++ rest)

  finish-short :
      (c : Cursor F) (todo : List A)
      → length todo ≤ pos_part c.limit
      → finish json id matches (take (suc (pos_part c.limit)) todo) c
        ≡ record { items = todo; next = [] }
  unfolding finish
  finish-short c todo short =
      rw (take-short (suc (pos_part c.limit)) todo (omega arith)) (ground arith)

  abbrev next_cursor : Cursor F → ℕ → Cursor F
  next_cursor c id = record {
    filter = c.filter;
    after = pos id;
    limit = c.limit;
    after_date = none;
  }

  finish-long :
      (c : Cursor F) (todo : List A)
      → pos_part c.limit < length todo
      → (s : Split (pos_part c.limit) todo)
      → finish json id matches (take (suc (pos_part c.limit)) todo) c ≡ record {
        items = s.init ++ s.last ∷ [];
        next = encode_cursor json (next_cursor c (id s.last));
      }
  unfolding finish
  finish-long c todo long s =
      rw
        (
          s.page,
          last_id-append id s.init s.last,
          length-take_long (suc (pos_part c.limit)) todo (omega arith),
        )
        (ground arith)

  query_rows-todo :
      (c : Cursor F) (rows todo : List A)
      → where_all (λ r. is_after c.after (id r)) (where_all (matches c.filter) rows) ≡ todo
      → query_rows json id matches c rows ≡ take (suc (pos_part c.limit)) todo
  unfolding query_rows
  query_rows-todo c rows todo h =
      ap (take (suc (pos_part c.limit)))
        (where_all-twice (λ r. is_after c.after (id r)) (matches c.filter) rows ∙ h)

  -- One page of a walk.
  walk-page :
      (c : Cursor F) (limit : ℤ) (pages : ℕ) (text : Bytes) (rows todo : List A)
      → cursor_of json id matches c.filter limit text ≡ ok c
      → where_all (λ r. is_after c.after (id r)) (where_all (matches c.filter) rows) ≡ todo
      → walk c.filter limit (suc pages) text rows ≡ (
          let page = finish json id matches (take (suc (pos_part c.limit)) todo) c in
          (if is_empty page.next then ok [] else walk c.filter limit pages page.next rows)
          >>= λ rest. ok (page.items ++ rest))
  unfolding walk list_page
  walk-page c limit pages text rows todo from h =
      rw (walk, list_page, from, query_rows-todo c rows todo h) refl

  walk-rest :
      (c : Cursor F) (limit : ℤ) (pages : ℕ) (text : Bytes) (rows done todo : List A)
      → KeepsCursors json c.filter
      → HasValidLimit c
      → IsAscending id (where_all (matches c.filter) rows)
      → where_all (matches c.filter) rows ≡ done ++ todo
      → cursor_of json id matches c.filter limit text ≡ ok c
      → where_all (λ r. is_after c.after (id r)) (where_all (matches c.filter) rows) ≡ todo
      → length todo < pages
      → walk c.filter limit pages text rows ≡ ok todo
  walk-rest c limit zero text rows done todo keeps valid rising parts from h enough =
      absurd (omega arith)
  walk-rest c limit (suc pages) text rows done todo keeps valid rising parts from h enough =
      elim (le-or-lt (length todo) (pos_part c.limit)) [
        | inl short ↦
            walk-page c limit pages text rows todo from h
            ∙ rw (finish-short c todo short) (ap ok (append-nil todo))
        | inr long ↦
            let s = split (pos_part c.limit) todo (ground (arith, valid)) long in
            let next = next_cursor c (id s.last) in
            let tail = encode_cursor json next in
            let gone = done ++ s.init in
            let filtered : where_all (matches c.filter) rows ≡ gone ++ s.last ∷ s.rest =
              parts
              ∙ ap (λ ys. done ++ ys) s.all
              ∙ sym (append_assoc done s.init (s.last ∷ s.rest)) in
            let rest =
              walk-rest next limit pages tail rows (gone ++ s.last ∷ []) s.rest keeps valid rising
                (filtered ∙ sym (append_assoc gone (s.last ∷ []) s.rest))
                (from_text next tail (encode_cursor-is_empty json next keeps refl valid)
                  (decode-encode_cursor json next keeps refl valid))
                (ap (where_all (λ r. is_after next.after (id r))) filtered
                  ∙ where_all-after id gone s.last s.rest (subst (IsAscending id) filtered rising))
                (omega (arith, ap length s.all, length-append s.init (s.last ∷ s.rest))) in
            walk-page c limit pages text rows todo from h
            ∙ rw
                (finish-long c todo long s, encode_cursor-is_empty json next keeps refl valid, rest)
                (ap ok (append_assoc s.init (s.last ∷ []) s.rest ∙ sym s.all))
      ]
    where
      le-or-lt : (m n : ℕ) → (m ≤ n) ⊎ (n < m)
      le-or-lt m n = elim (dec_lt n m) [ yes less ↦ inr less | no more ↦ inl (omega arith) ]

      from_text :
          (d : Cursor F) (tail : Bytes)
          → is_empty tail ≡ false
          → decode_cursor json tail ≡ ok d
          → cursor_of json id matches d.filter limit tail ≡ ok d
      from_text d tail nonempty decoded = rw (nonempty) decoded

  -- If the ids of a table are positive and rising, JSON keeps cursors with the filter that is asked
  -- for, and more pages may be read than there are rows, a walk from the first page through the
  -- cursor of each page, at whatever limit, succeeds and returns every row that the filter takes,
  -- once and in order.
  pub walk-IsComplete :
      (filter : F) (limit : ℤ) (pages : ℕ) (rows : List A)
      → KeepsCursors json filter
      → IsAscending id rows
      → length rows < pages
      → walk filter limit pages [] rows ≡ ok (where_all (matches filter) rows)
  walk-IsComplete filter limit pages rows keeps rising enough =
      let kept = where_all (matches filter) rows in
      walk-rest (first_cursor json id matches filter limit) limit pages [] rows [] kept keeps
        (clamp_limit-bounds limit) (where_all-IsAscending id (matches filter) rows rising) refl refl
        (where_all-every (λ r. is_after (pos 0) (id r)) kept (all_after kept))
        (omega (arith, length-where_all (matches filter) rows))
    where
      all_after : (xs : List A) → All (λ r. is_after (pos 0) (id r) ≡ true) xs
      all_after [] = tt
      all_after (x ∷ xs) = (refl, all_after xs)
