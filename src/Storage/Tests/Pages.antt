-- ===== src/Storage/Tests/Pages.antt =====
-- A list of four rows, read in pages of two, with cursors in a unary code.
use giro.Prelude.{
  ℕ, zero, suc, ◌≡◌, ◌<◌, refl, ap, Option, none, some, List, [], ◌∷◌, ok, Bytes, Bool, All, arith,
  ℤ, pos, negsuc, ltb,
}
use giro.Storage.Page.{Cursor, CursorJson, KeepsCursors, where_all}
use giro.Storage.Page.Walk.{IsAscending, walk, walk-IsComplete}

abbrev write_ℕ : ℕ → Bytes → Bytes
write_ℕ zero rest = 0 ∷ rest
write_ℕ (suc n) rest = 1 ∷ write_ℕ n rest

abbrev read_ℕ : Bytes → ℕ × Bytes
read_ℕ [] = (0, [])
read_ℕ (zero ∷ bs) = (0, bs)
read_ℕ (suc b ∷ bs) = (suc (read_ℕ bs).0, (read_ℕ bs).1)

read-write_ℕ : (n : ℕ) (rest : Bytes) → read_ℕ (write_ℕ n rest) ≡ (n, rest)
read-write_ℕ zero rest = refl
read-write_ℕ (suc n) rest = ap (λ z. (suc z.0, z.1)) (read-write_ℕ n rest)

abbrev IsSmall : Bytes → Type 0
IsSmall bs = All (λ b. b < 256) bs

write_ℕ-IsSmall : (n : ℕ) (rest : Bytes) → IsSmall rest → IsSmall (write_ℕ n rest)
write_ℕ-IsSmall zero rest h = (omega arith, h)
write_ℕ-IsSmall (suc n) rest h = (omega arith, write_ℕ-IsSmall n rest h)

abbrev write_ℤ : ℤ → Bytes → Bytes
write_ℤ (pos n) rest = 0 ∷ write_ℕ n rest
write_ℤ (negsuc n) rest = 1 ∷ write_ℕ n rest

abbrev signed : ℕ → ℕ × Bytes → ℤ × Bytes
signed zero (n, rest) = (pos n, rest)
signed (suc s) (n, rest) = (negsuc n, rest)

abbrev read_ℤ : Bytes → ℤ × Bytes
read_ℤ [] = (pos 0, [])
read_ℤ (s ∷ bs) = signed s (read_ℕ bs)

read-write_ℤ : (z : ℤ) (rest : Bytes) → read_ℤ (write_ℤ z rest) ≡ (z, rest)
read-write_ℤ (pos n) rest = ap (signed 0) (read-write_ℕ n rest)
read-write_ℤ (negsuc n) rest = ap (signed 1) (read-write_ℕ n rest)

write_ℤ-IsSmall : (z : ℤ) (rest : Bytes) → IsSmall rest → IsSmall (write_ℤ z rest)
write_ℤ-IsSmall (pos n) rest h = (omega arith, write_ℕ-IsSmall n rest h)
write_ℤ-IsSmall (negsuc n) rest h = (omega arith, write_ℕ-IsSmall n rest h)

abbrev write_date : Option ℕ → Bytes
write_date none = []
write_date (some t) = write_ℕ t []

abbrev read_date : Bytes → Option ℕ
read_date [] = none
read_date (b ∷ bs) = some (read_ℕ (b ∷ bs)).0

read-write_date : (d : Option ℕ) → read_date (write_date d) ≡ d
read-write_date none = refl
read-write_date (some zero) = refl
read-write_date (some (suc t)) = ap (λ z. some z.0) (read-write_ℕ (suc t) [])

write_date-IsSmall : (d : Option ℕ) → IsSmall (write_date d)
write_date-IsSmall none = tt
write_date-IsSmall (some t) = write_ℕ-IsSmall t [] tt

abbrev write_cursor : Cursor ℕ → Bytes
write_cursor c = 0 ∷ write_ℕ c.filter (write_ℤ c.after (write_ℤ c.limit (write_date c.after_date)))

abbrev read_cursor : Bytes → Option (Cursor ℕ)
read_cursor [] = none
read_cursor (b ∷ bs) =
    let (filter, r1) = read_ℕ bs in
    let (after, r2) = read_ℤ r1 in
    let (limit, r3) = read_ℤ r2 in
    some (record { filter = filter; after = after; limit = limit; after_date = read_date r3 })

abbrev unary : CursorJson ℕ
unary = record { marshal = write_cursor; unmarshal = read_cursor }

unary-KeepsCursors : (filter : ℕ) → KeepsCursors unary filter
unary-KeepsCursors filter = record {
  round_trip = λ c same dateless.
      rw
        (
          read-write_ℕ c.filter (write_ℤ c.after (write_ℤ c.limit (write_date c.after_date))),
          read-write_ℤ c.after (write_ℤ c.limit (write_date c.after_date)),
          read-write_ℤ c.limit (write_date c.after_date),
          read-write_date c.after_date,
        )
        refl;
  small = λ c. (
    omega arith,
    write_ℕ-IsSmall c.filter (write_ℤ c.after (write_ℤ c.limit (write_date c.after_date))) (
        write_ℤ-IsSmall c.after (write_ℤ c.limit (write_date c.after_date))
          (write_ℤ-IsSmall c.limit (write_date c.after_date) (write_date-IsSmall c.after_date))),
  );
  nothing = refl;
}

-- the rows are their ids, and the filter is a bound on them
abbrev rows : List ℕ
rows = 1 ∷ 2 ∷ 4 ∷ 7 ∷ []

abbrev is_below : ℕ → ℕ → Bool
is_below bound n = ltb n bound

rows-IsAscending : IsAscending (λ n. n) rows
rows-IsAscending = (
  omega arith,
  (omega arith, (omega arith, (omega arith, tt))),
  (
    omega arith,
    (omega arith, (omega arith, tt)),
    (omega arith, (omega arith, tt), (omega arith, tt, tt)),
  ),
)

walk-IsComplete_example :
    walk unary (λ n. n) is_below 5 (pos 2) 5 [] rows ≡ ok (where_all (is_below 5) rows)
walk-IsComplete_example =
    walk-IsComplete unary (λ n. n) is_below 5 (pos 2) 5 rows (unary-KeepsCursors 5) rows-IsAscending
      (omega arith)

-- the rows below the bound, in two pages
walk_rows : where_all (is_below 5) rows ≡ 1 ∷ 2 ∷ 4 ∷ []
unfolding where_all
walk_rows = refl
