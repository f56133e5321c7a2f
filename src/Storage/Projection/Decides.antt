-- ===== src/Storage/Projection/Decides.antt =====
-- What it is that VerifyProjection accepts.
use mathlib.Core.Logic.{if_neg}
use giro.Prelude.{
  if◌then◌else◌, ℕ, ◌+◌, ◌≡◌, ◌↔◌, refl, sym, ap, ◌∙◌, Bool, true, false, ◌||◌, Option, none, some,
  List, [], ◌∷◌, ◌++◌, map, length, Result, ok, err, ok-injective, err-ne-ok, inl, inr, Bool-cases,
  Option-cases, ◌==◌, ==_iff, any, All, ℤ, pos, subst,
}
use giro.Ledger.Volumes.{Key, Key-discrete, VolumeUpdate, compare_key}
use giro.Ledger.Volumes.Order.{Ordering-cases}
use giro.Storage.Schema.{Error, Db, VolumeRow, Transaction}
use giro.Storage.Encoding.{Encoding}
use giro.Storage.Locking.{find_row}
use giro.Storage.Closure.Emptiness.{same_of_ltb, ltb_refl}
use giro.Storage.Projection.{
  ProjectionFault, find_update, differ, projection_fault, insert_key, sort_keys, extra_keys,
  verify_keys, find_unlogged, match_transactions, verify_replayed, replay_log, verify_projection,
}

-- What the log amounts to at a key, and what is stored there: a row for every key of the log, with
-- its sums, and beside these only rows of zeros.
abbrev pub Agrees : Option VolumeUpdate → Option VolumeRow → Type 0
Agrees (some u) none = ⊥
Agrees none (some r) = (r.volumes.input ≡ r.volumes.output) × (r.volumes.input ≡ pos 0)
Agrees (some u) (some r) = (r.volumes.input ≡ u.input) × (r.volumes.output ≡ u.output)
Agrees none none = Unit

both : (x y : Bool) → (x || y) ≡ false → (x ≡ false) × (y ≡ false)
both true y h = absurd (cc h)
both false y h = (refl, h)

neither : (x y : Bool) → x ≡ false → y ≡ false → (x || y) ≡ false
neither x y p q = rw (p, q) refl

two_differ :
    (a b c d : ℤ) (fault : ProjectionFault)
    → ((if differ a b || differ c d then some fault else none) ≡ none) ↔ ((a ≡ b) × (c ≡ d))
two_differ a b c d fault = elim (Bool-cases (differ a b || differ c d)) [
  | inl wrong ↦ rw wrong (
    λ h. absurd (cc h),
    λ h.
        absurd (
          cc (sym wrong ∙ neither (differ a b) (differ c d) (ltb_refl a b h.0) (ltb_refl c d h.1))),
  )
  | inr right ↦
      let (x, y) = both (differ a b) (differ c d) right in
      rw right (λ h. (same_of_ltb a b x, same_of_ltb c d y), λ h. refl)
]

projection_fault-Agrees :
    (k : Key) (u : Option VolumeUpdate) (r : Option VolumeRow)
    → (projection_fault k u r ≡ none) ↔ Agrees u r
unfolding projection_fault
projection_fault-Agrees k (some u) none = (λ h. absurd (cc h), λ h. absurd h)
projection_fault-Agrees k none none = (λ h. tt, λ h. refl)
projection_fault-Agrees k none (some r) =
    two_differ r.volumes.input r.volumes.output r.volumes.input (pos 0) _
projection_fault-Agrees k (some u) (some r) =
    two_differ r.volumes.input u.input r.volumes.output u.output _

module _ (P : Key → Type 0) where
  insert_key-All : (k : Key) (ks : List Key) → All P (insert_key k ks) ↔ (P k × All P ks)
  unfolding insert_key
  insert_key-All k [] = (λ h. h, λ h. h)
  insert_key-All k (j ∷ js) = elim (Ordering-cases (compare_key k j)) [
    | inl less ↦ rw (All, insert_key, less) (λ h. h, λ h. h)
    | inr (inl same) ↦ rw (All, insert_key, same) (λ h. h, λ h. h)
    | inr (inr more) ↦
        let ih = insert_key-All k js in
        rw (All, insert_key, more)
          (λ h. let (at_k, rest) = ih.0 h.1 in (at_k, (h.0, rest)), λ h. (h.1.0, ih.1 (h.0, h.1.1)))
  ]

  sort_keys-All : (ks : List Key) → All P (sort_keys ks) ↔ All P ks
  unfolding sort_keys
  sort_keys-All [] = (λ h. h, λ h. h)
  sort_keys-All (k ∷ ks) =
      let inserted = insert_key-All k (sort_keys ks) in
      let ih = sort_keys-All ks in
      (λ h. let (at_k, rest) = inserted.0 h in (at_k, ih.0 rest), λ h. inserted.1 (h.0, ih.1 h.1))

module _ (index : List VolumeUpdate) (rows : List VolumeRow) where
  abbrev AgreesAt : Key → Type 0
  AgreesAt k = Agrees (find_update k index) (find_row k rows)

  verify_keys-All :
      (checked : ℕ) (ks : List Key)
      → ((verify_keys index rows checked ks).1 ≡ none) ↔ All AgreesAt ks
  unfolding verify_keys
  verify_keys-All checked [] = (λ h. tt, λ h. refl)
  verify_keys-All checked (k ∷ ks) =
      let one = projection_fault-Agrees k (find_update k index) (find_row k rows) in
      let ih = verify_keys-All (checked + 1) ks in
      elim (Option-cases (projection_fault k (find_update k index) (find_row k rows))) [
        | inl fine ↦ rw (verify_keys, fine) (λ h. (one.0 fine, ih.0 h), λ h. ih.1 h.1)
        | inr (fault, found) ↦
            rw (verify_keys, found) (λ h. absurd (cc h), λ h. absurd (cc (sym found ∙ one.1 h.0)))
      ]

  mapped-AgreesAt :
      (P : Key → Type 0) (k : Key) (u : VolumeUpdate) (us : List VolumeUpdate)
      → All P (map (λ v. v.key) us)
      → find_update k us ≡ some u
      → P k
  unfolding find_update
  mapped-AgreesAt P k u [] h found = absurd (cc found)
  mapped-AgreesAt P k u (v ∷ us) h found = elim (Key-discrete k v.key) [
    | yes same ↦ subst P (sym same) h.0
    | no other ↦
        mapped-AgreesAt P k u us h.1 (sym (if_neg (Key-discrete k v.key) other _ _) ∙ found)
  ]

  extra-AgreesAt :
      (P : Key → Type 0) (k : Key) (r : VolumeRow) (rs : List VolumeRow)
      → All P (extra_keys index rs)
      → find_update k index ≡ none
      → find_row k rs ≡ some r
      → P k
  unfolding extra_keys find_row
  extra-AgreesAt P k r [] h absent found = absurd (cc found)
  extra-AgreesAt P k r (q ∷ rs) h absent found = elim (Key-discrete k q.key) [
    | yes same ↦
        subst P (sym same)
          (rw (All, extra_keys, ap (λ j. find_update j index) (sym same) ∙ absent) at h).0
    | no other ↦
        let rest = sym (if_neg (Key-discrete k q.key) other _ _) ∙ found in
        elim (Option-cases (find_update q.key index)) [
          | inl missing ↦ extra-AgreesAt P k r rs (rw (All, extra_keys, missing) at h).1 absent rest
          | inr (u, there) ↦ extra-AgreesAt P k r rs (rw (All, extra_keys, there) at h) absent rest
        ]
  ]

  All-split : (P : Key → Type 0) (xs ys : List Key) → All P (xs ++ ys) → All P xs × All P ys
  All-split P [] ys h = (tt, h)
  All-split P (x ∷ xs) ys h = let (l, r) = All-split P xs ys h.1 in ((h.0, l), r)

  every : (P : Key → Type 0) → ((k : Key) → P k) → (ks : List Key) → All P ks
  every P h [] = tt
  every P h (k ∷ ks) = (h k, every P h ks)

  All-keys-AgreesAt :
      All AgreesAt (sort_keys (map (λ u. u.key) index ++ extra_keys index rows))
      ↔ ((k : Key) → AgreesAt k)
  All-keys-AgreesAt =
      let ks = map (λ (u : VolumeUpdate). u.key) index ++ extra_keys index rows in
      let sorted = sort_keys-All AgreesAt ks in
      (
        λ h k.
            let (mapped, extra) =
              All-split AgreesAt (map (λ (u : VolumeUpdate). u.key) index) (extra_keys index rows)
                (sorted.0 h) in
            elim (Option-cases (find_update k index)) [
              | inr (u, there) ↦ mapped-AgreesAt AgreesAt k u index mapped there
              | inl absent ↦ elim (Option-cases (find_row k rows)) [
                | inr (r, found) ↦ extra-AgreesAt AgreesAt k r rows extra absent found
                | inl nothing ↦ rw (AgreesAt, absent, nothing) tt
              ]
            ],
        λ h. sorted.1 (every AgreesAt h ks),
      )

-- Every stored transaction is in the log, and there are as many.
abbrev pub IsLogged : List ℕ → List Transaction → Type 0
IsLogged ids rows = All (λ t. any (λ i. i == t.id) ids ≡ true) rows × (length rows ≡ length ids)

find_unlogged-All :
    (ids : List ℕ) (rows : List Transaction)
    → (find_unlogged ids rows ≡ none) ↔ All (λ t. any (λ i. i == t.id) ids ≡ true) rows
unfolding find_unlogged
find_unlogged-All ids [] = (λ h. tt, λ h. refl)
find_unlogged-All ids (t ∷ ts) =
    let ih = find_unlogged-All ids ts in
    elim (Bool-cases (any (λ i. i == t.id) ids)) [
      | inl there ↦ rw there (λ h. (refl, ih.0 h), λ h. ih.1 h.1)
      | inr missing ↦ rw missing (λ h. absurd (cc h), λ h. absurd (cc h.0))
    ]

match_transactions-IsLogged :
    (ids : List ℕ) (rows : List Transaction)
    → (match_transactions ids rows ≡ none) ↔ IsLogged ids rows
unfolding match_transactions
match_transactions-IsLogged ids rows =
    let logged = find_unlogged-All ids rows in
    elim (Option-cases (find_unlogged ids rows)) [
      | inr (id, found) ↦
          rw (match_transactions, found)
            (λ h. absurd (cc h), λ h. absurd (cc (sym found ∙ logged.1 h.0)))
      | inl fine ↦ elim (Bool-cases (length rows == length ids)) [
        | inl same ↦
            rw (match_transactions, fine, same)
              (λ h. (logged.0 fine, (==_iff (length rows) (length ids)).0 same), λ h. refl)
        | inr other ↦
            rw (match_transactions, fine, other)
              (
                λ h. absurd (cc h),
                λ h. absurd (cc (sym other ∙ (==_iff (length rows) (length ids)).1 h.1)),
              )
      ]
    ]

-- The log replays, at every account and asset the stored row is what the replay comes to, and the
-- stored transactions are those of the log.
abbrev pub IsReplay : Encoding → Db → Type 0
IsReplay e db =
    (index : List VolumeUpdate) × (ids : List ℕ) × (replay_log e db.logs ≡ ok (index, ids))
    × ((k : Key) → Agrees (find_update k index) (find_row k db.volumes))
    × IsLogged ids db.transactions

verify_replayed-none :
    (state : List VolumeUpdate × List ℕ) (db : Db) (v : ℕ × Option ProjectionFault)
    → ((verify_replayed state db v).1 ≡ none)
      ↔ ((v.1 ≡ none) × (match_transactions state.1 db.transactions ≡ none))
verify_replayed-none state db (checked, some fault) = (λ h. absurd (cc h), λ h. absurd (cc h.0))
verify_replayed-none state db (checked, none) = (λ h. (refl, h), λ h. h.1)

-- VerifyProjection reports no fault exactly for such a database.
pub verify_projection-IsReplay :
    (e : Encoding) (db : Db) → ((verify_projection e db).1 ≡ none) ↔ IsReplay e db
unfolding verify_projection
verify_projection-IsReplay e db = go (replay_log e db.logs) refl
  where
    go :
        (r : Result Error (List VolumeUpdate × List ℕ))
        → replay_log e db.logs ≡ r
        → ((verify_projection e db).1 ≡ none) ↔ IsReplay e db
    go (err error) failed =
        rw (verify_projection, failed) (λ h. absurd (cc h), λ h. absurd (err-ne-ok h.2))
    go (ok (index, ids)) replays =
        let IsStored : List VolumeUpdate × List ℕ → Type 0 = λ s.
          ((k : Key) → Agrees (find_update k s.0) (find_row k db.volumes))
          × IsLogged s.1 db.transactions in
        let ks =
          sort_keys (map (λ (u : VolumeUpdate). u.key) index ++ extra_keys index db.volumes) in
        let rest = verify_replayed-none (index, ids) db (verify_keys index db.volumes 0 ks) in
        let keys = verify_keys-All index db.volumes 0 ks in
        let agree = All-keys-AgreesAt index db.volumes in
        let logged = match_transactions-IsLogged ids db.transactions in
        rw (verify_projection, replays)
          (
            λ h.
                let (compared, matched) = rest.0 h in
                (index, ids, refl, agree.0 (keys.0 compared), logged.0 matched),
            λ (index', ids', same, agrees, kept).
                let stored = subst IsStored (sym (ok-injective same)) (agrees, kept) in
                rest.1 (keys.1 (agree.1 stored.0), logged.1 stored.1),
          )
