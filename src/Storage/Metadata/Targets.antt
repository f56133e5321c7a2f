-- ===== src/Storage/Metadata/Targets.antt =====
-- The row that a metadata change names: what it has afterwards, and when there is nothing to change.
use giro.Prelude.{
  ◌≡◌, ◌∙◌, refl, sym, subst, >>=-eq-ok, ◌>>◌, ap, inl, inr, Bool, true, false, not, ◌&&◌, Option,
  none, some, List, [], ◌∷◌, any, if◌then◌else◌, Result, ok, arith, Bytes, Bool-cases, Option-cases,
  ok-injective, err-ne-ok, ◌⊎◌,
}
use giro.Ledger.Metadata.{
  IsMap, merge_metadata, remove_key, has_key, contains_metadata, contains-merge, merge-contained,
  remove-absent, has_key-remove_key,
}
use giro.Storage.Schema.{Metadata, Error}
use giro.Storage.Metadata.{
  find_target, lock_target, update_where, needs_delete, needs_merge, merge_rows, lock_and_merge,
  lock_and_delete_key,
}

module _ {A : Type 0} (is_target : A → Bool) where
  lock_target-some :
      (missing : Error) (rows : List A)
      → lock_target is_target missing rows ≡ ok tt
      → (r : A) × (find_target is_target rows ≡ some r)
  unfolding lock_target
  lock_target-some missing rows h = elim (Option-cases (find_target is_target rows)) [
    | inl absent ↦ absurd (err-ne-ok (rw (lock_target, absent) at h))
    | inr found ↦ found
  ]

  some-lock_target :
      (missing : Error) (rows : List A) (r : A)
      → find_target is_target rows ≡ some r
      → lock_target is_target missing rows ≡ ok tt
  unfolding lock_target
  some-lock_target missing rows r found = rw (lock_target, found)

  find_target-is_target :
      (rows : List A) (r : A) → find_target is_target rows ≡ some r → is_target r ≡ true
  unfolding find_target
  find_target-is_target [] r h = absurd (cc h)
  find_target-is_target (q ∷ rows) r h = ground (arith, find_target-is_target rows r)

  module _ (hit : A → Bool) (change : A → A) where
    find-update_where :
        ((r : A) → is_target (change r) ≡ is_target r)
        → (rows : List A) (r : A) → find_target is_target rows ≡ some r
        → find_target is_target (update_where hit change rows)
          ≡ some (if hit r then change r else r)
    unfolding find_target update_where
    find-update_where keep [] r h = absurd (cc h)
    find-update_where keep (q ∷ rows) r h = ground (arith, keep q, find-update_where keep rows r)

module _ {A : Type 0} (hit : A → Bool) (change : A → A) where
  update_where-idle : (rows : List A) → any hit rows ≡ false → update_where hit change rows ≡ rows
  unfolding update_where
  update_where-idle [] h = refl
  update_where-idle (r ∷ rows) h = ground (arith, update_where-idle rows)

  any-update_where :
      ((r : A) → hit r ≡ true → hit (change r) ≡ false)
      → (rows : List A) → any hit (update_where hit change rows) ≡ false
  unfolding update_where
  any-update_where settles [] = refl
  any-update_where settles (r ∷ rows) = ground (arith, settles r, any-update_where settles rows)

-- The column is what is set, and the name of the row does not depend on it.
pub record IsColumn {A : Type 0} (is_target : A → Bool) (column : A → Metadata)
    (set : Metadata → A → A) : Type 0 where
  pub kept : (m : Metadata) (r : A) → is_target (set m r) ≡ is_target r
  pub read : (m : Metadata) (r : A) → column (set m r) ≡ m

module _ {A : Type 0} (is_target : A → Bool) (column : A → Metadata) (set : Metadata → A → A)
    (c : IsColumn is_target column set) where
  -- What a change of the column does: the row that it names has the new value, the rows are as they
  -- were if it reports no change, and to repeat it changes nothing.
  pub record Changed (value : Metadata → Metadata) (again : List A → Result Error (List A × Bool))
      (rows rows' : List A) (changed : Bool) : Type 0 where
    pub old : A
    pub current : A
    pub before : find_target is_target rows ≡ some old
    pub after : find_target is_target rows' ≡ some current
    pub how : (current ≡ old) ⊎ (current ≡ set (value (column old)) old)
    pub value_read : column current ≡ value (column old)
    pub idle : changed ≡ false → rows' ≡ rows
    pub settled : again rows' ≡ ok (rows', false)

  module _ (value : Metadata → Metadata) (needs : Metadata → Bool)
      (same : (m : Metadata) → needs m ≡ false → value m ≡ m)
      (settles : (m : Metadata) → needs (value m) ≡ false) where
    abbrev is_hit : A → Bool
    is_hit r = is_target r && needs (column r)

    abbrev change : A → A
    change r = set (value (column r)) r

    -- the shape of `lockAndMerge` and of `lockAndDeleteKey`
    abbrev change_rows : Error → List A → Result Error (List A × Bool)
    change_rows missing rows =
        lock_target is_target missing rows >> ok (update_where is_hit change rows, any is_hit rows)

    is_hit-change : (r : A) → is_hit r ≡ true → is_hit (change r) ≡ false
    is_hit-change r h = ground (arith, c.read (value (column r)) r, settles (column r))

    changed_how :
        (r : A) (hit : Bool)
        → let now = if hit then change r else r in (now ≡ r) ⊎ (now ≡ set (value (column r)) r)
    changed_how r true = inr refl
    changed_how r false = inl refl

    changed_value :
        (r : A) → is_target r ≡ true → column (if is_hit r then change r else r) ≡ value (column r)
    changed_value r target = elim (Bool-cases (needs (column r))) [
      | inl due ↦ ground (arith, c.read (value (column r)) r)
      | inr idle ↦ ground (arith, same (column r))
    ]

    change_rows-Changed :
        (missing : Error) (rows : List A) {rows' : List A} {changed : Bool}
        → change_rows missing rows ≡ ok (rows', changed)
        → Changed value (change_rows missing) rows rows' changed
    change_rows-Changed missing rows h =
        let (_, locked, result) =
          >>=-eq-ok (lock_target is_target missing rows)
            (λ _. ok (update_where is_hit change rows, any is_hit rows)) h in
        let (old, found) = lock_target-some is_target missing rows locked in
        let after =
          find-update_where is_target is_hit change (λ r. c.kept (value (column r)) r) rows old
            found in
        subst (λ z. Changed value (change_rows missing) rows z.0 z.1) (ok-injective result)
          (record {
            old = old;
            current = if is_hit old then change old else old;
            before = found;
            after = after;
            how = changed_how old (is_hit old);
            value_read = changed_value old (find_target-is_target is_target rows old found);
            idle = update_where-idle is_hit change rows;
            settled =
                let updated = update_where is_hit change rows in
                let none_due = any-update_where is_hit change is_hit-change rows in
                rw
                  (
                    some-lock_target is_target missing updated _ after,
                    update_where-idle is_hit change updated none_due,
                    none_due,
                  )
                  refl;
          })

  pub lock_and_delete_key-rows :
      (missing : Error) (key : Bytes) (rows : List A) {rows' : List A} {changed : Bool}
      → lock_and_delete_key is_target column set missing key rows ≡ ok (rows', changed)
      → rows'
        ≡ update_where
            (needs_delete is_target column set key)
            (λ r. set (remove_key key (column r)) r)
            rows
  unfolding lock_and_delete_key
  lock_and_delete_key-rows missing key rows h =
      let hit = needs_delete is_target column set key in
      let (_, _, result) =
        >>=-eq-ok (lock_target is_target missing rows)
          (λ _. ok (update_where hit (λ r. set (remove_key key (column r)) r) rows, any hit rows))
          h in
      sym (ap (λ z. z.0) (ok-injective result))

  pub lock_and_merge-Changed :
      (missing : Error) (m : Metadata) (rows : List A) {rows' : List A} {changed : Bool}
      → IsMap m
      → lock_and_merge is_target column set missing (some m) rows ≡ ok (rows', changed)
      → Changed
          (λ old. merge_metadata old m)
          (lock_and_merge is_target column set missing (some m))
          rows
          rows'
          changed
  unfolding lock_and_merge
  lock_and_merge-Changed missing m rows distinct h =
      change_rows-Changed (λ old. merge_metadata old m) (λ old. not (contains_metadata old m))
        (λ old idle. merge-contained old m (ground arith))
        (λ old. ap not (contains-merge old m distinct)) missing rows h

  -- A merge that succeeds was given what jsonb does not refuse.
  pub lock_and_merge-stored :
      (missing : Error) (given : Option Metadata) (rows : List A) {z : List A × Bool}
      → lock_and_merge is_target column set missing given rows ≡ ok z
      → (m : Metadata) × (given ≡ some m)
        × (lock_and_merge is_target column set missing (some m) rows ≡ ok z)
  unfolding lock_and_merge
  lock_and_merge-stored missing none rows h =
      let (_, _, refused) = >>=-eq-ok (lock_target is_target missing rows) _ h in
      absurd (err-ne-ok refused)
  lock_and_merge-stored missing (some m) rows h = (m, refl, h)

  pub lock_and_merge-idle :
      (missing : Error) (m : Metadata) (rows : List A) {rows' : List A} {changed : Bool}
      → lock_and_merge is_target column set missing (some m) rows ≡ ok (rows', changed)
      → changed ≡ false
      → rows' ≡ rows
  unfolding lock_and_merge
  lock_and_merge-idle missing m rows h idle =
      let (_, _, result) =
        >>=-eq-ok (lock_target is_target missing rows)
          (λ _. ok (merge_rows is_target column set rows m)) h in
      let same = ok-injective result in
      sym (ap (λ z. z.0) same)
      ∙ update_where-idle (needs_merge is_target column set m)
          (λ r. set (merge_metadata (column r) m) r) rows (ap (λ z. z.1) same ∙ idle)

  pub lock_and_delete_key-Changed :
      (missing : Error) (key : Bytes) (rows : List A) {rows' : List A} {changed : Bool}
      → lock_and_delete_key is_target column set missing key rows ≡ ok (rows', changed)
      → Changed
          (remove_key key)
          (lock_and_delete_key is_target column set missing key)
          rows
          rows'
          changed
  unfolding lock_and_delete_key
  lock_and_delete_key-Changed missing key rows h =
      change_rows-Changed (remove_key key) (has_key key) (remove-absent key)
        (has_key-remove_key key) missing rows h
