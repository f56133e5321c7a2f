-- ===== src/Storage/Log/Verified.antt =====
-- What it is that VerifyLog accepts.
use giro.Prelude.{
  ℕ, ◌+◌, ◌≡◌, ◌↔◌, ◌⊎◌, refl, sym, ap, ◌∙◌, true, Option, none, some, List, [], ◌∷◌, ◌++◌, Result,
  ok, err, ok-injective, err-ne-ok, >>=-eq-ok, inl, inr, arith, Bytes, Bool-cases, ==_iff, ◌==◌, ℤ,
  pos, ◌+ℤ◌, eqb_ℤ, if◌then◌else◌, eq_of_parts, Option-cases,
}
use giro.Storage.Schema.{Log, LogType, log_recovery, Error}
use giro.Storage.Rows.{same_bytes}
use giro.Storage.Encoding.{Encoding, RecoveryPayload}
use giro.Storage.Log.{chain_hash, declared_gap, declares, check_id, verify_from, verify_log}
use giro.Storage.Log.Chain.{verify_from_sound, verify_from-IsLinked, check_id_due}

module _ (e : Encoding) where
  -- A recovery that says that the ids from `expected` to before its own are skipped.
  abbrev pub DeclaresGap : ℕ → Log → Type 0
  DeclaresGap expected l =
      (l.type ≡ log_recovery)
      × ((p : RecoveryPayload) × (e.unmarshal_recovery l.content ≡ some p)
          × (p.resumed_from +ℤ pos 1 ≡ pos expected)
          × (p.skipped_through +ℤ pos 1 ≡ pos l.id))

  -- Every entry has the id after the one before it, or declares the gap, and its hash is the digest
  -- of the hash before it and its content.
  abbrev pub IsVerifiedFrom : Bytes → ℕ → List Log → Type 0
  IsVerifiedFrom previous expected [] = Unit
  IsVerifiedFrom previous expected (l ∷ ls) =
      ((l.id ≡ expected) ⊎ DeclaresGap expected l)
      × (l.hash ≡ e.sha256 (previous ++ l.content))
      × IsVerifiedFrom l.hash (l.id + 1) ls

  abbrev pub IsVerified : List Log → Type 0
  IsVerified logs = IsVerifiedFrom [] 1 logs

  declares-some :
      (expected id : ℕ) (p : RecoveryPayload)
      → declares e expected id (some p) ≡ true
      → (p.resumed_from +ℤ pos 1 ≡ pos expected) × (p.skipped_through +ℤ pos 1 ≡ pos id)
  declares-some expected id p h = (
    eqb_ℤ-eq (p.resumed_from +ℤ pos 1) (pos expected) (ground arith),
    eqb_ℤ-eq (p.skipped_through +ℤ pos 1) (pos id) (ground arith),
  )
    where
      eqb_ℤ-eq : (a b : ℤ) → eqb_ℤ a b ≡ true → a ≡ b
      eqb_ℤ-eq a b h = eq_of_parts a b (ground arith)

  declared_gap-some :
      (l : Log) (p : RecoveryPayload)
      → declared_gap e l ≡ ok (some p)
      → (l.type ≡ log_recovery) × (e.unmarshal_recovery l.content ≡ some p)
  declared_gap-some l p h = go l.type refl
    where
      go :
          (t : LogType)
          → l.type ≡ t
          → (l.type ≡ log_recovery) × (e.unmarshal_recovery l.content ≡ some p)
      go log_recovery typed = elim (Option-cases (e.unmarshal_recovery l.content)) [
        | inl absent ↦ absurd (err-ne-ok (rw (declared_gap, typed, absent) at h))
        | inr (q, found) ↦ (typed, found ∙ ok-injective (rw (declared_gap, typed, found) at h))
      ]
      go LogType.log_new_transaction typed =
          absurd (cc (ok-injective (rw (declared_gap, typed) at h)))
      go LogType.log_reverted_transaction typed =
          absurd (cc (ok-injective (rw (declared_gap, typed) at h)))
      go LogType.log_set_metadata typed = absurd (cc (ok-injective (rw (declared_gap, typed) at h)))
      go LogType.log_delete_metadata typed =
          absurd (cc (ok-injective (rw (declared_gap, typed) at h)))

  abbrev checked_gap : ℕ → ℕ → Option RecoveryPayload → Result Error (Unit {0})
  checked_gap expected id o =
      if declares e expected id o then ok tt else err (Error.chain_broken id)

  linked-hash :
      (previous : Bytes) (l : Log)
      → (same_bytes (chain_hash e previous l.content) l.hash ≡ true)
        ↔ (l.hash ≡ e.sha256 (previous ++ l.content))
  unfolding chain_hash
  linked-hash previous l = (λ h. ground arith, λ h. ground arith)

  check_id-declared :
      (expected : ℕ) (l : Log)
      → check_id e expected l ≡ ok tt
      → (l.id ≡ expected) ⊎ DeclaresGap expected l
  check_id-declared expected l h = elim (Bool-cases (l.id == expected)) [
    | inl due ↦ inl ((==_iff l.id expected).0 due)
    | inr gap ↦
        let (declared, decoded, rest) =
          >>=-eq-ok (declared_gap e l) (checked_gap expected l.id) (rw gap at h) in
        inr (go declared decoded rest)
  ]
    where
      go :
          (o : Option RecoveryPayload)
          → declared_gap e l ≡ ok o
          → checked_gap expected l.id o ≡ ok tt
          → DeclaresGap expected l
      go none decoded rest = absurd (err-ne-ok rest)
      go (some p) decoded rest = elim (Bool-cases (declares e expected l.id (some p))) [
        | inr other ↦ absurd (err-ne-ok (rw other at rest))
        | inl declaring ↦
            let (typed, found) = declared_gap-some l p decoded in
            let (from, through) = declares-some expected l.id p declaring in
            (typed, (p, found, from, through))
      ]

  declared-check_id :
      (expected : ℕ) (l : Log)
      → (l.id ≡ expected) ⊎ DeclaresGap expected l
      → check_id e expected l ≡ ok tt
  declared-check_id expected l (inl due) = check_id_due e expected l due
  declared-check_id expected l (inr (typed, (p, found, from, through))) =
      ground (arith, from, through, typed, found)

  -- VerifyLog reports no error exactly for such a log.
  verify_from-IsVerifiedFrom :
      (previous : Bytes) (expected checked : ℕ) (ls : List Log)
      → ((verify_from e previous expected checked ls).1 ≡ none)
        ↔ IsVerifiedFrom previous expected ls
  verify_from-IsVerifiedFrom previous expected checked [] =
      unfold verify_from in (λ h. tt, λ h. refl)
  verify_from-IsVerifiedFrom previous expected checked (l ∷ ls) =
      let ih = verify_from-IsVerifiedFrom l.hash (l.id + 1) (checked + 1) ls in
      (
        λ h.
            let (due, linked) =
              verify_from-IsLinked e previous expected checked l ls
                (ap (λ o. ((verify_from e previous expected checked (l ∷ ls)).0, o)) h) in
            (
              check_id-declared expected l due,
              (linked-hash previous l).0 linked,
              ih.0 (
                  ap (λ z. z.1)
                    (sym (verify_from_sound e previous expected checked l ls due linked))
                  ∙ h),
            ),
        λ (due, linked, rest).
            ap (λ z. z.1)
              (verify_from_sound e previous expected checked l ls (declared-check_id expected l due)
                ((linked-hash previous l).1 linked))
            ∙ ih.1 rest,
      )

  pub verify_log-IsVerified : (logs : List Log) → ((verify_log e logs).1 ≡ none) ↔ IsVerified logs
  unfolding verify_log
  verify_log-IsVerified logs = verify_from-IsVerifiedFrom [] 1 0 logs
