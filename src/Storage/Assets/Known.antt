-- ===== src/Storage/Assets/Known.antt =====
-- What `checkAssets` lets through, with what a store remembers between commits.
use giro.Prelude.{
  ◌≡◌, sym, ap, ◌∙◌, subst, true, false, ◌||◌, none, some, List, [], ◌∷◌, if◌then◌else◌, inl, inr,
  ◌⊎◌, arith, All, All-append, Bool-cases, Option-cases, Bytes-discrete,
}
use giro.Ledger.Asset.{Asset}
use giro.Ledger.Posting.{Posting, Postings}
use giro.Storage.Schema.{Db}
use giro.Storage.Assets.{
  Cache, contains, exists_ledger, unknown_assets, first_missing, answer_assets, ask_assets,
  skip_or_ask, check_assets,
}

-- Whatever the store remembers is so: the assets are registered, and the ledger exists if it was
-- seen to.
pub record IsSound (c : Cache) (db : Db) : Type 0 where
  pub registered : All (λ a. contains a db.assets ≡ true) c.registered
  pub seen : c.ledger_seen ≡ true → exists_ledger db.ledger ≡ true

-- An asset that is among some is registered if all of them are.
contains-All :
    (P : Asset → Type 0) (a : Asset) (known : List Asset)
    → All P known
    → contains a known ≡ true
    → P a
contains-All P a [] h at = cc
contains-All P a (b ∷ known) h at = elim (Bytes-discrete a b) [
  | yes same ↦ subst P (sym same) h.0
  | no other ↦ contains-All P a known h.1 (ground arith)
]

first_missing-All :
    (rows asked : List Asset)
    → first_missing rows asked ≡ none
    → All (λ a. contains a rows ≡ true) asked
unfolding first_missing
first_missing-All rows [] h = tt
first_missing-All rows (a ∷ asked) h = elim (Bool-cases (contains a rows)) [
  | inl at ↦ (at, first_missing-All rows asked (rw (first_missing, at) at h))
  | inr missing ↦ absurd (cc (rw (first_missing, missing) at h))
]

module _ (registered : List Asset) where
  unknown_assets_known :
      (seen : List Asset) (s : Posting) (p : Postings)
      → (contains s.asset seen || contains s.asset registered) ≡ true
      → unknown_assets registered seen (s ∷ p) ≡ unknown_assets registered (s.asset ∷ seen) p
  unfolding unknown_assets
  unknown_assets_known seen s p known = ground arith

  unknown_assets_new :
      (seen : List Asset) (s : Posting) (p : Postings)
      → (contains s.asset seen || contains s.asset registered) ≡ false
      → unknown_assets registered seen (s ∷ p)
        ≡ s.asset ∷ unknown_assets registered (s.asset ∷ seen) p
  unfolding unknown_assets
  unknown_assets_new seen s p unknown = ground arith

  -- If what was seen, what is remembered, and what is asked for have a property, all assets have it.
  unknown_assets-All :
      (P : Asset → Type 0) (seen : List Asset) (p : Postings)
      → All P registered
      → All P seen
      → All P (unknown_assets registered seen p)
      → All (λ s. P s.asset) p
  unknown_assets-All P seen [] known old asked = tt
  unknown_assets-All P seen (s ∷ p) known old asked =
      elim (Bool-cases (contains s.asset seen || contains s.asset registered)) [
        | inl at ↦
            let here = held (Bool-cases (contains s.asset seen)) at in
            (
              here,
              unknown_assets-All P (s.asset ∷ seen) p known (here, old)
                  (subst (All P) (unknown_assets_known seen s p at) asked),
            )
        | inr new ↦
            let both = subst (All P) (unknown_assets_new seen s p new) asked in
            (both.0, unknown_assets-All P (s.asset ∷ seen) p known (both.0, old) both.1)
      ]
    where
      held :
          (contains s.asset seen ≡ true) ⊎ (contains s.asset seen ≡ false)
          → (contains s.asset seen || contains s.asset registered) ≡ true
          → P s.asset
      held (inl there) at = contains-All P s.asset seen old there
      held (inr new) at = contains-All P s.asset registered known (rw new at at)

skip_or_ask_seen : (c : Cache) (db : Db) → c.ledger_seen ≡ true → skip_or_ask c db [] ≡ (c, none)
skip_or_ask_seen c db seen = ap (λ b. if b then (c, none) else ask_assets c db []) seen

skip_or_ask_unseen :
    (c : Cache) (db : Db) → c.ledger_seen ≡ false → skip_or_ask c db [] ≡ ask_assets c db []
skip_or_ask_unseen c db unseen = ap (λ b. if b then (c, none) else ask_assets c db []) unseen

-- What a positive answer is worth: every asset asked about is registered, and the ledger exists.
module _ (c : Cache) (db : Db) (sound : IsSound c db) where
  ask_assets-IsSound :
      (asked : List Asset) {c' : Cache}
      → ask_assets c db asked ≡ (c', none)
      → All (λ a. contains a db.assets ≡ true) asked
        × IsSound c' db
        × (exists_ledger db.ledger ≡ true)
  ask_assets-IsSound asked {c'} h = elim (Bool-cases (exists_ledger db.ledger)) [
    | inr gone ↦ absurd (cc (ap (λ z. z.1) (rw (ask_assets, gone) at h)))
    | inl exists ↦
        answered exists (Option-cases (first_missing db.assets asked))
          (rw (ask_assets, exists) at h)
  ]
    where
      answered :
          exists_ledger db.ledger ≡ true
          → (first_missing db.assets asked ≡ none)
            ⊎ ((a : Asset) × (first_missing db.assets asked ≡ some a))
          → answer_assets c db asked (first_missing db.assets asked) ≡ (c', none)
          → All (λ a. contains a db.assets ≡ true) asked
            × IsSound c' db
            × (exists_ledger db.ledger ≡ true)
      answered exists (inr (a, missing)) h =
          absurd (cc (ap (λ z. z.1) (rw (missing, answer_assets) at h)))
      answered exists (inl none_missing) h =
          let all = first_missing-All db.assets asked none_missing in
          (
            all,
            subst (λ z. IsSound z db) (ap (λ z. z.0) (rw (none_missing, answer_assets) at h))
                (record {
                  registered =
                      All-append (λ a. contains a db.assets ≡ true) asked c.registered all
                        sound.registered;
                  seen = λ yes. exists;
                }),
            exists,
          )

  skip_or_ask-IsSound :
      (asked : List Asset) {c' : Cache}
      → skip_or_ask c db asked ≡ (c', none)
      → All (λ a. contains a db.assets ≡ true) asked
        × IsSound c' db
        × (exists_ledger db.ledger ≡ true)
  skip_or_ask-IsSound [] {c'} h = elim (Bool-cases c.ledger_seen) [
    | inl seen ↦ (
      tt,
      subst (λ z. IsSound z db) (ap (λ z. z.0) (sym (skip_or_ask_seen c db seen) ∙ h)) sound,
      sound.seen seen,
    )
    | inr unseen ↦ ask_assets-IsSound [] (sym (skip_or_ask_unseen c db unseen) ∙ h)
  ]
  skip_or_ask-IsSound (a ∷ asked) h = ask_assets-IsSound (a ∷ asked) h

  -- If the assets that a store remembers are registered and the ledger exists where it remembers
  -- so, and checkAssets passes, then the ledger exists, the asset of every posting is registered,
  -- and what the store remembers afterwards holds too.
  pub check_assets-IsSound :
      (p : Postings) {c' : Cache}
      → check_assets c db p ≡ (c', none)
      → All (λ s. contains s.asset db.assets ≡ true) p
        × IsSound c' db
        × (exists_ledger db.ledger ≡ true)
  unfolding check_assets
  check_assets-IsSound p h =
      let (asked, later, exists) = skip_or_ask-IsSound (unknown_assets c.registered [] p) h in
      (
        unknown_assets-All c.registered (λ a. contains a db.assets ≡ true) [] p sound.registered tt
            asked,
        later,
        exists,
      )
