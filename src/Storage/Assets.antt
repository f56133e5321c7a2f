-- ===== src/Storage/Assets.antt =====
-- storage/assets.go: which assets a ledger may handle.
pub mod Known
use giro.Prelude.{
  Bool, true, false, not, ◌||◌, Option, none, some, List, [], ◌∷◌, ◌++◌, if◌then◌else◌, any, Result,
  ok, err, Bytes,
}
use giro.Ledger.Asset.{Asset, is_valid_asset, asset_code}
use giro.Ledger.Posting.{Postings}
use giro.Storage.Schema.{Db, LedgerRow, Error, ledger_not_found, unknown_asset, invalid_asset_name}
use giro.Storage.Rows.{same_bytes}

-- what a `Store` remembers between commits: `registered` and `ledgerSeen`
pub record Cache : Type 0 where
  pub registered : List Asset
  pub ledger_seen : Bool

abbrev pub contains : Asset → List Asset → Bool
contains a assets = any (same_bytes a) assets

abbrev pub exists_ledger : Option LedgerRow → Bool
exists_ledger none = false
exists_ledger (some l) = true

-- the loop of `checkAssets`: the distinct assets of the postings that the cache does not know
unfoldable pub unknown_assets : List Asset → List Asset → Postings → List Asset
unknown_assets registered seen [] = []
unknown_assets registered seen (posting ∷ p) =
    let rest = unknown_assets registered (posting.asset ∷ seen) p in
    if contains posting.asset seen
    then rest
    else if contains posting.asset registered
    then rest
    else posting.asset ∷ rest

-- the first of the assets that has no row
unfoldable pub first_missing : List Asset → List Asset → Option Asset
first_missing rows [] = none
first_missing rows (a ∷ as') = if contains a rows then first_missing rows as' else some a

-- `assetWithCodeOf`: the registered asset with the same code, or the empty string
unfoldable pub asset_with_code_of : Bytes → List Asset → Asset
unfolding asset_code
asset_with_code_of code [] = []
asset_with_code_of code (a ∷ rows) =
    if same_bytes (asset_code a) code then a else asset_with_code_of code rows

-- the answer of the query in `checkAssets`, and what is remembered of it
abbrev pub answer_assets : Cache → Db → List Asset → Option Asset → Cache × Option Error
answer_assets c db asked (some missing) = (
  record c { ledger_seen = true },
  some (unknown_asset missing (asset_with_code_of (asset_code missing) db.assets)),
)
answer_assets c db asked none =
    (record { registered = asked ++ c.registered; ledger_seen = true }, none)

abbrev pub ask_assets : Cache → Db → List Asset → Cache × Option Error
ask_assets c db asked =
    if exists_ledger db.ledger
    then answer_assets c db asked (first_missing db.assets asked)
    else (c, some ledger_not_found)

abbrev pub skip_or_ask : Cache → Db → List Asset → Cache × Option Error
skip_or_ask c db [] = if c.ledger_seen then (c, none) else ask_assets c db []
skip_or_ask c db (a ∷ asked) = ask_assets c db (a ∷ asked)

-- `checkAssets`
unfoldable pub check_assets : Cache → Db → Postings → Cache × Option Error
unfolding unknown_assets first_missing asset_with_code_of
check_assets c db p = skip_or_ask c db (unknown_assets c.registered [] p)

-- `RegisterAsset`: the one-scale-per-code index refuses a second scale of a code
unfoldable pub register_asset : Asset → Db → Result Error Db
unfolding asset_with_code_of
register_asset a db =
    if not (is_valid_asset a)
    then err invalid_asset_name
    else if contains a db.assets
    then ok db
    else elim (asset_with_code_of (asset_code a) db.assets) [
      | [] ↦ ok (record db { assets = db.assets ++ a ∷ [] })
      | c ∷ cs ↦ err (unknown_asset a (c ∷ cs))
    ]
