-- ===== src/Ledger/Asset.antt =====
-- ledger/asset.go: assets, which carry their own scale.
use giro.Prelude.{
  ℕ, ◌+◌, ◌-◌, ◌*◌, Bool, true, false, ◌&&◌, ◌||◌, Option, none, some, [], ◌∷◌, leb, ◌==◌,
  if◌then◌else◌, all, length, Bytes,
}

abbrev pub Asset : Type 0
Asset = Bytes

abbrev pub slash : ℕ
slash = b'/'

abbrev pub is_upper : ℕ → Bool
is_upper c = leb b'A' c && leb c b'Z'

abbrev pub is_digit : ℕ → Bool
is_digit c = leb b'0' c && leb c b'9'

-- the class [A-Z0-9_]
abbrev pub is_code_byte : ℕ → Bool
is_code_byte c = is_upper c || is_digit c || c == b'_'

-- `\d{1,6}` to the end of the string
unfoldable pub matches_scale : Bytes → Bool
matches_scale digits = all is_digit digits && leb 1 (length digits) && leb (length digits) 6

-- `[A-Z0-9_]*(/\d{1,6})?` to the end of the string
unfoldable pub matches_rest : Bytes → Bool
matches_rest [] = true
matches_rest (c ∷ cs) = if c == slash then matches_scale cs else is_code_byte c && matches_rest cs

-- `Asset.Valid`: `^[A-Z][A-Z0-9_]*(/\d{1,6})?$`
unfoldable pub is_valid_asset : Asset → Bool
unfolding matches_rest matches_scale
is_valid_asset [] = false
is_valid_asset (c ∷ cs) = is_upper c && matches_rest cs

-- `strings.Cut(s, "/")`: what stands before the first slash, and after it if there is one
unfoldable pub cut : Bytes → Bytes × Option Bytes
cut [] = ([], none)
cut (c ∷ cs) =
    let (before, after) = cut cs in if c == slash then ([], some cs) else (c ∷ before, after)

-- `strconv.Atoi` on digits
unfoldable pub atoi_from : ℕ → Bytes → ℕ
atoi_from n [] = n
atoi_from n (c ∷ cs) = atoi_from (10 * n + (c - b'0')) cs

abbrev scale_of : Option Bytes → ℕ
scale_of none = 0
scale_of (some digits) = atoi_from 0 digits

-- `Asset.Scale`: `none` where the source reports `ok = false`
unfoldable pub scale : Asset → Option ℕ
unfolding is_valid_asset cut atoi_from
scale a = if is_valid_asset a then some (scale_of (cut a).1) else none

-- `Asset.Code`
unfoldable pub asset_code : Asset → Bytes
unfolding cut
asset_code a = (cut a).0
