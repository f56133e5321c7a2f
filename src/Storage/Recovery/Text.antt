-- ===== src/Storage/Recovery/Text.antt =====
-- storage/recovery.go, `Tip.String` and `ParseTip`: a tip as ledger:logID:hash, with what they use
-- of strconv and of encoding/base64.
pub mod Numbers
pub mod Base64
pub mod Parsed
use giro.Prelude.{
  ℕ, ◌+◌, ◌-◌, ◌*◌, ◌/◌, ◌%◌, ◌^◌, Bool, true, false, ◌&&◌, ◌||◌, Option, none, some, List, [], ◌∷◌,
  ◌++◌, map, if◌then◌else◌, ◌==◌, ltb, leb, Bytes, codes, ℤ, pos, negsuc, suc,
}
use giro.Ledger.Address.{segments, colon}
use giro.Storage.Revert.{format_int}
use giro.Storage.Recovery.{Tip}

abbrev pub and_then {ℓ κ} : {A : Type ℓ} {B : Type κ} → Option A → (A → Option B) → Option B
and_then none next = none
and_then (some a) next = next a

-- the digits of `strconv.ParseUint(s, 10, 64)`, before its range check
unfoldable pub digits_value : ℕ → Bytes → Option ℕ
digits_value value [] = some value
digits_value value (c ∷ cs) =
    let rest = digits_value (value * 10 + (c - b'0')) cs in
    if leb b'0' c && leb c b'9' then rest else none

abbrev pub int64_limit : ℕ
int64_limit = 2 ^ 63

abbrev pub in_range : Bool → ℕ → Option ℤ
in_range false n = if ltb n int64_limit then some (pos n) else none
in_range true n =
    if leb n int64_limit then some (if n == 0 then pos 0 else negsuc (n - 1)) else none

-- one digit at least
abbrev pub parse_unsigned : Bool → Bytes → Option ℤ
parse_unsigned negative [] = none
parse_unsigned negative (c ∷ cs) = and_then (digits_value 0 (c ∷ cs)) (in_range negative)

-- `strconv.ParseInt(s, 10, 64)`
unfoldable pub parse_int : Bytes → Option ℤ
unfolding digits_value
parse_int [] = none
parse_int (c ∷ cs) =
    if c == b'-'
    then parse_unsigned true cs
    else if c == b'+'
    then parse_unsigned false cs
    else parse_unsigned false (c ∷ cs)

-- `%d`
abbrev pub format_int64 : ℤ → Bytes
format_int64 (pos n) = format_int n
format_int64 (negsuc n) = b'-' ∷ format_int (suc n)

-- the alphabet of `base64.RawURLEncoding`, and the values of its letters
unfoldable pub base64_letter : ℕ → ℕ
base64_letter v =
    if ltb v 26
    then b'A' + v
    else if ltb v 52
    then b'a' + (v - 26)
    else if ltb v 62
    then b'0' + (v - 52)
    else if v == 62
    then b'-'
    else b'_'

unfoldable pub base64_value : ℕ → Option ℕ
base64_value c =
    if leb b'A' c && leb c b'Z'
    then some (c - b'A')
    else if leb b'a' c && leb c b'z'
    then some (c - b'a' + 26)
    else if leb b'0' c && leb c b'9'
    then some (c - b'0' + 52)
    else if c == b'-'
    then some 62
    else if c == b'_'
    then some 63
    else none

-- three bytes as four values of six bits; one byte left makes two values, and two make three
unfoldable pub sextets : Bytes → List ℕ
sextets [] = []
sextets (a ∷ []) = (a / 4) ∷ (a % 4 * 16) ∷ []
sextets (a ∷ b ∷ []) = (a / 4) ∷ (a % 4 * 16 + b / 16) ∷ (b % 16 * 4) ∷ []
sextets (a ∷ b ∷ c ∷ rest) =
    (a / 4) ∷ (a % 4 * 16 + b / 16) ∷ (b % 16 * 4 + c / 64) ∷ (c % 64) ∷ sextets rest

-- the bytes of the values; a single value left over is an error, bits left over are dropped
unfoldable pub octets : List ℕ → Option Bytes
octets [] = some []
octets (a ∷ []) = none
octets (a ∷ b ∷ []) = some ((a * 4 + b / 16) ∷ [])
octets (a ∷ b ∷ c ∷ []) = some ((a * 4 + b / 16) ∷ (b % 16 * 16 + c / 4) ∷ [])
octets (a ∷ b ∷ c ∷ d ∷ rest) =
    and_then (octets rest)
      (λ bs. some ((a * 4 + b / 16) ∷ (b % 16 * 16 + c / 4) ∷ (c % 4 * 64 + d) ∷ bs))

-- the values of a text, in which line ends are passed over
unfoldable pub base64_values : Bytes → Option (List ℕ)
unfolding base64_value
base64_values [] = some []
base64_values (c ∷ cs) =
    let rest = base64_values cs in
    if c == 10 || c == 13
    then rest
    else and_then (base64_value c) (λ v. and_then rest (λ vs. some (v ∷ vs)))

-- `base64.RawURLEncoding.EncodeToString`
unfoldable pub encode_base64 : Bytes → Bytes
unfolding sextets base64_letter
encode_base64 bs = map base64_letter (sextets bs)

-- `base64.RawURLEncoding.DecodeString`
unfoldable pub decode_base64 : Bytes → Option Bytes
unfolding base64_values octets
decode_base64 text = and_then (base64_values text) octets

abbrev pub is_zero : ℤ → Bool
is_zero (pos n) = n == 0
is_zero (negsuc n) = false

-- `Tip.String`
unfoldable pub to_string : Tip → Bytes
unfolding encode_base64
to_string t =
    if is_zero t.log_id
    then t.ledger ++ codes ":0:"
    else t.ledger ++ colon ∷ (format_int64 t.log_id ++ colon ∷ encode_base64 t.hash)

abbrev pub tip_from : List Bytes → Option Tip
tip_from (name ∷ id ∷ text ∷ []) = and_then (parse_int id) λ n.
    and_then (decode_base64 text)
      λ hash. some (record { ledger = name; tx_id = pos 0; log_id = n; hash = hash })
tip_from _ = none

-- `ParseTip`: none for a malformed text
unfoldable pub parse_tip : Bytes → Option Tip
unfolding segments parse_int decode_base64
parse_tip text = tip_from (segments text)
