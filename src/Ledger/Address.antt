-- ===== src/Ledger/Address.antt =====
-- ledger/address.go: account addresses, segments joined by ':'.
use giro.Prelude.{
  ℕ, Bool, false, ◌&&◌, ◌||◌, List, [], ◌∷◌, leb, ◌==◌, if◌then◌else◌, all, Bytes, codes,
}

abbrev pub Address : Type 0
Address = Bytes

-- `WorldAccount`
abbrev pub world_account : Address
world_account = codes "world"

abbrev pub colon : ℕ
colon = b':'

-- the class [a-zA-Z0-9_-]
unfoldable pub is_segment_byte : ℕ → Bool
is_segment_byte c =
    (leb b'a' c && leb c b'z')
    || (leb b'A' c && leb c b'Z')
    || (leb b'0' c && leb c b'9')
    || c == b'_'
    || c == b'-'

-- `addressSegment.MatchString`: one or more bytes of the class
unfoldable pub matches_segment : Bytes → Bool
unfolding is_segment_byte
matches_segment [] = false
matches_segment (c ∷ cs) = all is_segment_byte (c ∷ cs)

-- put a byte in front of the first piece
abbrev pub prepend : ℕ → List Bytes → List Bytes
prepend c [] = (c ∷ []) ∷ []
prepend c (piece ∷ pieces) = (c ∷ piece) ∷ pieces

-- `strings.Split(s, ":")`: the empty string has one piece, the empty one
unfoldable pub segments : Address → List Bytes
segments [] = [] ∷ []
segments (c ∷ cs) = if c == colon then [] ∷ segments cs else prepend c (segments cs)

-- `Address.Valid`
unfoldable pub is_valid_address : Address → Bool
unfolding segments matches_segment
is_valid_address a = all matches_segment (segments a)
