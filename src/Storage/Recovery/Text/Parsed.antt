-- ===== src/Storage/Recovery/Text/Parsed.antt =====
-- The text of a tip, written and read.
use giro.Prelude.{
  ℕ, ◌<◌, ◌≡◌, ◌≢◌, refl, ap, ◌∙◌, some, [], ◌∷◌, ◌++◌, arith, Bytes, All, Bool-cases, inl, inr,
  ◌==◌, if◌then◌else◌, pos,
}
use giro.Ledger.Address.{segments, colon, prepend}
use giro.Storage.Revert.{format_int, digits_from}
use giro.Storage.Recovery.{Tip}
use giro.Storage.Recovery.Text.{
  to_string, parse_tip, encode_base64, decode_base64, int64_limit, tip_from,
}
use giro.Storage.Recovery.Text.Numbers.{parse_int-format_int, format_int-IsDigit, IsDigit}
use giro.Storage.Recovery.Text.Base64.{decode-encode_base64, encode_base64_no_colon}

abbrev pub HasNoColon : Bytes → Type 0
HasNoColon bs = All (λ c. c ≢ colon) bs

segments-step : (c : ℕ) (cs : Bytes) → c ≢ colon → segments (c ∷ cs) ≡ prepend c (segments cs)
unfolding segments
segments-step c cs h = ground arith

segments_piece : (piece : Bytes) → HasNoColon piece → segments piece ≡ piece ∷ []
unfolding segments
segments_piece [] h = refl
segments_piece (c ∷ cs) h = segments-step c cs h.0 ∙ ap (prepend c) (segments_piece cs h.1)

segments-colon :
    (piece rest : Bytes)
    → HasNoColon piece
    → segments (piece ++ colon ∷ rest) ≡ piece ∷ segments rest
unfolding segments
segments-colon [] rest h = refl
segments-colon (c ∷ cs) rest h =
    segments-step c (cs ++ colon ∷ rest) h.0 ∙ ap (prepend c) (segments-colon cs rest h.1)

segments_three :
    (a b c : Bytes)
    → HasNoColon a
    → HasNoColon b
    → HasNoColon c
    → segments (a ++ colon ∷ (b ++ colon ∷ c)) ≡ a ∷ b ∷ c ∷ []
segments_three a b c ha hb hc =
    segments-colon a (b ++ colon ∷ c) ha
    ∙ ap (λ s. a ∷ s) (segments-colon b c hb ∙ ap (λ s. b ∷ s) (segments_piece c hc))

digits_no_colon : (bs : Bytes) → All IsDigit bs → HasNoColon bs
digits_no_colon [] h = tt
digits_no_colon (c ∷ cs) h = (λ e. absurd (omega arith), digits_no_colon cs h.1)

parse_tip_parts :
    (name text : Bytes) (n : ℕ) (hash : Bytes)
    → HasNoColon name
    → HasNoColon text
    → n < int64_limit
    → decode_base64 text ≡ some hash
    → parse_tip (name ++ colon ∷ (format_int n ++ colon ∷ text))
      ≡ some (record { ledger = name; tx_id = pos 0; log_id = pos n; hash = hash })
unfolding parse_tip
parse_tip_parts name text n hash plain text_plain small decoded =
    ap tip_from (
      segments_three name (format_int n) text plain
        (digits_no_colon (format_int n) (format_int-IsDigit n)) text_plain)
    ∙ rw (parse_int-format_int n small, decoded) refl

decode_empty : decode_base64 [] ≡ some []
unfolding decode_base64
decode_empty = refl

-- What a tip's text keeps: not the transaction id, and the hash only if there is an entry.
abbrev pub kept : Tip → ℕ → Tip
kept t n = record {
  ledger = t.ledger;
  tx_id = pos 0;
  log_id = pos n;
  hash = if n == 0 then [] else t.hash;
}

-- ParseTip reads what String writes of a tip whose ledger has no colon in its name, whose log id is
-- no negative int64 and whose hash is of bytes: the ledger, the log id, and the hash if the log id
-- is not 0, with no transaction id.
pub parse_tip-to_string :
    (t : Tip) (n : ℕ)
    → HasNoColon t.ledger
    → t.log_id ≡ pos n
    → n < int64_limit
    → All (λ b. b < 256) t.hash
    → parse_tip (to_string t) ≡ some (kept t n)
unfolding to_string digits_from
parse_tip-to_string t n plain numbered small bytes = elim (Bool-cases (n == 0)) [
  | inl zeroth ↦
      let n_zero : n ≡ 0 = ground arith in
      rw (numbered, zeroth)
        (rw n_zero (parse_tip_parts t.ledger [] 0 [] plain tt (omega arith) decode_empty))
  | inr later ↦
      rw (numbered, later)
        (parse_tip_parts t.ledger (encode_base64 t.hash) n t.hash plain
          (encode_base64_no_colon t.hash bytes) small (decode-encode_base64 t.hash bytes))
]
