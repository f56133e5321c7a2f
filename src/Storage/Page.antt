-- ===== src/Storage/Page.antt =====
-- storage/page.go, and the lists of storage/read.go that are read page by page.
pub mod Walk
use giro.Prelude.{
  ℕ, zero, suc, ◌≡◌, ◌<◌, Bool, true, false, not, ◌&&◌, ◌||◌, Option, none, some, List, [], ◌∷◌,
  ◌++◌, any, take, length, if◌then◌else◌, ite, leb, Bytes, Bytes-discrete, Result, ok, err, ◌>>=◌,
  All, ℤ, pos, pos_part, ltb_ℤ, eqb_ℤ,
}
use giro.Ledger.Address.{Address}
use giro.Ledger.Posting.{Posting, Postings}
use giro.Storage.Schema.{Db, Transaction, Log, Time}
use giro.Storage.Rows.{is_empty, same_bytes}
use giro.Storage.Runs.{is_like}
use giro.Storage.Recovery.Text.{encode_base64, decode_base64}

-- `DefaultPageSize`, `MaxPageSize`
abbrev pub default_page_size : ℤ
default_page_size = pos 25

abbrev pub max_page_size : ℤ
max_page_size = pos 100

-- `Page`; an empty text is no next page
pub record Page (A : Type 0) : Type 0 where
  pub items : List A
  pub next : Bytes

pub record Cursor (F : Type 0) : Type 0 where
  pub filter : F
  pub after : ℤ
  pub limit : ℤ
  pub after_date : Option Time

-- the ways that `ErrInvalidCursor` comes about
pub data PageError : Type 0 where
  not_valid_base64 not_a_valid_cursor bad_limit : PageError

-- What `encoding/json` makes of a cursor, and of bytes.
pub record CursorJson (F : Type 0) : Type 0 where
  pub marshal : Cursor F → Bytes
  pub unmarshal : Bytes → Option (Cursor F)

-- A cursor with this filter and without a date, as a page of a list has it, comes back from its
-- bytes, which are bytes, and no bytes are no cursor.
pub record KeepsCursors {F : Type 0} (json : CursorJson F) (filter : F) : Type 0 where
  pub round_trip :
      (c : Cursor F)
      → c.filter ≡ filter
      → c.after_date ≡ none
      → json.unmarshal (json.marshal c) ≡ some c
  pub small : (c : Cursor F) → All (λ b. b < 256) (json.marshal c)
  pub nothing : json.unmarshal [] ≡ none

-- `clampLimit`
unfoldable pub clamp_limit : ℤ → ℤ
clamp_limit n =
    if not (ltb_ℤ (pos 0) n)
    then default_page_size
    else if ltb_ℤ max_page_size n
    then max_page_size
    else n

abbrev pub or_bad : {A : Type 0} → PageError → Option A → Result PageError A
or_bad error none = err error
or_bad error (some a) = ok a

abbrev pub check_limit : {F : Type 0} → Cursor F → Result PageError (Cursor F)
check_limit c =
    if not (ltb_ℤ (pos 0) c.limit) || ltb_ℤ max_page_size c.limit then err bad_limit else ok c

-- `decodeCursor`
unfoldable pub decode_cursor : {F : Type 0} → CursorJson F → Bytes → Result PageError (Cursor F)
unfolding decode_base64
decode_cursor json text = do
  raw ← or_bad not_valid_base64 (decode_base64 text)
  c ← or_bad not_a_valid_cursor (json.unmarshal raw)
  check_limit c

-- `encodeCursor`
unfoldable pub encode_cursor : {F : Type 0} → CursorJson F → Cursor F → Bytes
unfolding encode_base64
encode_cursor json c = encode_base64 (json.marshal c)

unfoldable pub where_all : {A : Type 0} → (A → Bool) → List A → List A
where_all p [] = []
where_all p (x ∷ xs) = let rest = where_all p xs in if p x then x ∷ rest else rest

-- `$2 = 0 or id > $2`
abbrev pub is_after : ℤ → ℕ → Bool
is_after after id = eqb_ℤ after (pos 0) || ltb_ℤ after (pos id)

module _ {A : Type 0} (id : A → ℕ) where
  -- the id of the last item of a page that is not empty
  abbrev pub last_id : List A → ℕ
  last_id [] = 0
  last_id (x ∷ []) = id x
  last_id (x ∷ y ∷ ys) = last_id (y ∷ ys)

module _ {A F : Type 0} (json : CursorJson F) (id : A → ℕ) (matches : F → A → Bool) where
  -- `finish`
  unfoldable pub finish : List A → Cursor F → Page A
  unfolding encode_cursor
  finish items c =
      if leb (length items) (pos_part c.limit)
      then record { items = items; next = [] }
      else (let page = take (pos_part c.limit) items in
          record {
            items = page;
            next = encode_cursor json (record {
              filter = c.filter;
              after = pos (last_id id page);
              limit = c.limit;
              after_date = none;
            });
          })

  -- the query of a list, on a table that is kept in the order of its ids: one row more than asked for
  unfoldable pub query_rows : Cursor F → List A → List A
  unfolding where_all
  query_rows c rows =
      take (suc (pos_part c.limit))
        (where_all (λ r. is_after c.after (id r) && matches c.filter r) rows)

  -- the cursor of a first page
  abbrev pub first_cursor : F → ℤ → Cursor F
  first_cursor filter limit = record {
    filter = filter;
    after = pos 0;
    limit = clamp_limit limit;
    after_date = none;
  }

  abbrev pub cursor_of : F → ℤ → Bytes → Result PageError (Cursor F)
  cursor_of filter limit text =
      if is_empty text then ok (first_cursor filter limit) else decode_cursor json text

  -- the shape of `ListTransactions` and `ListLogs`
  unfoldable pub list_page : F → ℤ → Bytes → List A → Result PageError (Page A)
  unfolding clamp_limit decode_cursor query_rows finish
  list_page filter limit text rows = do
    c ← cursor_of filter limit text
    ok (finish (query_rows c rows) c)

-- `TransactionFilter`
pub record TransactionFilter : Type 0 where
  pub account : Address
  pub account_prefix : Bytes
  pub reference : Bytes

-- on either side of a posting, an account that fits
abbrev pub names_account : (Address → Bool) → Postings → Bool
names_account fits p = any (λ posting. fits posting.source || fits posting.destination) p

unfoldable pub matches_transaction : TransactionFilter → Transaction → Bool
unfolding is_like
matches_transaction f t =
    (is_empty f.account || names_account (same_bytes f.account) t.postings)
    && (is_empty f.account_prefix || names_account (is_like false f.account_prefix) t.postings)
    && (is_empty f.reference || same_bytes f.reference t.reference)

-- `ListTransactions`
unfoldable pub list_transactions :
    CursorJson TransactionFilter
    → TransactionFilter
    → ℤ
    → Bytes
    → Db
    → Result PageError (Page Transaction)
unfolding list_page matches_transaction
list_transactions json filter limit text db =
    list_page json (λ t. t.id) matches_transaction filter limit text db.transactions

-- `ListLogs`; `LogFilter` has no fields
unfoldable pub list_logs : CursorJson (Unit {0}) → ℤ → Bytes → Db → Result PageError (Page Log)
unfolding list_page
list_logs json limit text db = list_page json (λ l. l.id) (λ f l. true) tt limit text db.logs
