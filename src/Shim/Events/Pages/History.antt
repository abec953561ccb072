-- ===== src/Shim/Events/Pages/History.antt =====
-- A source that serves a history in pages, as `fetchEventsFromUrl` (raiz-shim.js, lines 639-682) asks for it.
use raiz_confidential_stack.Prelude.{
  some, ℕ, suc, ◌≤◌, ◌<◌, Text, codes, true, none, List, [], ◌∷◌, ◌++◌, ok, ◌≡◌,
}
use raiz_confidential_stack.Values
use raiz_confidential_stack.Values.{Values, Value, member}
use raiz_confidential_stack.Vendor.{Vendor, Event, Response, PageRequest}
use raiz_confidential_stack.Shim.Events.Raw.{parse_raw_event}
use raiz_confidential_stack.Shim.Events.Pages.{Source}

-- Where a reader of the history stands: at its start, or behind the cursor of a page, a text that is
-- not empty.
pub data Cursor : Type 0 where
  start : Cursor
  behind : (c : ℕ) → (text : Text) → Cursor

-- What a page says where there is no page behind it.
pub data IsAbsent : Value → Type 0 where
  no_member : IsAbsent Value.undefined
  null_member : IsAbsent Value.null
  empty_member : IsAbsent (Value.str [])

-- The directory of an address: the address, with one more slash unless it ends in one.
pub data IsDirectory : Text → Text → Type 0 where
  as_it_is : (path : Text) → IsDirectory (path ++ b'/' ∷ []) (path ++ b'/' ∷ [])
  with_one_more :
      (url : Text)
      → ((path : Text) → ¬ (url ≡ path ++ b'/' ∷ []))
      → IsDirectory url (url ++ b'/' ∷ [])

module _ (V : Vendor) (s : Source) (base : Text) where
  open V use {World, Cipher, fetch_page, json_parse}

  -- The request at a cursor: the first page from the start ledger, the others by the cursor alone.
  abbrev pub asks : Cursor → PageRequest
  asks start = record {
    base = base;
    contract_id = s.contract_id;
    cursor = Value.undefined;
    start_ledger = s.start_ledger;
    limit = s.page_limit;
    source = s.source;
  }
  asks (behind c text) = record {
    base = base;
    contract_id = s.contract_id;
    cursor = Value.str (c ∷ text);
    start_ledger = none;
    limit = s.page_limit;
    source = s.source;
  }

  -- The events that rows stand for: a row is one event or none.
  pub data Yields : Values → List (Event Cipher) → Type 0 where
    no_rows : Yields Values.nil []
    skipped :
        {row : Value} {rows : Values} {evs : List (Event Cipher)}
        → parse_raw_event V row ≡ ok none
        → Yields rows evs
        → Yields (Values.cons row rows) evs
    taken :
        {row : Value} {rows : Values} {evs : List (Event Cipher)} (e : Event Cipher)
        → parse_raw_event V row ≡ ok (some e)
        → Yields rows evs
        → Yields (Values.cons row rows) (e ∷ evs)

  -- What the source answers at a cursor, at any time: JSON without an error, with these rows, this
  -- next cursor and the events that the rows stand for.
  pub record PageAt (at : Cursor) (batch : Values) (next : Value) (evs : List (Event Cipher))
      : Type 0 where
    pub response : Response
    pub page : Value
    pub latest : Value
    pub oldest : Value
    pub served : (w : World) → (fetch_page (asks at) w).0 ≡ ok response
    pub succeeded : response.succeeded ≡ true
    pub is_json : json_parse response.body ≡ ok page
    pub no_error : member page (codes "error") ≡ ok Value.undefined
    pub has_latest : member page (codes "latestLedger") ≡ ok latest
    pub has_oldest : member page (codes "oldestLedger") ≡ ok oldest
    pub has_events : member page (codes "events") ≡ ok (Value.arr batch)
    pub has_cursor : member page (codes "cursor") ≡ ok next
    pub yields : Yields batch evs

  -- A page that is the last: fewer rows than a page has, no next cursor, or the cursor asked with.
  pub data IsEnd : Cursor → Values → Value → Type 0 where
    short :
        {at : Cursor} {batch : Values} {next : Value}
        → Values.length batch < s.page_limit
        → IsEnd at batch next
    nothing_behind :
        {at : Cursor} {batch : Values} {next : Value} → IsAbsent next → IsEnd at batch next
    same_cursor :
        {c : ℕ} {text : Text} {batch : Values} → IsEnd (behind c text) batch (Value.str (c ∷ text))

  -- The pages from a cursor on: their number, and the events on them in their order. All pages but
  -- the last are full, and name a cursor that is not the one they were asked with.
  pub data Serves : Cursor → ℕ → List (Event Cipher) → Type 0 where
    last_page :
        {at : Cursor} {next : Value} {batch : Values} {evs : List (Event Cipher)}
        → PageAt at batch next evs
        → IsEnd at batch next
        → Serves at 1 evs
    full_page :
        {at : Cursor} {batch : Values} {evs rest : List (Event Cipher)} {n : ℕ} (c : ℕ)
        (text : Text)
        → PageAt at batch (Value.str (c ∷ text)) evs
        → s.page_limit ≤ Values.length batch
        → ¬ (at ≡ behind c text)
        → Serves (behind c text) n rest
        → Serves at (suc n) (evs ++ rest)
