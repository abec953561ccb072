-- ===== src/Shim/Events/Pages.antt =====
-- `fetchEventsFromUrl`, raiz-shim.js lines 639-682: the whole history of a contract from a paged
-- source. Every page but the last is followed by the test `pages > 500`, which bounds the loop.
pub mod Termination
pub mod Complete
pub mod History
pub mod Directory
pub mod Served
use raiz_confidential_stack.Prelude.{
  ℕ, zero, suc, ◌+◌, pos, Text, codes, Bool, not, ◌||◌, Option, none, some, List, [], ◌∷◌, ◌++◌,
  Result, ok, err, Error, bind_result, Io, pure, lift, throw, ◌>>=◌, ◌>>◌, ltb, take, ◌==◌,
  if◌then◌else◌,
}
use raiz_confidential_stack.Values
use raiz_confidential_stack.Values.{Value, Values, Num, member, is_nullish, truthy, strictly_equal}
use raiz_confidential_stack.Vendor.{Vendor, Event, PageRequest, Response}
use raiz_confidential_stack.Shim.Events.Raw.{as_array, to_number, to_text, parse_raw_event}

-- `baseUrl.replace(/\/?$/, "/")`
unfoldable pub with_slash : Text → Text
with_slash [] = b'/' ∷ []
with_slash (c ∷ []) = if c == b'/' then b'/' ∷ [] else c ∷ b'/' ∷ []
with_slash (c ∷ d ∷ s) = c ∷ with_slash (d ∷ s)

-- The options of the call.
pub record Source : Type 0 where
  pub base_url : Text
  pub contract_id : Text
  pub start_ledger : Option ℕ
  pub source : Text
  pub page_limit : ℕ

module _ (V : Vendor) where
  open V use {World, Cipher, json_parse, fetch_page}

  -- The variables of the loop.
  pub record Fetching : Type 0 where
    pub out : List (Event Cipher)
    pub cursor : Value
    pub latest_ledger : Num
    pub oldest_ledger : Option Num
    pub pages : ℕ
    pub rows : ℕ

  abbrev pub start_fetching : Fetching
  start_fetching = record {
    out = [];
    cursor = Value.undefined;
    latest_ledger = Num.whole (pos 0);
    oldest_ledger = none;
    pages = 0;
    rows = 0;
  }

  unfoldable pub request_of : Source → Value → PageRequest
  unfolding with_slash
  request_of s cursor = record {
    base = with_slash s.base_url;
    contract_id = s.contract_id;
    cursor = if truthy cursor then cursor else Value.undefined;
    start_ledger = if truthy cursor then none else s.start_ledger;
    limit = s.page_limit;
    source = s.source;
  }

  -- the body as JSON, if the answer is one and is no error
  unfoldable pub read_page : Response → Result Value
  read_page resp = elim (json_parse resp.body) [
    | err _ ↦ err (Error.not_json resp.status (take 200 resp.body))
    | ok page ↦ bind_result (member page (codes "error")) (λ e.
        if not resp.succeeded || truthy e
        then err (
            Error.bad_status resp.status (if is_nullish e then take 200 resp.body else to_text V e))
        else ok page)
  ]

  -- `for (const r of batch)`: the rows that are events, in their order
  unfoldable pub parse_rows : Values → Result (List (Event Cipher))
  parse_rows Values.nil = ok []
  parse_rows (Values.cons row rows) = bind_result (parse_raw_event V row) (λ ev.
      bind_result (parse_rows rows) (λ rest. ok (elim ev [ none ↦ rest | some e ↦ e ∷ rest ])))

  -- What one page adds to the variables, with its batch and its cursor.
  unfoldable pub take_page : Fetching → Value → Result (Fetching × Values × Value)
  take_page st page = bind_result (member page (codes "latestLedger")) λ latest.
      bind_result (member page (codes "oldestLedger")) λ oldest.
        bind_result (member page (codes "events")) λ events.
          bind_result (member page (codes "cursor")) λ cursor.
            bind_result (as_array events) λ batch. bind_result (parse_rows batch) λ evs. ok (
              record {
                out = st.out ++ evs;
                cursor = st.cursor;
                latest_ledger = if is_nullish latest then st.latest_ledger else to_number V latest;
                oldest_ledger =
                    if is_nullish oldest then st.oldest_ledger else some (to_number V oldest);
                pages = st.pages + 1;
                rows = st.rows + Values.length batch;
              },
              batch,
              cursor,
            )

  -- `batch.length < pageLimit || !page.cursor || page.cursor === cursor`
  unfoldable pub is_last_page : ℕ → Values → Value → Value → Bool
  is_last_page limit batch next cursor =
      ltb (Values.length batch) limit || not (truthy next) || strictly_equal next cursor

  -- One page: fetched, read and taken in.
  unfoldable pub fetch_next : Source → Fetching → Io World (Fetching × Values × Value)
  unfolding request_of read_page take_page
  fetch_next s st = do
    resp ← fetch_page (request_of s st.cursor)
    page ← lift (read_page resp)
    lift (take_page st page)

  -- What follows a page: the end of the loop, the throw, or the next round.
  unfoldable pub after_page :
      (Fetching → Io World (Option Fetching))
      → ℕ
      → Fetching × Values × Value
      → Io World (Option Fetching)
  after_page rest limit (st, batch, next) =
      if is_last_page limit batch next st.cursor
      then pure (some st)
      else if ltb 500 st.pages
      then throw Error.too_many_pages
      else rest (record st { cursor = next })

  -- `for (;;)`; `none` means that the fuel ran out.
  unfoldable pub fetch_loop : ℕ → Source → Fetching → Io World (Option Fetching)
  fetch_loop zero s st w = (ok none, w)
  fetch_loop (suc fuel) s st w =
      let rest = fetch_loop fuel s in (fetch_next s st >>= after_page rest s.page_limit) w

  -- The test on `pages` stops the loop within 501 rounds.
  unfoldable pub fetch_events_from_url : Source → Io World Fetching
  fetch_events_from_url s =
      fetch_loop 501 s start_fetching
      >>= (λ r. lift (elim r [ none ↦ err Error.too_many_pages | some st ↦ ok st ]))
