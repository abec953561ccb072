-- ===== src/Shim/Events/Pages/Served.antt =====
-- `fetchEventsFromUrl` (raiz-shim.js, lines 639-682) against a source that serves a history in pages.
use raiz_confidential_stack.Prelude.{
  ◌||◌, inr, Bool, inl, same_text, Bool-cases, same_text_iff, ltb, ◌∙◌, ℕ, ◌≤◌, Text, codes, true,
  false, List, ◌∷◌, ok, ◌≡◌, refl, ap, arith,
}
use raiz_confidential_stack.Values
use raiz_confidential_stack.Values.{Values, Value, member}
use raiz_confidential_stack.Vendor.{Vendor, Event, Response}
use raiz_confidential_stack.Shim.Events.Pages.{
  Source, Fetching, with_slash, request_of, read_page, parse_rows, is_last_page,
  fetch_events_from_url,
}
use raiz_confidential_stack.Shim.Events.Pages.Complete.{Taken, Loops, fetch_events_from_url-Loops}
use raiz_confidential_stack.Shim.Events.Pages.Directory.{with_slash-IsDirectory}
use raiz_confidential_stack.Shim.Events.Pages.History.{
  Cursor, start, behind, no_member, null_member, empty_member, IsDirectory, asks, Yields, no_rows,
  skipped, taken, PageAt, IsEnd, short, nothing_behind, same_cursor, Serves, last_page, full_page,
}

or_true_left : (a b c : Bool) → a ≡ true → (a || b || c) ≡ true
or_true_left true b c h = refl
or_true_left false b c h = cc h

or_true_mid : (a c : Bool) → (a || true || c) ≡ true
or_true_mid true c = refl
or_true_mid false c = refl

or_true_right : (a c : Bool) → c ≡ true → (a || false || c) ≡ true
or_true_right true c h = refl
or_true_right false c h = h

or_false : (a c : Bool) → a ≡ false → c ≡ false → (a || false || c) ≡ false
or_false true c h h' = cc h
or_false false c h h' = h'

same_cursors :
    (c : ℕ) (text : Text) (d : ℕ) (other : Text)
    → c ∷ text ≡ d ∷ other
    → behind d other ≡ behind c text
same_cursors c text d other h = cc h

module _ (V : Vendor) (s : Source) (base : Text) where
  open V use {World, Cipher, fetch_page, json_parse}

  -- The variable `cursor` of the loop.
  abbrev variable : Cursor → Value
  variable start = Value.undefined
  variable (behind c text) = Value.str (c ∷ text)

  request_of-variable :
      (at : Cursor) → with_slash s.base_url ≡ base → request_of V s (variable at) ≡ asks V s base at
  unfolding request_of Values.truthy
  request_of-variable start e = ap (λ b. record (asks V s base start) { base = b }) e
  request_of-variable (behind c text) e =
      ap (λ b. record (asks V s base (behind c text)) { base = b }) e

  read_page-of_json :
      (resp : Response) (page : Value)
      → resp.succeeded ≡ true
      → json_parse resp.body ≡ ok page
      → member page (codes "error") ≡ ok Value.undefined
      → read_page V resp ≡ ok page
  unfolding read_page Values.truthy
  read_page-of_json resp page h h' h'' = rw (read_page, h', h'', h) refl

  parse_rows-Yields :
      (batch : Values) (evs : List (Event Cipher))
      → Yields V s base batch evs
      → parse_rows V batch ≡ ok evs
  unfolding parse_rows
  parse_rows-Yields _ _ no_rows = refl
  parse_rows-Yields (Values.cons row rows) evs (skipped h r) =
      rw (h, parse_rows-Yields rows evs r) refl
  parse_rows-Yields (Values.cons row rows) (_ ∷ evs) (taken e h r) =
      rw (h, parse_rows-Yields rows evs r) refl

  page-Taken :
      {batch : Values} {next : Value} {evs : List (Event Cipher)} (at : Cursor)
      → with_slash s.base_url ≡ base
      → PageAt V s base at batch next evs
      → Taken V s (variable at) batch next evs
  page-Taken {batch} {next} {evs} at dir p = record {
    response = p.response;
    page = p.page;
    latest = p.latest;
    oldest = p.oldest;
    events = Value.arr batch;
    served = λ w. ap (λ r. (fetch_page r w).0) (request_of-variable at dir) ∙ p.served w;
    readable = read_page-of_json p.response p.page p.succeeded p.is_json p.no_error;
    has_latest = p.has_latest;
    has_oldest = p.has_oldest;
    has_events = p.has_events;
    has_cursor = p.has_cursor;
    is_list = refl;
    parsed = parse_rows-Yields batch evs p.yields;
  }

  is_last_page-IsEnd :
      (at : Cursor) (batch : Values) (next : Value)
      → IsEnd V s base at batch next
      → is_last_page V s.page_limit batch next (variable at) ≡ true
  unfolding is_last_page Values.truthy Values.strictly_equal
  is_last_page-IsEnd at batch next (short h) =
      or_true_left (ltb (Values.length batch) s.page_limit) _ _ (ground arith)
  is_last_page-IsEnd at batch next (nothing_behind no_member) =
      or_true_mid (ltb (Values.length batch) s.page_limit) _
  is_last_page-IsEnd at batch next (nothing_behind null_member) =
      or_true_mid (ltb (Values.length batch) s.page_limit) _
  is_last_page-IsEnd at batch next (nothing_behind empty_member) =
      or_true_mid (ltb (Values.length batch) s.page_limit) _
  is_last_page-IsEnd (behind c text) batch next same_cursor =
      or_true_right (ltb (Values.length batch) s.page_limit) _
        ((same_text_iff (c ∷ text) (c ∷ text)).1 refl)

  is_last_page-full :
      (at : Cursor) (batch : Values) (c : ℕ) (text : Text)
      → s.page_limit ≤ Values.length batch
      → ¬ (at ≡ behind c text)
      → is_last_page V s.page_limit batch (Value.str (c ∷ text)) (variable at) ≡ false
  unfolding is_last_page Values.truthy Values.strictly_equal
  is_last_page-full start batch c text h h' =
      or_false (ltb (Values.length batch) s.page_limit) _ (ground arith) refl
  is_last_page-full (behind d other) batch c text h h' =
      or_false (ltb (Values.length batch) s.page_limit) _ (ground arith)
        (elim (Bool-cases (same_text (c ∷ text) (d ∷ other))) [
          | inl e ↦ absurd (h' (same_cursors c text d other ((same_text_iff _ _).0 e)))
          | inr e ↦ e
        ])

  Serves-Loops :
      (at : Cursor) (n : ℕ) (evs : List (Event Cipher))
      → with_slash s.base_url ≡ base
      → Serves V s base at n evs
      → Loops V s (variable at) n evs
  Serves-Loops at _ evs dir (last_page {next = next} {batch} p h) =
      Loops.last_page (page-Taken at dir p) (is_last_page-IsEnd at batch next h)
  Serves-Loops at _ _ dir (full_page {batch = batch} {rest = rest} {n = n} c text p h h' r) =
      Loops.full_page (page-Taken at dir p) (is_last_page-full at batch c text h h')
        (Serves-Loops (behind c text) n rest dir r)

  -- A source that serves a history in at most 501 pages, all full but the last and each under a new
  -- cursor, under the directory of its address and asked by cursor alone behind the first page: the call returns, with the events that the rows
  -- of all pages stand for in their order, each once, and the number of pages.
  pub fetch_events_from_url-Serves :
      {n : ℕ} {evs : List (Event Cipher)} (w : World)
      → IsDirectory s.base_url base
      → Serves V s base start n evs
      → n ≤ 501
      → (end : Fetching V) × ((fetch_events_from_url V s w).0 ≡ ok end)
        × (end.out ≡ evs)
        × (end.pages ≡ n)
  fetch_events_from_url-Serves {n} {evs} w dir r h =
      fetch_events_from_url-Loops V s w
        (Serves-Loops start n evs (with_slash-IsDirectory s.base_url base dir) r) h
