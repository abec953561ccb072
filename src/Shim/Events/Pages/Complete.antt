-- ===== src/Shim/Events/Pages/Complete.antt =====
-- The loop of `fetchEventsFromUrl` (raiz-shim.js, lines 639-682) over pages that its own tests take and end.
use raiz_confidential_stack.Prelude.{
  ℕ, zero, suc, ◌+◌, ◌≤◌, ltb, codes, true, false, Option, none, some, List, ◌++◌, ok, err, Error,
  Io, lift, ◌>>=◌, >>=-of_ok, ◌≡◌, refl, ap, ◌∙◌, arith, append_assoc, if◌then◌else◌,
}
use raiz_confidential_stack.Values
use raiz_confidential_stack.Values.{Values, Value, member, is_nullish}
use raiz_confidential_stack.Vendor.{Vendor, Event, Response}
use raiz_confidential_stack.Shim.Events.Raw.{as_array, to_number}
use raiz_confidential_stack.Shim.Events.Pages.{
  Source, Fetching, start_fetching, request_of, read_page, parse_rows, take_page, is_last_page,
  fetch_next, after_page, fetch_loop, fetch_events_from_url,
}
use raiz_confidential_stack.Shim.Events.Pages.Termination.{fetch_loop-suc}

module _ (V : Vendor) (s : Source) where
  open V use {World, Cipher, fetch_page}

  -- The source's answer under a cursor, as the code's helpers read it.
  pub record Taken (cursor : Value) (batch : Values) (next : Value) (evs : List (Event Cipher))
      : Type 0 where
    pub response : Response
    pub page : Value
    pub latest : Value
    pub oldest : Value
    pub events : Value
    pub served : (w : World) → (fetch_page (request_of V s cursor) w).0 ≡ ok response
    pub readable : read_page V response ≡ ok page
    pub has_latest : member page (codes "latestLedger") ≡ ok latest
    pub has_oldest : member page (codes "oldestLedger") ≡ ok oldest
    pub has_events : member page (codes "events") ≡ ok events
    pub has_cursor : member page (codes "cursor") ≡ ok next
    pub is_list : as_array events ≡ ok batch
    pub parsed : parse_rows V batch ≡ ok evs

  -- The pages from a cursor on, as the code's test ends them: their number, and their events.
  pub data Loops : Value → ℕ → List (Event Cipher) → Type 0 where
    last_page :
        {cursor next : Value} {batch : Values} {evs : List (Event Cipher)}
        → Taken cursor batch next evs
        → is_last_page V s.page_limit batch next cursor ≡ true
        → Loops cursor 1 evs
    full_page :
        {cursor next : Value} {batch : Values} {evs rest : List (Event Cipher)} {n : ℕ}
        → Taken cursor batch next evs
        → is_last_page V s.page_limit batch next cursor ≡ false
        → Loops next n rest
        → Loops cursor (suc n) (evs ++ rest)

  -- The variables behind a page.
  abbrev with_page : Fetching V → Value → Value → Values → List (Event Cipher) → Fetching V
  with_page st latest oldest batch evs = record {
    out = st.out ++ evs;
    cursor = st.cursor;
    latest_ledger = if is_nullish latest then st.latest_ledger else to_number V latest;
    oldest_ledger = if is_nullish oldest then st.oldest_ledger else some (to_number V oldest);
    pages = st.pages + 1;
    rows = st.rows + Values.length batch;
  }

  take_page-Taken :
      {cursor next : Value} {batch : Values} {evs : List (Event Cipher)} (st : Fetching V)
      (p : Taken cursor batch next evs)
      → take_page V st p.page ≡ ok (with_page st p.latest p.oldest batch evs, batch, next)
  unfolding take_page
  take_page-Taken st p =
      rw (p.has_latest, p.has_oldest, p.has_events, p.has_cursor, p.is_list, p.parsed) refl

  fetch_next-Taken :
      {batch : Values} {next : Value} {evs : List (Event Cipher)} (st : Fetching V) (w : World)
      (p : Taken st.cursor batch next evs)
      → (fetch_next V s st w).0 ≡ ok (with_page st p.latest p.oldest batch evs, batch, next)
  unfolding fetch_next
  fetch_next-Taken {batch} {next} {evs} st w p =
      ap (λ r. r.0)
        (>>=-of_ok (fetch_page (request_of V s st.cursor))
            (λ resp. lift (read_page V resp) >>= λ page. lift (take_page V st page)) w p.response
            (p.served w)
          ∙ >>=-of_ok (lift (read_page V p.response)) (λ page. lift (take_page V st page))
              (fetch_page (request_of V s st.cursor) w).1 p.page p.readable)
      ∙ take_page-Taken st p

  fetch_loop-Taken :
      {batch : Values} {next : Value} {evs : List (Event Cipher)} (fuel : ℕ) (st : Fetching V)
      (w : World) (p : Taken st.cursor batch next evs)
      → fetch_loop V (suc fuel) s st w
        ≡ after_page V
            (fetch_loop V fuel s)
            s.page_limit
            (with_page st p.latest p.oldest batch evs, batch, next)
            (fetch_next V s st w).1
  fetch_loop-Taken fuel st w p =
      fetch_loop-suc V s fuel st w
      ∙ >>=-of_ok (fetch_next V s st) (after_page V (fetch_loop V fuel s) s.page_limit) w _
          (fetch_next-Taken st w p)

  after_page-last :
      (rest : Fetching V → Io World (Option (Fetching V))) (st : Fetching V) (batch : Values)
      (next : Value) (w : World)
      → is_last_page V s.page_limit batch next st.cursor ≡ true
      → after_page V rest s.page_limit (st, batch, next) w ≡ (ok (some st), w)
  unfolding after_page
  after_page-last rest st batch next w h = rw h refl

  after_page-full :
      (rest : Fetching V → Io World (Option (Fetching V))) (st : Fetching V) (batch : Values)
      (next : Value) (w : World)
      → is_last_page V s.page_limit batch next st.cursor ≡ false
      → ltb 500 st.pages ≡ false
      → after_page V rest s.page_limit (st, batch, next) w ≡ rest (record st { cursor = next }) w
  unfolding after_page
  after_page-full rest st batch next w h h' = rw (h, h') refl

  -- What the loop has when it is through with these pages.
  Finished : ℕ → Fetching V → World → ℕ → List (Event Cipher) → Type 0
  Finished fuel st w n evs =
      (end : Fetching V) × ((fetch_loop V fuel s st w).0 ≡ ok (some end))
      × (end.out ≡ st.out ++ evs)
      × (end.pages ≡ st.pages + n)

  Loops-pos : {cursor : Value} {n : ℕ} {evs : List (Event Cipher)} → Loops cursor n evs → 1 ≤ n
  Loops-pos (last_page p h) = omega arith
  Loops-pos (full_page p h r) = omega arith

  fetch_loop-Loops :
      (fuel : ℕ) {cursor : Value} {n : ℕ} {evs : List (Event Cipher)} (st : Fetching V) (w : World)
      → Loops cursor n evs
      → n ≤ fuel
      → st.pages + n ≤ 501
      → Finished fuel (record st { cursor = cursor }) w n evs
  unfolding Finished
  fetch_loop-Loops zero st w r h h' = absurd (omega (arith, Loops-pos r))
  fetch_loop-Loops (suc fuel) st w (last_page {cursor} {next} {batch} {evs} p is_last) h h' =
      let asked : Fetching V = record st { cursor = cursor } in
      let end = with_page asked p.latest p.oldest batch evs in
      (
        end,
        ap (λ r. r.0)
            (fetch_loop-Taken fuel asked w p
              ∙ after_page-last (fetch_loop V fuel s) end batch next (fetch_next V s asked w).1
                  is_last),
        refl,
        refl,
      )
  fetch_loop-Loops (suc fuel) st w (full_page {cursor} {next} {batch} {evs} {rest} {n} p not_last r)
        h h' =
      let asked : Fetching V = record st { cursor = cursor } in
      let taken = with_page asked p.latest p.oldest batch evs in
      let w' = (fetch_next V s asked w).1 in
      let (end, ends, out, pages) = fetch_loop-Loops fuel taken w' r (omega arith) (omega arith) in
      (
        end,
        ap (λ r. r.0)
              (fetch_loop-Taken fuel asked w p
                ∙ after_page-full (fetch_loop V fuel s) taken batch next w' not_last
                    (ground (arith, Loops-pos r)))
            ∙ ends,
        out ∙ append_assoc st.out evs rest,
        omega (arith, pages),
      )

  -- The whole call, over at most 501 such pages.
  pub fetch_events_from_url-Loops :
      {n : ℕ} {evs : List (Event Cipher)} (w : World)
      → Loops Value.undefined n evs
      → n ≤ 501
      → (end : Fetching V) × ((fetch_events_from_url V s w).0 ≡ ok end)
        × (end.out ≡ evs)
        × (end.pages ≡ n)
  unfolding fetch_events_from_url Finished
  fetch_events_from_url-Loops w r h =
      let (end, ends, out, pages) = fetch_loop-Loops 501 (start_fetching V) w r h (omega arith) in
      (
        end,
        ap (λ r. r.0)
            (>>=-of_ok (fetch_loop V 501 s (start_fetching V))
              (λ r. lift (elim r [ none ↦ err Error.too_many_pages | some st ↦ ok st ])) w
              (some end) ends),
        out,
        omega (arith, pages),
      )
