-- ===== src/Shim/Events/Pages/Termination.antt =====
-- The loop of `fetchEventsFromUrl` ends: 501 rounds of fuel are never used up.
use raiz_confidential_stack.Prelude.{
  >>=-eq-ok, Io, ◌>>=◌, ℕ, zero, suc, ◌+◌, ◌≤◌, ◌≡◌, ◌≢◌, refl, Option, none, ok, arith,
}
use raiz_confidential_stack.Values.{Values, Value}
use raiz_confidential_stack.Vendor.{Vendor}
use raiz_confidential_stack.Shim.Events.Pages.{
  Source, Fetching, start_fetching, fetch_next, take_page, after_page, fetch_loop,
}

module _ (V : Vendor) (s : Source) where
  open V use {World}

  take_page-pages :
      (st : Fetching V) (page : Value) {next : Fetching V × Values × Value}
      → take_page V st page ≡ ok next
      → next.0.pages ≡ st.pages + 1
  unfolding take_page
  take_page-pages st page h = ground arith

  fetch_next-pages :
      (st : Fetching V) (w : World) {next : Fetching V × Values × Value}
      → (fetch_next V s st w).0 ≡ ok next
      → next.0.pages ≡ st.pages + 1
  unfolding fetch_next
  fetch_next-pages st w h = grind (arith, take_page-pages)

  pub fetch_loop-suc :
      (fuel : ℕ) (st : Fetching V) (w : World)
      → fetch_loop V (suc fuel) s st w
        ≡ (fetch_next V s st >>= after_page V (fetch_loop V fuel s) s.page_limit) w
  unfolding fetch_loop
  fetch_loop-suc fuel st w = refl

  after_page-ne-none :
      (rest : Fetching V → Io World (Option (Fetching V))) (next : Fetching V × Values × Value)
      (w : World)
      → ((w' : World)
          → next.0.pages ≤ 500
          → (rest (record next.0 { cursor = next.2 }) w').0 ≢ ok none)
      → (after_page V rest s.page_limit next w).0 ≢ ok none
  unfolding after_page
  after_page-ne-none rest next w h = ground (arith, h w)

  -- With the rounds that the test on `pages` leaves, the loop does not run out of fuel.
  fetch_loop-ne-none :
      (fuel : ℕ) (st : Fetching V) (w : World)
      → 501 ≤ fuel + st.pages
      → st.pages ≤ 500
      → (fetch_loop V fuel s st w).0 ≢ ok none
  fetch_loop-ne-none zero st w h b = absurd (omega arith)
  fetch_loop-ne-none (suc fuel) st w h b = rw fetch_loop-suc λ ran_out.
      let (next, e, e') =
        >>=-eq-ok (fetch_next V s st) (after_page V (fetch_loop V fuel s) s.page_limit) w ran_out in
      after_page-ne-none (fetch_loop V fuel s) next (fetch_next V s st w).1
        (λ w' small.
          fetch_loop-ne-none fuel (record next.0 { cursor = next.2 }) w'
            (omega (arith, fetch_next-pages st w e)) small)
        e'

  -- The loop of `fetchEventsFromUrl` ends by itself, whatever the source answers: the 501 rounds of
  -- fuel are never used up.
  pub fetch_loop-ends : (w : World) → (fetch_loop V 501 s (start_fetching V) w).0 ≢ ok none
  fetch_loop-ends w = fetch_loop-ne-none 501 (start_fetching V) w (omega arith) (omega arith)
