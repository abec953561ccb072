-- ===== src/Scripts/Bench/Page/Tally.antt =====
-- The page's table and log over any sequence of runs: scripts/prover-bench/src/main.js, lines 116-165.
use mathlib.Core.Path.{sym, subst}
use raiz_confidential_stack.Prelude.{
  true, Error, ℕ, zero, suc, ◌+◌, Text, codes, false, List, [], ◌∷◌, length, Result, ok, err, ◌≡◌,
  refl, ap, arith, ◌∙◌,
}
use raiz_confidential_stack.Vendor.{Vendor, Proof}
use raiz_confidential_stack.Shim.Prover.Engine.{Platform}
use raiz_confidential_stack.Scripts.Calls.{◌>>=◌}
use raiz_confidential_stack.Scripts.Bench.{BenchTools}
use raiz_confidential_stack.Scripts.Bench.Page.{
  Row, proved, failed, Line, PageState, clicks, behind, prove_once, add_row, log_line, show_outcome,
  busy_label, set_busy, attempt, run_bench,
}

-- `n, n - 1, …, 1`
abbrev pub countdown : ℕ → List ℕ
countdown zero = []
countdown (suc n) = suc n ∷ countdown n

abbrev pub number : Row → ℕ
number (proved run name bytes) = run
number (failed run name) = run

abbrev pub numbers : List Row → List ℕ
numbers [] = []
numbers (row ∷ rows) = number row ∷ numbers rows

-- A table and a log that tell of the same runs, one line for each row, over the line that the page
-- writes when it is loaded.
pub data Shown : List Row → List Line → Type 0 where
  at_load : Shown [] (Line.ready ∷ [])
  after_proof :
      {rows : List Row} {lines : List Line} (run : ℕ) (name : Text) (bytes : ℕ)
      → Shown rows lines
      → Shown (proved run name bytes ∷ rows) (Line.proved_line run name ∷ lines)
  after_failure :
      {rows : List Row} {lines : List Line} (run : ℕ) (name : Text) (e : Error)
      → Shown rows lines
      → Shown (failed run name ∷ rows) (Line.failed_line run name e ∷ lines)

module _ (V : Vendor) (B : BenchTools V) (platform : Platform) where
  -- The page at rest: one row for each run so far, the newest first, and the log beside it.
  pub record IsAtRest (s : PageState V B) : Type 0 where
    pub tallied : numbers s.results ≡ countdown s.run_counter
    pub logged : Shown s.results s.log
    pub idle : (s.busy ≡ false) × (s.status ≡ codes "idle")

  next_count : (n : ℕ) (l : List ℕ) → l ≡ countdown n → (n + 1) ∷ l ≡ countdown (n + 1)
  next_count n l h = ground arith

  -- What an outcome adds to the page.
  record IsShown (run : ℕ) (s after : PageState V B) : Type 0 where
    pub number_added : numbers after.results ≡ run ∷ numbers s.results
    pub line_added : Shown s.results s.log → Shown after.results after.log
    pub counter_kept : after.run_counter ≡ s.run_counter

  show_outcome-IsShown :
      (run : ℕ) (name : Text) (r : Result Proof) (s : PageState V B)
      → ((show_outcome V B platform run name r s).0 ≡ ok tt)
        × IsShown run s (show_outcome V B platform run name r s).1
  unfolding show_outcome add_row log_line ◌>>=◌
  show_outcome-IsShown run name (ok p) s = (
    refl,
    record {
      number_added = refl;
      line_added = Shown.after_proof run name (length p.bytes);
      counter_kept = refl;
    },
  )
  show_outcome-IsShown run name (err e) s = (
    refl,
    record {
      number_added = refl;
      line_added = Shown.after_failure run name e;
      counter_kept = refl;
    },
  )

  run_bench-IsAtRest :
      (name : Text) (s : PageState V B)
      → IsAtRest s
      → ((run_bench V B platform name s).0 ≡ ok tt)
        × ((run_bench V B platform name s).1.run_counter ≡ s.run_counter + 1)
        × IsAtRest (run_bench V B platform name s).1
  unfolding run_bench set_busy attempt behind ◌>>=◌
  run_bench-IsAtRest name s h =
      let run = s.run_counter + 1 in
      let before : PageState V B = record s {
        session = (prove_once V B platform name s.session).1;
        run_counter = run;
        busy = true;
        status = busy_label V B platform run name;
      } in
      let (done, shown) =
        show_outcome-IsShown run name (prove_once V B platform name s.session).0 before in
      let after =
        (show_outcome V B platform run name (prove_once V B platform name s.session).0 before).1 in
      let ended : run_bench V B platform name s ≡ set_busy V B platform false [] after =
        back (show_outcome V B platform run name (prove_once V B platform name s.session).0 before)
          done in
      (
        ap (λ q. q.0) ended,
        ap (λ q. q.1.run_counter) ended ∙ shown.counter_kept,
        subst IsAtRest (sym (ap (λ q. q.1) ended)) (record {
          tallied =
              shown.number_added
              ∙ next_count s.run_counter (numbers s.results) h.tallied
              ∙ ap countdown (sym shown.counter_kept);
          logged = shown.line_added h.logged;
          idle = (refl, refl);
        }),
      )
    where
      back :
          (q : Result (Unit {0}) × PageState V B)
          → q.0 ≡ ok tt
          → (elim q.0 [ ok _ ↦ set_busy V B platform false [] q.1 | err e ↦ (err e, q.1) ])
            ≡ set_busy V B platform false [] q.1
      back (ok u, t) e = refl
      back (err x, t) e = cc

  -- Whatever is clicked, and whether the proofs succeed or fail: every run adds one row
  -- and one line, the rows carry the numbers n, n - 1, …, 1, the log tells of the same runs with the same outcomes
  -- over the line that the page writes when it is loaded, and the page is idle again.
  pub clicks-IsAtRest :
      (names : List Text) (s : PageState V B)
      → IsAtRest s
      → IsAtRest (clicks V B platform names s)
        × ((clicks V B platform names s).run_counter ≡ s.run_counter + length names)
  unfolding clicks
  clicks-IsAtRest [] s h = (h, omega arith)
  clicks-IsAtRest (name ∷ names) s h =
      let (_, more, rest) = run_bench-IsAtRest name s h in
      let (after, all) = clicks-IsAtRest names (run_bench V B platform name s).1 rest in
      (after, omega (arith, more, all))
