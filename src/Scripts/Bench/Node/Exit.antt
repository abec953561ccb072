-- ===== src/Scripts/Bench/Node/Exit.antt =====
-- The exit code of bench-node.mjs.
use raiz_confidential_stack.Prelude.{
  append_assoc, append-nil, sym, ap, ◌∙◌, ℕ, ◌≤◌, Text, true, none, some, List, [], ◌∷◌, ◌++◌, ok,
  All, ◌≡◌, ◌↔◌, refl, arith, ◌==◌, if◌then◌else◌,
}
use mathlib.Core.Path.{subst}
use raiz_confidential_stack.Values.{Value}
use raiz_confidential_stack.Vendor.{Vendor}
use raiz_confidential_stack.Scripts.Calls.{Ensures, lift, ◌>>=◌}
use raiz_confidential_stack.Scripts.Calls.Rules.{Ensures-pure, Ensures-bind, Ensures-then}
use raiz_confidential_stack.Scripts.Bench.{BenchTools}
use raiz_confidential_stack.Scripts.Bench.Node.{
  circuits, BenchRow, Round, Bench, on_world, set_row, count_unless, guarded, split_path, sdk_path,
  run_paths, run_circuit, run_circuits, exit_code, bench_node, fresh_row,
}

-- Both paths of the circuit ended well: a proof that verified, and no error.
abbrev pub IsClean : BenchRow → Type 0
IsClean row = (row.verified ≡ some true) × (row.error ≡ none) × (row.sdk_error ≡ none)

abbrev pub circuits_of : List BenchRow → List Text
circuits_of [] = []
circuits_of (row ∷ rows) = row.circuit ∷ circuits_of rows

circuits_of-append :
    (xs ys : List BenchRow) → circuits_of (xs ++ ys) ≡ circuits_of xs ++ circuits_of ys
circuits_of-append [] ys = refl
circuits_of-append (row ∷ xs) ys = ap (λ l. row.circuit ∷ l) (circuits_of-append xs ys)

-- One more row, and one more count.
All-last :
    (rows : List BenchRow) (row : BenchRow)
    → All IsClean (rows ++ row ∷ []) ↔ (All IsClean rows × IsClean row)
All-last [] row = ((λ h. (tt, h.0)), (λ h. (h.1, tt)))
All-last (r ∷ rows) row =
    let ih = All-last rows row in
    ((λ h. let (a, b) = ih.0 h.1 in ((h.0, a), b)), (λ h. (h.0.0, ih.1 (h.0.1, h.1))))

All-last_iff :
    (rows : List BenchRow) (row : BenchRow) (m n : ℕ)
    → ((m ≡ 0) ↔ All IsClean rows)
    → ((n ≡ 0) ↔ ((m ≡ 0) × IsClean row))
    → ((n ≡ 0) ↔ All IsClean (rows ++ row ∷ []))
All-last_iff rows row m n old new = (
  (λ e. let (a, b) = new.0 e in (All-last rows row).1 (old.0 a, b)),
  (λ all. let (a, b) = (All-last rows row).0 all in new.1 (old.1 a, b)),
)

zero_of_exit : (n : ℕ) → ◌≡◌ {A = ℕ} (if n == 0 then 0 else 1) 0 → n ≡ 0
zero_of_exit n h = ground arith

exit_of_zero : (n : ℕ) → n ≡ 0 → ◌≡◌ {A = ℕ} (if n == 0 then 0 else 1) 0
exit_of_zero n h = ground arith

exit_small : (n : ℕ) → (if n == 0 then 0 else 1) ≤ 1
exit_small n = ground arith

exit_code_iff :
    (b : Bench)
    → ((b.failures ≡ 0) ↔ All IsClean b.results)
    → ((exit_code b ≡ 0) ↔ All IsClean b.results) × (exit_code b ≤ 1)
unfolding exit_code
exit_code_iff b h = (
  ((λ e. h.0 (zero_of_exit b.failures e)), (λ all. exit_of_zero b.failures (h.1 all))),
  exit_small b.failures,
)

module _ (V : Vendor) (B : BenchTools V) where
  open V use {World, Circuit}

  split_path-counted :
      (circuit : Circuit) (inputs : Value) (s : Round World)
      → s.row.error ≡ none
      → s.row.sdk_error ≡ none
      → (let t =
            guarded (λ e row. record row { error = some e }) (split_path V B circuit inputs) s in
          ((t.failures ≡ 0)
            ↔ ((s.failures ≡ 0) × (t.row.verified ≡ some true) × (t.row.error ≡ none)))
          × (t.row.sdk_error ≡ none))
  unfolding split_path guarded on_world set_row count_unless ◌>>=◌
  split_path-counted circuit inputs s h k = ground arith

  sdk_path-counted :
      (circuit : Circuit) (inputs : Value) (s : Round World)
      → s.row.sdk_error ≡ none
      → (let t =
            guarded (λ e row. record row { sdk_error = some e }) (sdk_path V B circuit inputs) s in
          ((t.failures ≡ 0) ↔ ((s.failures ≡ 0) × (t.row.sdk_error ≡ none)))
          × (t.row.verified ≡ s.row.verified)
          × (t.row.error ≡ s.row.error))
  unfolding sdk_path guarded on_world set_row lift ◌>>=◌
  sdk_path-counted circuit inputs s h = ground arith

  -- The name of the circuit stays.
  paths-circuit :
      (circuit : Circuit) (inputs : Value) (s : Round World)
      → (run_paths V B circuit inputs s).row.circuit ≡ s.row.circuit
  unfolding run_paths split_path sdk_path guarded on_world set_row count_unless lift ◌>>=◌
  paths-circuit circuit inputs s = ground arith

  run_paths-IsClean :
      (circuit : Circuit) (inputs : Value) (s : Round World)
      → s.row.error ≡ none
      → s.row.sdk_error ≡ none
      → (let t = run_paths V B circuit inputs s in
          (t.failures ≡ 0) ↔ ((s.failures ≡ 0) × IsClean t.row))
  unfolding run_paths
  run_paths-IsClean circuit inputs s h k =
      let t = guarded (λ e row. record row { error = some e }) (split_path V B circuit inputs) s in
      let (first, unset) = split_path-counted circuit inputs s h k in
      let (second, same, same') = sdk_path-counted circuit inputs t unset in ground arith

  -- The rounds so far: no failure is counted exactly when every row is clean.
  abbrev IsCounted : List Text → Bench → Type 0
  IsCounted names b = ((b.failures ≡ 0) ↔ All IsClean b.results) × (circuits_of b.results ≡ names)

  run_circuit-IsCounted :
      (names : List Text) (name : Text) (circuit : Circuit) (inputs : Value) (b : Bench)
      → IsCounted names b
      → Ensures (IsCounted (names ++ name ∷ [])) (run_circuit V B name circuit inputs b)
  unfolding run_circuit
  run_circuit-IsCounted names name circuit inputs b (counted, named) = record {
    at = λ w {a = b'} h.
        let s =
          run_paths V B circuit inputs
            (record { world = w; row = fresh_row name; failures = b.failures }) in
        let same : ◌≡◌ {A = Bench}
            (record { results = b.results ++ s.row ∷ []; failures = s.failures }) b' =
          cc h in
        let clean =
          run_paths-IsClean circuit inputs
            (record { world = w; row = fresh_row name; failures = b.failures }) refl refl in
        subst (IsCounted (names ++ name ∷ [])) same (
          All-last_iff b.results s.row _ _ counted clean,
          circuits_of-append b.results (s.row ∷ [])
              ∙ ap (λ l. l ++ s.row.circuit ∷ []) named
              ∙ ap (λ c. names ++ c ∷ [])
                  (paths-circuit circuit inputs
                    (record { world = w; row = fresh_row name; failures = b.failures })),
        );
  }

  run_circuits-IsCounted :
      (done names : List Text) (b : Bench)
      → IsCounted done b
      → Ensures (IsCounted (done ++ names)) (run_circuits V B names b)
  unfolding run_circuits
  run_circuits-IsCounted done [] b h = Ensures-pure b (h.0, h.1 ∙ sym (append-nil done))
  run_circuits-IsCounted done (name ∷ names) b h = Ensures-then _ _ λ circuit.
      Ensures-then _ _ λ inputs.
        Ensures-bind _ _ (run_circuit-IsCounted done name circuit inputs b h) λ b' h'. record {
          at = λ w {a = end} r.
              subst (λ l. IsCounted l end) (append_assoc done (name ∷ []) names)
                ((run_circuits-IsCounted (done ++ name ∷ []) names b' h').at w r);
        }

  -- Where bench-node.mjs comes to its end, it has a row for each of the three circuits in their order, and it exits
  -- with 0 exactly when every row has a proof that verified and no error on either path, and else with 1.
  pub bench_node-exit :
      (w : World) {rows : List BenchRow} {code : ℕ}
      → (bench_node V B w).0 ≡ ok (rows, code)
      → (circuits_of rows ≡ circuits) × ((code ≡ 0) ↔ All IsClean rows) × (code ≤ 1)
  unfolding bench_node
  bench_node-exit w h =
      (Ensures-bind
          {P = λ (r : List BenchRow × ℕ).
            (circuits_of r.0 ≡ circuits) × ((r.1 ≡ 0) ↔ All IsClean r.0) × (r.1 ≤ 1)}
          _ _
          (run_circuits-IsCounted [] circuits (record { results = []; failures = 0 })
            (((λ _. tt), (λ _. refl)), refl))
          λ b (counted, named).
            let (zero_iff, small) = exit_code_iff b counted in
            Ensures-pure _ (named, zero_iff, small)).at
        w h
