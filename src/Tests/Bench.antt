-- ===== src/Tests/Bench.antt =====
-- The benchmarks on the demo's vendor.
use raiz_confidential_stack.Prelude.{
  if◌then◌else◌, ℕ, ◌+◌, Text, codes, same_text, Bool, true, false, none, some, List, [], ◌∷◌,
  length, All, ok, ◌≡◌, ◌≤◌, ◌↔◌, refl,
}
use raiz_confidential_stack.Shim.Prover.Engine.{Platform, no_caches}
use raiz_confidential_stack.Scripts.Calls.{pure, lift, ◌>>=◌}
use raiz_confidential_stack.Scripts.Bench.{BenchTools}
use raiz_confidential_stack.Scripts.Bench.Inputs.{
  input_builders, register_inputs, withdraw_inputs, transfer_inputs, synthetic_keys,
  synthetic_auditor_key,
}
use raiz_confidential_stack.Scripts.Bench.Page.{PageState, fresh_page, clicks}
use raiz_confidential_stack.Scripts.Bench.Page.Tally.{IsAtRest, Shown, clicks-IsAtRest}
use raiz_confidential_stack.Scripts.Bench.Node.{
  BenchRow, bench_node, run_circuits, run_circuit, run_paths, split_path, sdk_path, guarded,
  set_row, count_unless, on_world, exit_code, circuits, threads,
}
use raiz_confidential_stack.Scripts.Bench.Node.Exit.{bench_node-exit, circuits_of, IsClean}
use raiz_confidential_stack.Tests.Demo.{demo, call_of}

-- The circuit "withdraw" has a proof that does not verify.
abbrev tools : BenchTools demo
tools = record {
  times_generator = λ _. (1, 2);
  viewing_key = λ _. (8, 8);
  cpus = 64;
  load_circuit = λ name. ok name;
  verify_proof = λ (code, _) _. call_of (if same_text code (codes "withdraw") then false else true);
  destroy_backend = λ _. call_of tt;
  Prover = Text;
  circuit_prover = λ c. ok c;
  prove = λ _ _. call_of (record { bytes = 1 ∷ []; public_inputs = [] });
  destroy = λ _. call_of tt;
}

abbrev row_with : Text → Bool → BenchRow
row_with name verified = record {
  circuit = name;
  proof_bytes = some 2;
  public_inputs = some 0;
  verified = some verified;
  error = none;
  sdk_proof_bytes = some 1;
  sdk_error = none;
}

abbrev rows : List BenchRow
rows =
    row_with (codes "register") true
    ∷ row_with (codes "withdraw") false
    ∷ row_with (codes "transfer") true
    ∷ []

bench_run : (bench_node demo tools 0).0 ≡ ok (rows, 1)
unfolding bench_node run_circuits run_circuit run_paths split_path sdk_path guarded set_row
    count_unless on_world exit_code threads input_builders register_inputs withdraw_inputs
    transfer_inputs synthetic_keys synthetic_auditor_key pure lift ◌>>=◌ same_text
bench_run = refl

bench_node-exit_example :
    (circuits_of rows ≡ circuits) × ((◌≡◌ {A = ℕ} 1 0) ↔ All IsClean rows) × (1 ≤ 1)
bench_node-exit_example = bench_node-exit demo tools 0 bench_run

abbrev platform : Platform
platform = record { isolated = true; shared_memory = true; cores = 8 }

abbrev page : PageState demo tools
page = fresh_page demo tools (record { world = 0; caches = no_caches demo })

abbrev clicked : List Text
clicked = codes "register" ∷ codes "unknown" ∷ []

clicks-IsAtRest_example :
    IsAtRest demo tools platform (clicks demo tools platform clicked page)
    × ((clicks demo tools platform clicked page).run_counter ≡ page.run_counter + length clicked)
clicks-IsAtRest_example =
    clicks-IsAtRest demo tools platform clicked page
      (record { tallied = refl; logged = Shown.at_load; idle = (refl, refl) })
