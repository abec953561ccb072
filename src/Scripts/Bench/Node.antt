-- ===== src/Scripts/Bench/Node.antt =====
-- The proving baseline in Node: scripts/prover-bench/bench-node.mjs, lines 54-120, without the times and what it
-- prints.
pub mod Exit
use raiz_confidential_stack.Prelude.{
  ℕ, ◌+◌, Text, codes, Bool, Option, none, some, List, [], ◌∷◌, ◌++◌, length, ok, err, Error, Io,
  leb, ◌==◌, if◌then◌else◌,
}
use raiz_confidential_stack.Values.{Value}
use raiz_confidential_stack.Vendor.{Vendor}
use raiz_confidential_stack.Scripts.Calls.{pure, lift, ◌>>=◌, ◌>>◌}
use raiz_confidential_stack.Scripts.Bench.{BenchTools}
use raiz_confidential_stack.Scripts.Bench.Inputs.{input_builders}

-- `row`, a field that is not set yet as `none`.
pub record BenchRow : Type 0 where
  pub circuit : Text
  pub proof_bytes : Option ℕ
  pub public_inputs : Option ℕ
  pub verified : Option Bool
  pub error : Option Error
  pub sdk_proof_bytes : Option ℕ
  pub sdk_error : Option Error

abbrev pub fresh_row : Text → BenchRow
fresh_row name = record {
  circuit = name;
  proof_bytes = none;
  public_inputs = none;
  verified = none;
  error = none;
  sdk_proof_bytes = none;
  sdk_error = none;
}

-- What one round works on: the world, its row and `failures`.
pub record Round (W : Type 0) : Type 0 where
  pub world : W
  pub row : BenchRow
  pub failures : ℕ

-- The loop's variables.
pub record Bench : Type 0 where
  pub results : List BenchRow
  pub failures : ℕ

abbrev pub circuits : List Text
circuits = codes "register" ∷ codes "withdraw" ∷ codes "transfer" ∷ []

-- `failures === 0 ? 0 : 1`
unfoldable pub exit_code : Bench → ℕ
exit_code b = if b.failures == 0 then 0 else 1

module _ {W : Type 0} where
  -- A call that touches neither the row nor the count.
  unfoldable pub on_world : {A : Type 0} → Io W A → Io (Round W) A
  on_world m s = let (r, w) = m s.world in (r, record s { world = w })

  -- `row.field = value`
  unfoldable pub set_row : (BenchRow → BenchRow) → Io (Round W) (Unit {0})
  set_row f s = (ok tt, record s { row = f s.row })

  -- `if (!ok) failures++`
  unfoldable pub count_unless : Bool → Io (Round W) (Unit {0})
  count_unless verified s =
      (ok tt, record s { failures = if verified then s.failures else s.failures + 1 })

  -- `try { m } catch (e) { failures++; … }`
  unfoldable pub guarded :
      (Error → BenchRow → BenchRow) → Io (Round W) (Unit {0}) → Round W → Round W
  guarded note m s =
      let (r, s') = m s in
      elim r [ ok _ ↦ s' | err e ↦ record s' { row = note e s'.row; failures = s'.failures + 1 } ]

module _ (V : Vendor) (B : BenchTools V) where
  open V use {World, Circuit, execute, new_backend, bytecode, generate_proof}
  open B use {cpus, load_circuit, verify_proof, destroy_backend, circuit_prover, prove, destroy}

  -- `THREADS`
  unfoldable pub threads : ℕ
  threads = if leb cpus 32 then cpus else 32

  -- the `try` of the split path
  unfoldable pub split_path : Circuit → Value → Io (Round World) (Unit {0})
  unfolding threads
  split_path circuit inputs = do
    witness ← on_world (execute circuit inputs)
    let backend = new_backend (bytecode circuit) threads
    proof ← on_world (generate_proof backend witness)
    _ ← set_row (λ row. record row {
      proof_bytes = some (length proof.bytes);
      public_inputs = some (length proof.public_inputs);
    })
    verified ← on_world (verify_proof backend proof)
    _ ← set_row (λ row. record row { verified = some verified })
    _ ← count_unless verified
    on_world (destroy_backend backend)

  -- the `try` of the SDK's path
  unfoldable pub sdk_path : Circuit → Value → Io (Round World) (Unit {0})
  sdk_path circuit inputs = do
    prover ← lift (circuit_prover circuit)
    proof ← on_world (prove prover inputs)
    _ ← set_row (λ row. record row { sdk_proof_bytes = some (length proof.bytes) })
    on_world (destroy prover)

  -- both paths of a circuit
  unfoldable pub run_paths : Circuit → Value → Round World → Round World
  unfolding split_path sdk_path guarded
  run_paths circuit inputs s =
      guarded (λ e row. record row { sdk_error = some e }) (sdk_path circuit inputs)
        (guarded (λ e row. record row { error = some e }) (split_path circuit inputs) s)

  -- one round, behind its circuit and inputs
  unfoldable pub run_circuit : Text → Circuit → Value → Bench → Io World Bench
  unfolding run_paths
  run_circuit name circuit inputs b w =
      let s =
        run_paths circuit inputs
          (record { world = w; row = fresh_row name; failures = b.failures }) in
      (ok (record { results = b.results ++ s.row ∷ []; failures = s.failures }), s.world)

  -- `for (const name of …)`: an error of the circuit or of the inputs ends the run
  unfoldable pub run_circuits : List Text → Bench → Io World Bench
  unfolding run_circuit
  run_circuits [] b = pure b
  run_circuits (name ∷ names) b = lift (load_circuit name) >>= λ circuit.
      input_builders V B name >>= λ inputs.
      run_circuit name circuit inputs b >>= λ b'. run_circuits names b'

  -- the whole run: the rows and the code that it exits with
  unfoldable pub bench_node : Io World (List BenchRow × ℕ)
  unfolding run_circuits exit_code
  bench_node = do
    b ← run_circuits circuits (record { results = []; failures = 0 })
    pure (b.results, exit_code b)
