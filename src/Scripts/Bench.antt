-- ===== src/Scripts/Bench.antt =====
-- The proving benchmarks under scripts/prover-bench: the inputs of the proofs, the browser page and the run in Node.
pub mod Inputs
pub mod Page
pub mod Node
use raiz_confidential_stack.Prelude.{ℕ, ℤ, Text, Bool, Result, Io}
use raiz_confidential_stack.Values.{Value}
use raiz_confidential_stack.Vendor.{Vendor, Proof}

-- What the benchmarks take from the vendor beside its SDK.
pub record BenchTools (V : Vendor) : Type 1 where
  -- `scalarMul(k, G)` and `keys.PVK`
  pub times_generator : ℤ → V.Point
  pub viewing_key : V.Keys → V.Point
  -- Node: `os.cpus().length`, `loadCircuit(name)`, `verifyProof` and `destroy` of a backend
  pub cpus : ℕ
  pub load_circuit : Text → Result V.Circuit
  pub verify_proof : V.Backend → Proof → Io V.World Bool
  pub destroy_backend : V.Backend → Io V.World (Unit {0})
  -- `new CircuitProver(circuit)`
  pub Prover : Type 0
  pub circuit_prover : V.Circuit → Result Prover
  pub prove : Prover → Value → Io V.World Proof
  pub destroy : Prover → Io V.World (Unit {0})
