-- ===== src/Shim/Prover/Engine.antt =====
-- The engine of the proofs, raiz-shim.js lines 122-182 and 273-295: the number of threads, the lazy
-- singletons and their caches, and one proof. A cached promise is kept as what it settled to, since
-- every use awaits it. Two calls that overlap in time are not modelled.
pub mod Loading
pub mod Warm
pub mod Cached
use raiz_confidential_stack.Prelude.{
  ℕ, zero, suc, Text, codes, same_text, Bool, ◌&&◌, Option, none, some, List, [], ◌∷◌, ◌++◌, Result,
  ok, err, Error, Io, lift, ◌>>=◌, ◌>>◌, leb, if◌then◌else◌,
}
use raiz_confidential_stack.Values.{Value}
use raiz_confidential_stack.Vendor.{Vendor, Proof}

-- What the shim reads of the global object and of the navigator; 0 cores if it does not say.
pub record Platform : Type 0 where
  pub isolated : Bool
  pub shared_memory : Bool
  pub cores : ℕ

-- `navigator.hardwareConcurrency || 1`
unfoldable pub cores_or_one : ℕ → ℕ
cores_or_one zero = 1
cores_or_one (suc n) = suc n

-- `THREADS`
unfoldable pub threads : Platform → ℕ
unfolding cores_or_one
threads e =
    if e.isolated && e.shared_memory
    then (if leb (cores_or_one e.cores) 32 then cores_or_one e.cores else 32)
    else 1

-- `map.get(key)`
unfoldable pub lookup : {A : Type 0} → Text → List (Text × A) → Option A
lookup k [] = none
lookup k ((j, a) ∷ entries) = if same_text k j then some a else lookup k entries

module _ (V : Vendor) where
  open V use {
    World, Circuit, Backend, init_acvm, init_abi, import_bb, circuit_of_json, bytecode, new_backend,
    execute, generate_proof, fetch,
  }

  -- `noirWasmReady`, `bbModulePromise`, `circuits`, `backends`
  pub record Caches : Type 0 where
    pub noir : Option (Result (Unit {0}))
    pub bb : Option (Result (Unit {0}))
    pub circuits : List (Text × Result Circuit)
    pub backends : List (Text × Backend)

  -- The page: the world outside and the caches.
  pub record Session : Type 0 where
    pub world : World
    pub caches : Caches

  abbrev pub no_caches : Caches
  no_caches = record { noir = none; bb = none; circuits = []; backends = [] }

  -- A call that does not touch the caches.
  unfoldable pub outside : {A : Type 0} → Io World A → Io Session A
  outside m s = let (r, w) = m s.world in (r, record { world = w; caches = s.caches })

  -- `Promise.all([initACVM(…), initAbi(…)])`: both are started, whatever becomes of the first
  unfoldable pub init_both : Io World (Unit {0})
  init_both w =
      let (acvm, w1) = init_acvm w in
      let (abi, w2) = init_abi w1 in (elim acvm [ ok _ ↦ abi | err e ↦ err e ], w2)

  -- `ensureNoirWasm()`: once settled, also on a failure, it stays settled.
  unfoldable pub ensure_noir_wasm : Io Session (Unit {0})
  ensure_noir_wasm s = elim s.caches.noir [
    | some r ↦ (r, s)
    | none ↦
        let (r, w) = init_both s.world in
        (
          r,
          record {
            world = w;
            caches = record {
              noir = some r;
              bb = s.caches.bb;
              circuits = s.caches.circuits;
              backends = s.caches.backends;
            };
          },
        )
  ]

  -- `loadBb()`
  unfoldable pub load_bb : Io Session (Unit {0})
  load_bb s = elim s.caches.bb [
    | some r ↦ (r, s)
    | none ↦
        let (r, w) = import_bb s.world in
        (
          r,
          record {
            world = w;
            caches = record {
              noir = s.caches.noir;
              bb = some r;
              circuits = s.caches.circuits;
              backends = s.caches.backends;
            };
          },
        )
  ]

  -- the `fetch` of `loadCircuit(kind)`; 200 to 299 are the statuses that are `ok`
  unfoldable pub fetch_circuit : Text → Io World Circuit
  fetch_circuit kind = do
    r ← fetch (codes "circuits/" ++ kind ++ codes ".json")
    lift (if r.succeeded then circuit_of_json r.body else err (Error.circuit_status kind r.status))

  -- `loadCircuit(kind)`: what the fetch settled to is kept, also if it failed.
  unfoldable pub load_circuit : Text → Io Session Circuit
  load_circuit kind s = elim (lookup kind s.caches.circuits) [
    | some r ↦ (r, s)
    | none ↦
        let (r, w) = fetch_circuit kind s.world in
        (
          r,
          record {
            world = w;
            caches = record {
              noir = s.caches.noir;
              bb = s.caches.bb;
              circuits = (kind, r) ∷ s.caches.circuits;
              backends = s.caches.backends;
            };
          },
        )
  ]

  -- `backends.set(kind, backend)`, for a kind that is not there
  unfoldable pub set_backend : Text → Backend → Io Session Backend
  set_backend kind b s = (
    ok b,
    record {
      world = s.world;
      caches = record {
        noir = s.caches.noir;
        bb = s.caches.bb;
        circuits = s.caches.circuits;
        backends = (kind, b) ∷ s.caches.backends;
      };
    },
  )

  module _ (platform : Platform) where
    -- `getBackend(kind, bytecode)`
    unfoldable pub get_backend : Text → Text → Io Session Backend
    get_backend kind code s = elim (lookup kind s.caches.backends) [
      | some b ↦ (ok b, s)
      | none ↦ (load_bb >> set_backend kind (new_backend code (threads platform))) s
    ]

    -- The proof of a witness, by the circuit's backend.
    unfoldable pub prove_witness : Text → Circuit → List ℕ → Io Session Proof
    prove_witness kind circuit witness =
        get_backend kind (bytecode circuit) >>= λ backend. outside (generate_proof backend witness)

    -- The proof of inputs, by a circuit that is loaded.
    unfoldable pub prove : Text → Value → Circuit → Io Session Proof
    prove kind inputs circuit = outside (execute circuit inputs) >>= prove_witness kind circuit

    -- `execAndProve(kind, inputs)`, without the times
    unfoldable pub exec_and_prove : Text → Value → Io Session Proof
    exec_and_prove kind inputs = ensure_noir_wasm >> (load_circuit kind >>= prove kind inputs)
