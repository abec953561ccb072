-- ===== src/Scripts/Bench/Page.antt =====
-- The browser page of the benchmark: scripts/prover-bench/src/main.js, without the times, the banner and the
-- elements of the document that show the state. The singletons are those of the shim's engine.
pub mod Tally
use raiz_confidential_stack.Prelude.{
  ℕ, pos, ◌+◌, Text, codes, Bool, true, false, ◌&&◌, none, some, List, [], ◌∷◌, ◌++◌, length,
  Result, ok, err, Error, Io, leb, if◌then◌else◌,
}
use raiz_confidential_stack.Vendor.{Vendor, Proof}
use raiz_confidential_stack.Shim.Prover.Engine
use raiz_confidential_stack.Shim.Prover.Engine.{
  Platform, Session, lookup, outside, cores_or_one, set_backend,
}
use raiz_confidential_stack.Shim.Codec.{dec}
use raiz_confidential_stack.Scripts.Calls.{lift, ◌>>=◌, ◌>>◌}
use raiz_confidential_stack.Scripts.Bench.{BenchTools}
use raiz_confidential_stack.Scripts.Bench.Inputs.{input_builders}

-- The cells of a row of the table.
pub data Row : Type 0 where
  proved : (run : ℕ) → (name : Text) → (proof_bytes : ℕ) → Row
  failed : (run : ℕ) → (name : Text) → Row

-- A line of the log: the one that the page writes when it is loaded, and those of a run.
pub data Line : Type 0 where
  ready : Line
  proved_line : (run : ℕ) → (name : Text) → Line
  failed_line : (run : ℕ) → (name : Text) → Error → Line

-- `THREADS`
unfoldable pub threads : Platform → ℕ
unfolding cores_or_one
threads p =
    if p.isolated && p.shared_memory
    then (if leb (cores_or_one p.cores) 32 then cores_or_one p.cores else 32)
    else 1

module _ (V : Vendor) (B : BenchTools V) where
  open V use {
    World, Circuit, Backend, fetch, circuit_of_json, bytecode, execute, generate_proof, new_backend,
  }

  -- The page: the caches with the world, the counter, what is shown, newest first.
  pub record PageState : Type 0 where
    pub session : Session V
    pub run_counter : ℕ
    pub busy : Bool
    pub status : Text
    pub results : List Row
    pub log : List Line

  -- A call that does not touch what is shown.
  unfoldable pub behind : {A : Type 0} → Io (Session V) A → Io PageState A
  behind m s = let (r, t) = m s.session in (r, record s { session = t })

  -- `ensureNoirWasm()` and `loadBb()`
  unfoldable pub ensure_noir_wasm : Io (Session V) (Unit {0})
  ensure_noir_wasm = Engine.ensure_noir_wasm V

  unfoldable pub load_bb : Io (Session V) (Unit {0})
  load_bb = Engine.load_bb V

  -- the fetch of `loadArtifact(name)`
  unfoldable pub fetch_artifact : Text → Io World Circuit
  fetch_artifact name = do
    r ← fetch (codes "/circuits/" ++ name ++ codes ".json")
    lift (if r.succeeded then circuit_of_json r.body else err (Error.circuit_status name r.status))

  -- `loadArtifact(name)`: what the fetch settled to is kept
  unfoldable pub load_artifact : Text → Io (Session V) Circuit
  unfolding fetch_artifact
  load_artifact name s = elim (lookup name s.caches.circuits) [
    | some r ↦ (r, s)
    | none ↦
        let (r, w) = fetch_artifact name s.world in
        (
          r,
          record {
            world = w;
            caches = record {
              noir = s.caches.noir;
              bb = s.caches.bb;
              circuits = (name, r) ∷ s.caches.circuits;
              backends = s.caches.backends;
            };
          },
        )
  ]

  module _ (platform : Platform) where
    -- `getBackend(name, bytecode)`
    unfoldable pub get_backend : Text → Text → Io (Session V) Backend
    unfolding load_bb threads
    get_backend name code s = elim (lookup name s.caches.backends) [
      | some b ↦ (ok b, s)
      | none ↦ (load_bb >> set_backend V name (new_backend code (threads platform))) s
    ]

    -- the `try` up to the proof
    unfoldable pub prove_once : Text → Io (Session V) Proof
    unfolding ensure_noir_wasm load_artifact get_backend
    prove_once name = do
      _ ← ensure_noir_wasm
      circuit ← load_artifact name
      inputs ← outside V (input_builders V B name)
      witness ← outside V (execute circuit inputs)
      backend ← get_backend name (bytecode circuit)
      outside V (generate_proof backend witness)

    -- what the page says while it proves
    abbrev pub busy_label : ℕ → Text → Text
    busy_label run name =
        codes "run #"
        ++ dec (pos run)
        ++ codes ": proving "
        ++ name
        ++ codes "... (first run also loads wasm + CRS)"

    -- `addRow(cells, isError)`
    unfoldable pub add_row : Row → Io PageState (Unit {0})
    add_row row s = (ok tt, record s { results = row ∷ s.results })

    -- `log(msg, isError)`
    unfoldable pub log_line : Line → Io PageState (Unit {0})
    log_line line s = (ok tt, record s { log = line ∷ s.log })

    -- `setBusy(busy, label)`
    unfoldable pub set_busy : Bool → Text → Io PageState (Unit {0})
    set_busy busy label s =
        (ok tt, record s { busy = busy; status = if busy then label else codes "idle" })

    -- the row and the line of an outcome
    unfoldable pub show_outcome : ℕ → Text → Result Proof → Io PageState (Unit {0})
    unfolding add_row log_line
    show_outcome run name (ok proof) =
        add_row (Row.proved run name (length proof.bytes)) >> log_line (Line.proved_line run name)
    show_outcome run name (err e) =
        add_row (Row.failed run name) >> log_line (Line.failed_line run name e)

    -- the `try` and its `catch`
    unfoldable pub attempt : Text → Io PageState (Unit {0})
    unfolding prove_once behind show_outcome
    attempt name s = let (r, t) = behind (prove_once name) s in show_outcome t.run_counter name r t

    -- `runBench(name)`
    unfoldable pub run_bench : Text → Io PageState (Unit {0})
    unfolding attempt set_busy
    run_bench name s =
        let started = record s { run_counter = s.run_counter + 1 } in
        (set_busy true (busy_label started.run_counter name) >> (attempt name >> set_busy false []))
          started

    -- The page behind a sequence of clicks, each when the one before has ended: a run in progress disables the
    -- buttons.
    unfoldable pub clicks : List Text → PageState → PageState
    clicks [] s = s
    clicks (name ∷ names) s = clicks names (run_bench name s).1

  -- The page as it is loaded, behind its `log("ready …")`.
  abbrev pub fresh_page : Session V → PageState
  fresh_page session = record {
    session = session;
    run_counter = 0;
    busy = false;
    status = codes "idle";
    results = [];
    log = Line.ready ∷ [];
  }
