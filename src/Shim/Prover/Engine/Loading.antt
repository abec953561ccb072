-- ===== src/Shim/Prover/Engine/Loading.antt =====
-- What the caches of raiz-shim.js (lines 134-182) keep.
use raiz_confidential_stack.Prelude.{
  inr, inl, Option-cases, ◌≤◌, Text, same_text_refl, none, some, List, ◌∷◌, Result, ok, ◌>>◌, ◌≡◌,
  refl, arith,
}
use raiz_confidential_stack.Vendor.{Vendor}
use raiz_confidential_stack.Shim.Prover.Engine.{
  Platform, threads, cores_or_one, lookup, Session, ensure_noir_wasm, load_bb, fetch_circuit,
  load_circuit, set_backend, get_backend,
}

-- The backend gets at least one thread and at most 32.
pub threads_bounds : (e : Platform) → (1 ≤ threads e) × (threads e ≤ 32)
unfolding threads cores_or_one
threads_bounds e = (ground arith, ground arith)

module _ (V : Vendor) where
  open V use {Circuit, Backend, new_backend}

  pub ensure_noir_wasm-keeps :
      (s : Session V) → (ensure_noir_wasm V s).1.caches.noir ≡ some (ensure_noir_wasm V s).0
  unfolding ensure_noir_wasm
  ensure_noir_wasm-keeps s = elim (Option-cases s.caches.noir) [
    | inl h ↦ rw h refl
    | inr (r, h) ↦ rw h refl
  ]

  pub lookup-here :
      {A : Type 0} (k : Text) (a : A) (entries : List (Text × A))
      → lookup k ((k, a) ∷ entries) ≡ some a
  unfolding lookup
  lookup-here k a entries = rw (same_text_refl k) refl

  pub load_circuit-keeps :
      (kind : Text) (s : Session V)
      → lookup kind (load_circuit V kind s).1.caches.circuits ≡ some (load_circuit V kind s).0
  unfolding load_circuit
  load_circuit-keeps kind s = elim (Option-cases (lookup kind s.caches.circuits)) [
    | inl h ↦
        rw (h, load_circuit) (lookup-here kind (fetch_circuit V kind s.world).0 s.caches.circuits)
    | inr (r, h) ↦ rw (h, load_circuit) h
  ]

  pub load_circuit-noir :
      (kind : Text) (s : Session V) → (load_circuit V kind s).1.caches.noir ≡ s.caches.noir
  unfolding load_circuit
  load_circuit-noir kind s = elim (Option-cases (lookup kind s.caches.circuits)) [
    | inl h ↦ rw (h, load_circuit) refl
    | inr (r, h) ↦ rw (h, load_circuit) refl
  ]

  pub load_circuit-found :
      (kind : Text) (s : Session V) (r : Result Circuit)
      → lookup kind s.caches.circuits ≡ some r
      → load_circuit V kind s ≡ (r, s)
  unfolding load_circuit
  load_circuit-found kind s r h = rw (h, load_circuit) refl

  pub ensure_noir_wasm-found :
      (s : Session V) (r : Result (Unit {0}))
      → s.caches.noir ≡ some r
      → ensure_noir_wasm V s ≡ (r, s)
  unfolding ensure_noir_wasm
  ensure_noir_wasm-found s r h = rw h refl

  module _ (platform : Platform) where
    pub get_backend-found :
        (kind code : Text) (s : Session V) (b : Backend)
        → lookup kind s.caches.backends ≡ some b
        → get_backend V platform kind code s ≡ (ok b, s)
    unfolding get_backend
    get_backend-found kind code s b h = rw (h, get_backend) refl

    pub load_bb-others :
        (s : Session V)
        → ((load_bb V s).1.caches.noir ≡ s.caches.noir)
          × ((load_bb V s).1.caches.circuits ≡ s.caches.circuits)
    unfolding load_bb
    load_bb-others s = elim (Option-cases s.caches.bb) [
      | inl h ↦ rw h (refl, refl)
      | inr (r, h) ↦ rw h (refl, refl)
    ]

    -- The session after `getBackend` when the backend is made.
    pub get_backend-new :
        (kind code : Text) (s : Session V)
        → lookup kind s.caches.backends ≡ none
        → get_backend V platform kind code s
          ≡ (load_bb V >> set_backend V kind (new_backend code (threads platform))) s
    unfolding get_backend
    get_backend-new kind code s h = rw (h, get_backend) refl
