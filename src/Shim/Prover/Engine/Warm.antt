-- ===== src/Shim/Prover/Engine/Warm.antt =====
-- What the caches of raiz-shim.js (lines 134-182) save: a second proof of a kind.
use raiz_confidential_stack.Prelude.{
  >>=-of_err, Result-cases, inr, inl, Option-cases, ℕ, Text, some, List, ok, Io, ◌>>=◌, ◌>>◌, ◌≡◌,
  ap, sym, ◌∙◌, >>=-eq-ok, >>=-of_ok,
}
use raiz_confidential_stack.Values.{Value}
use raiz_confidential_stack.Vendor.{Vendor, Proof}
use raiz_confidential_stack.Shim.Prover.Engine.{
  prove_witness, Platform, lookup, Session, outside, ensure_noir_wasm, load_bb, load_circuit,
  set_backend, get_backend, prove, exec_and_prove,
}
use raiz_confidential_stack.Shim.Prover.Engine.Loading.{
  ensure_noir_wasm-keeps, lookup-here, load_circuit-keeps, load_circuit-noir, load_circuit-found,
  ensure_noir_wasm-found, get_backend-found, load_bb-others, get_backend-new,
}

module _ (V : Vendor) where
  open V use {Circuit, Backend, execute, generate_proof, bytecode}

  -- Nothing of the engine is left to load for this kind.
  pub record IsWarm (kind : Text) (circuit : Circuit) (backend : Backend) (s : Session V)
      : Type 0 where
    pub noir : s.caches.noir ≡ some (ok tt)
    pub circuit_loaded : lookup kind s.caches.circuits ≡ some (ok circuit)
    pub backend_made : lookup kind s.caches.backends ≡ some backend

  module _ (platform : Platform) where
    made_backend :
        (kind : Text) (made b : Backend) (s : Session V) (c : Circuit)
        → ((load_bb V >> set_backend V kind made) s).0 ≡ ok b
        → s.caches.noir ≡ some (ok tt)
        → lookup kind s.caches.circuits ≡ some (ok c)
        → IsWarm kind c b ((load_bb V >> set_backend V kind made) s).1
    unfolding set_backend
    made_backend kind made b s c h n l =
        let (a, ha, hb) = >>=-eq-ok (load_bb V) (λ _. set_backend V kind made) s h in
        let same : made ≡ b = cc hb in
        rw (>>=-of_ok (load_bb V) (λ _. set_backend V kind made) s a ha) (record {
          noir = (load_bb-others V platform s).0 ∙ n;
          circuit_loaded = ap (lookup kind) (load_bb-others V platform s).1 ∙ l;
          backend_made = lookup-here V kind made (load_bb V s).1.caches.backends ∙ ap some same;
        })

    get_backend-IsWarm :
        (kind code : Text) (s : Session V) (b : Backend) (c : Circuit)
        → (get_backend V platform kind code s).0 ≡ ok b
        → s.caches.noir ≡ some (ok tt)
        → lookup kind s.caches.circuits ≡ some (ok c)
        → IsWarm kind c b (get_backend V platform kind code s).1
    get_backend-IsWarm kind code s b c h n l = elim (Option-cases (lookup kind s.caches.backends)) [
      | inl e ↦
          (let made = get_backend-new V platform kind code s e in
            rw made (made_backend kind _ b s c (ap (λ p. p.0) (sym made) ∙ h) n l))
      | inr (d, e) ↦
          (let found = get_backend-found V platform kind code s d e in
            rw found (record { noir = n; circuit_loaded = l; backend_made = e ∙ cc (found, h) }))
    ]

    prove_witness-IsWarm :
        (kind : Text) (c : Circuit) (witness : List ℕ) (s : Session V) (p : Proof)
        → (prove_witness V platform kind c witness s).0 ≡ ok p
        → s.caches.noir ≡ some (ok tt)
        → lookup kind s.caches.circuits ≡ some (ok c)
        → (b : Backend) × IsWarm kind c b (prove_witness V platform kind c witness s).1
    unfolding prove_witness outside
    prove_witness-IsWarm kind c witness s p h n l =
        let m = get_backend V platform kind (bytecode c) in
        let k : Backend → Io (Session V) Proof = λ b. outside V (generate_proof b witness) in
        let (b, hb, _) = >>=-eq-ok m k s h in
        let w = get_backend-IsWarm kind (bytecode c) s b c hb n l in
        (
          b,
          rw (>>=-of_ok m k s b hb) (record {
            noir = w.noir;
            circuit_loaded = w.circuit_loaded;
            backend_made = w.backend_made;
          }),
        )

    prove-IsWarm :
        (kind : Text) (inputs : Value) (c : Circuit) (s : Session V) (p : Proof)
        → (prove V platform kind inputs c s).0 ≡ ok p
        → s.caches.noir ≡ some (ok tt)
        → lookup kind s.caches.circuits ≡ some (ok c)
        → (b : Backend) × IsWarm kind c b (prove V platform kind inputs c s).1
    unfolding prove outside
    prove-IsWarm kind inputs c s p h n l =
        let m = outside V (execute c inputs) in
        let (witness, hw, hp) = >>=-eq-ok m (prove_witness V platform kind c) s h in
        let (b, w) = prove_witness-IsWarm kind c witness (m s).1 p hp n l in
        (b, rw (>>=-of_ok m (prove_witness V platform kind c) s witness hw) w)

    exec_and_prove-IsWarm :
        (kind : Text) (inputs : Value) (s : Session V) (p : Proof)
        → (exec_and_prove V platform kind inputs s).0 ≡ ok p
        → (c : Circuit) × (b : Backend) × IsWarm kind c b
            (exec_and_prove V platform kind inputs s).1
    unfolding exec_and_prove
    exec_and_prove-IsWarm kind inputs s p h =
        let load = load_circuit V kind in
        let rest = load >>= prove V platform kind inputs in
        let (u, hu, h1) = >>=-eq-ok (ensure_noir_wasm V) (λ _. rest) s h in
        let s1 = (ensure_noir_wasm V s).1 in
        let (c, hc, h2) = >>=-eq-ok load (prove V platform kind inputs) s1 h1 in
        let n = load_circuit-noir V kind s1 ∙ ensure_noir_wasm-keeps V s ∙ ap some hu in
        let l = load_circuit-keeps V kind s1 ∙ ap some hc in
        let (b, w) = prove-IsWarm kind inputs c (load s1).1 p h2 n l in
        (
          c,
          b,
          rw
              (
                >>=-of_ok (ensure_noir_wasm V) (λ _. rest) s u hu,
                >>=-of_ok load (prove V platform kind inputs) s1 c hc,
              )
              w,
        )

    -- A call that has returned, in front of the next.
    after_ok :
        {W A B : Type 0} (m : Io W A) (f : A → Io W B) (w w' : W) (a : A)
        → m w ≡ (ok a, w')
        → (m >>= f) w ≡ f a w'
    after_ok m f w w' a h = >>=-of_ok m f w a (ap (λ r. r.0) h) ∙ ap (λ r. f a r.1) h

    warm_prove :
        (kind : Text) (inputs : Value) (c : Circuit) (b : Backend) (s : Session V)
        → lookup kind s.caches.backends ≡ some b
        → prove V platform kind inputs c s ≡ outside V (execute c inputs >>= generate_proof b) s
    unfolding prove prove_witness outside
    warm_prove kind inputs c b s h =
        let m = outside V (execute c inputs) in
        let k = prove_witness V platform kind c in
        elim (Result-cases (execute c inputs s.world).0) [
          | inl (witness, e) ↦
              >>=-of_ok m k s witness e
              ∙ after_ok (get_backend V platform kind (bytecode c))
                  (λ d. outside V (generate_proof d witness)) (m s).1 (m s).1 b
                  (get_backend-found V platform kind (bytecode c) (m s).1 b h)
              ∙ ap (λ r. (r.0, record { world = r.1; caches = s.caches }))
                  (sym (>>=-of_ok (execute c inputs) (generate_proof b) s.world witness e))
          | inr (x, e) ↦
              >>=-of_err m k s x e
              ∙ ap (λ r. (r.0, record { world = r.1; caches = s.caches }))
                  (sym (>>=-of_err (execute c inputs) (generate_proof b) s.world x e))
        ]

    warm_run :
        (kind : Text) (inputs : Value) (c : Circuit) (b : Backend) (s : Session V)
        → IsWarm kind c b s
        → exec_and_prove V platform kind inputs s
          ≡ outside V (execute c inputs >>= generate_proof b) s
    unfolding exec_and_prove
    warm_run kind inputs c b s w =
        let load = load_circuit V kind in
        after_ok (ensure_noir_wasm V) (λ _. load >>= prove V platform kind inputs) s s tt
          (ensure_noir_wasm-found V s (ok tt) w.noir)
        ∙ after_ok load (prove V platform kind inputs) s s c
            (load_circuit-found V kind s (ok c) w.circuit_loaded)
        ∙ warm_prove kind inputs c b s w.backend_made

    -- After a proof of some kind has been produced, a further proof of that kind is the circuit's
    -- execution and the backend's proof and nothing else, whatever its inputs: no module is
    -- started, no circuit is fetched, no backend is made, and the caches stay as they are.
    pub exec_and_prove-again :
        (kind : Text) (first second : Value) (s : Session V) (p : Proof)
        → (exec_and_prove V platform kind first s).0 ≡ ok p
        → (c : Circuit) × (b : Backend) × IsWarm kind c b (exec_and_prove V platform kind first s).1
          × (exec_and_prove V platform kind second (exec_and_prove V platform kind first s).1
              ≡ outside V
                  (execute c second >>= generate_proof b)
                  (exec_and_prove V platform kind first s).1)
    exec_and_prove-again kind first second s p h =
        let (c, b, w) = exec_and_prove-IsWarm kind first s p h in
        (c, b, w, warm_run kind second c b (exec_and_prove V platform kind first s).1 w)
