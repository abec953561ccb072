-- ===== src/Shim/Prover/Engine/Cached.antt =====
-- A circuit that raiz-shim.js has loaded once (lines 161-171) stays loaded, whatever is proved after it.
use raiz_confidential_stack.Prelude.{
  Text, same_text, same_text_iff, Bool-cases, Option-cases, none, some, List, [], ◌∷◌, Result,
  ◌>>=◌, >>=-keeps, ◌≡◌, sym, ap, ◌∙◌, inl, inr,
}
use raiz_confidential_stack.Values.{Value}
use raiz_confidential_stack.Vendor.{Vendor}
use raiz_confidential_stack.Shim.Prover.Engine.{
  Platform, threads, Session, lookup, outside, ensure_noir_wasm, load_bb, fetch_circuit,
  load_circuit, set_backend, get_backend, prove_witness, prove, exec_and_prove,
}
use raiz_confidential_stack.Shim.Prover.Engine.Loading.{load_circuit-keeps, load_circuit-found}

-- Another entry in front does not hide one that is there under another key.
lookup-in_front :
    {A : Type 0} (k j : Text) (a b : A) (entries : List (Text × A))
    → lookup j entries ≡ none
    → lookup k entries ≡ some a
    → lookup k ((j, b) ∷ entries) ≡ some a
unfolding lookup
lookup-in_front k j a b entries free found = elim (Bool-cases (same_text k j)) [
  | inl e ↦
      (let same : k ≡ j = (same_text_iff k j).0 e in
        let gone : lookup k entries ≡ none = ap (λ x. lookup x entries) same ∙ free in
        absurd (clash (sym gone ∙ found)))
  | inr e ↦ rw e found
]
  where
    clash : none ≡ some a → ⊥
    clash h = cc h

module _ (V : Vendor) (platform : Platform) where
  -- The page behind a sequence of proofs, whether they succeed or fail.
  abbrev pub after_proofs : List (Text × Value) → Session V → Session V
  after_proofs [] s = s
  after_proofs ((other, inputs) ∷ jobs) s =
      after_proofs jobs (exec_and_prove V platform other inputs s).1

module _ (V : Vendor) (kind : Text) (r : Result V.Circuit) where
  open V use {Circuit}

  -- The circuits that are loaded hold this outcome for the kind.
  abbrev pub IsLoaded : Session V → Type 0
  IsLoaded s = lookup kind s.caches.circuits ≡ some r

  ensure_noir_wasm-IsLoaded : (s : Session V) → IsLoaded s → IsLoaded (ensure_noir_wasm V s).1
  unfolding ensure_noir_wasm
  ensure_noir_wasm-IsLoaded s h = elim (Option-cases s.caches.noir) [
    | inl e ↦ rw (e, ensure_noir_wasm) h
    | inr (q, e) ↦ rw (e, ensure_noir_wasm) h
  ]

  load_bb-IsLoaded : (s : Session V) → IsLoaded s → IsLoaded (load_bb V s).1
  unfolding load_bb
  load_bb-IsLoaded s h = elim (Option-cases s.caches.bb) [
    | inl e ↦ rw (e, load_bb) h
    | inr (q, e) ↦ rw (e, load_bb) h
  ]

  load_circuit-IsLoaded :
      (other : Text) (s : Session V) → IsLoaded s → IsLoaded (load_circuit V other s).1
  unfolding load_circuit
  load_circuit-IsLoaded other s h = elim (Option-cases (lookup other s.caches.circuits)) [
    | inl e ↦
        rw (e, load_circuit)
          (lookup-in_front kind other r (fetch_circuit V other s.world).0 s.caches.circuits e h)
    | inr (q, e) ↦ rw (e, load_circuit) h
  ]

  module _ (platform : Platform) where
    get_backend-IsLoaded :
        (other code : Text) (s : Session V)
        → IsLoaded s
        → IsLoaded (get_backend V platform other code s).1
    unfolding get_backend set_backend
    get_backend-IsLoaded other code s h = elim (Option-cases (lookup other s.caches.backends)) [
      | inl e ↦
          rw (e, get_backend)
            (>>=-keeps IsLoaded (load_bb V)
              (λ _. set_backend V other (V.new_backend code (threads platform))) s
              (load_bb-IsLoaded s h) (λ a t k. k))
      | inr (b, e) ↦ rw (e, get_backend) h
    ]

    exec_and_prove-IsLoaded :
        (other : Text) (inputs : Value) (s : Session V)
        → IsLoaded s
        → IsLoaded (exec_and_prove V platform other inputs s).1
    unfolding exec_and_prove prove prove_witness outside
    exec_and_prove-IsLoaded other inputs s h =
        >>=-keeps IsLoaded (ensure_noir_wasm V)
          (λ _. load_circuit V other >>= prove V platform other inputs) s
          (ensure_noir_wasm-IsLoaded s h)
          λ _ t loaded.
            >>=-keeps IsLoaded (load_circuit V other) (prove V platform other inputs) t
              (load_circuit-IsLoaded other t loaded)
              λ circuit t1 loaded1.
                >>=-keeps IsLoaded (outside V (V.execute circuit inputs))
                  (prove_witness V platform other circuit) t1 loaded1
                  λ witness t2 loaded2.
                    >>=-keeps IsLoaded (get_backend V platform other (V.bytecode circuit))
                      (λ backend. outside V (V.generate_proof backend witness)) t2
                      (get_backend-IsLoaded other (V.bytecode circuit) t2 loaded2)
                      λ backend t3 loaded3. loaded3

    after_proofs-IsLoaded :
        (jobs : List (Text × Value)) (s : Session V)
        → IsLoaded s
        → IsLoaded (after_proofs V platform jobs s)
    after_proofs-IsLoaded [] s h = h
    after_proofs-IsLoaded ((other, inputs) ∷ jobs) s h =
        after_proofs-IsLoaded jobs (exec_and_prove V platform other inputs s).1
          (exec_and_prove-IsLoaded other inputs s h)

-- Once a circuit has been loaded, a value or an error, it is not fetched again: whatever kinds are proved after it, and
-- whether these proofs succeed or fail, a later load of it gives what the first one gave and changes nothing.
pub load_circuit-cached :
    (V : Vendor) (platform : Platform) (kind : Text) (jobs : List (Text × Value)) (s : Session V)
    → let later = after_proofs V platform jobs (load_circuit V kind s).1 in
      load_circuit V kind later ≡ ((load_circuit V kind s).0, later)
load_circuit-cached V platform kind jobs s =
    let first = load_circuit V kind s in
    let later = after_proofs V platform jobs first.1 in
    load_circuit-found V kind later first.0
      (after_proofs-IsLoaded V kind first.0 platform jobs first.1 (load_circuit-keeps V kind s))
