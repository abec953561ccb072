-- ===== src/Shim/Prover/Generate/Kinds.antt =====
-- Which kinds of proof `generate` (raiz-shim.js, line 300) produces, and what it returns.
use raiz_confidential_stack.Shim.Prover.Output.{to_base64}
use mathlib.Core.Path.{subst}
use raiz_confidential_stack.Prelude.{
  none, some, length, ◌∙◌, sym, ◌≤◌, ℤ, Text, codes, same_text, same_text_iff, Option, Result, ok,
  err, Error, Io, lift, pure, ◌>>=◌, ◌≡◌, refl, ap, inl, inr, ◌⊎◌, Bool-cases, >>=-eq-ok,
}
use raiz_confidential_stack.Values.{Value}
use raiz_confidential_stack.Vendor.{Vendor, Witness, Proof}
use raiz_confidential_stack.Shim.Codec.{parse_params}
use raiz_confidential_stack.Shim.Prover.Engine.{Platform, Session, outside, exec_and_prove}
use raiz_confidential_stack.Shim.Prover.Engine.Loading.{threads_bounds}
use raiz_confidential_stack.Shim.Prover.Generate.{
  serialize, optional_big, keys_of_params, Generated, is_proof_free, build_witness, build_of_kind,
  generated, prove_kind, generate_of_params, generate,
}

-- The kinds that have a circuit.
abbrev pub IsProvable : Text → Type 0
IsProvable kind = (kind ≡ codes "register") ⊎ (kind ≡ codes "withdraw") ⊎ (kind ≡ codes "transfer")

module _ (V : Vendor) (platform : Platform) where
  open V use {World}

  build_of_kind-IsProvable :
      (kind : Text) (keys : V.Keys) (sigma re : Option ℤ) (p : Value) (w : World) (a : Witness)
      → (build_of_kind V kind keys sigma re p w).0 ≡ ok a
      → IsProvable kind
  unfolding build_of_kind
  build_of_kind-IsProvable kind keys sigma re p w a h =
      elim (Bool-cases (same_text kind (codes "register"))) [
        | inl e ↦ inl ((same_text_iff kind (codes "register")).0 e)
        | inr no_register ↦ elim (Bool-cases (same_text kind (codes "withdraw"))) [
          | inl e ↦ inr (inl ((same_text_iff kind (codes "withdraw")).0 e))
          | inr no_withdraw ↦ elim (Bool-cases (same_text kind (codes "transfer"))) [
            | inl e ↦ inr (inr ((same_text_iff kind (codes "transfer")).0 e))
            | inr no_transfer ↦ absurd (
                unknown (build_of_kind V kind keys sigma re p w)
                  (rw (no_register, no_withdraw, no_transfer, build_of_kind) refl) h)
          ]
        ]
      ]
    where
      unknown :
          (r : Result Witness × World) → r ≡ (err (Error.unknown_kind kind), w) → r.0 ≡ ok a → ⊥
      unknown r e f = cc

  build_witness-IsProvable :
      (kind : Text) (p : Value) (w : World) (a : Witness)
      → (build_witness V kind p w).0 ≡ ok a
      → IsProvable kind
  unfolding build_witness
  build_witness-IsProvable kind p w a h =
      let of_re : V.Keys → Option ℤ → Option ℤ → Io World Witness =
        λ keys sigma re. build_of_kind V kind keys sigma re p in
      let of_sigma : V.Keys → Option ℤ → Io World Witness =
        λ keys sigma. lift (optional_big p (codes "rE")) >>= of_re keys sigma in
      let of_keys : V.Keys → Io World Witness =
        λ keys. lift (optional_big p (codes "sigma")) >>= of_sigma keys in
      let (keys, _, h1) = >>=-eq-ok (lift (keys_of_params V p)) of_keys w h in
      let (sigma, _, h2) = >>=-eq-ok (lift (optional_big p (codes "sigma"))) (of_sigma keys) w h1 in
      let (re, _, h3) = >>=-eq-ok (lift (optional_big p (codes "rE"))) (of_re keys sigma) w h2 in
      build_of_kind-IsProvable kind keys sigma re p w a h3

  -- The next opening in its plain form, where the witness has one.
  pub data IsNext : Option Value → Option Value → Type 0 where
    without : IsNext none none
    with_next : (v : Value) → IsNext (some v) (some (serialize V v))

  -- What a result says, field by field, of the proof and of the witness behind it.
  pub record IsCarried (kind : Text) (w : Witness) (proof : Proof) (g : Generated) : Type 0 where
    pub kind_said : g.kind ≡ kind
    pub proof_said : g.proof_base64 ≡ to_base64 proof.bytes
    pub length_said : g.proof_length ≡ length proof.bytes
    pub inputs_said : g.public_inputs ≡ proof.public_inputs
    pub payload_said : g.payload ≡ serialize V w.payload
    pub next_said : IsNext w.next g.next
    pub threads_positive : 1 ≤ g.thread_count
    pub threads_bounded : g.thread_count ≤ 32

  -- What a proof of this kind was made of.
  abbrev pub IsProof : Text → Value → Session V → Generated → Type 0
  IsProof kind json s g =
      (p : Value) × (w : Witness) × (proof : Proof) × (parse_params V json ≡ ok p)
      × ((build_witness V kind p s.world).0 ≡ ok w)
      × ((exec_and_prove V platform kind w.inputs (outside V (build_witness V kind p) s).1).0
          ≡ ok proof)
      × IsCarried kind w proof g

  plain-IsNext :
      (n : Option Value) → IsNext n (elim n [ none ↦ none | some v ↦ some (serialize V v) ])
  plain-IsNext none = IsNext.without
  plain-IsNext (some v) = IsNext.with_next v

  generated-IsCarried :
      (kind : Text) (w : Witness) (proof : Proof)
      → IsCarried kind w proof (generated V platform kind w proof)
  unfolding generated
  generated-IsCarried kind w proof = record {
    kind_said = refl;
    proof_said = refl;
    length_said = refl;
    inputs_said = refl;
    payload_said = refl;
    next_said = plain-IsNext w.next;
    threads_positive = (threads_bounds platform).0;
    threads_bounded = (threads_bounds platform).1;
  }

  proved :
      (kind : Text) (json : Value) (s : Session V) (g : Generated)
      → ((lift (parse_params V json) >>= generate_of_params V platform kind) s).0 ≡ ok g
      → IsProvable kind × IsProof kind json s g
  unfolding generate_of_params prove_kind outside generated
  proved kind json s g h =
      let (p, hp, h1) =
        >>=-eq-ok (lift (parse_params V json)) (generate_of_params V platform kind) s h in
      let m = outside V (build_witness V kind p) in
      let (w, hw, h2) = >>=-eq-ok m (prove_kind V platform kind) s h1 in
      let back : Proof → Io (Session V) Generated =
        λ proof. pure (generated V platform kind w proof) in
      let (proof, hq, h3) = >>=-eq-ok (exec_and_prove V platform kind w.inputs) back (m s).1 h2 in
      let same : generated V platform kind w proof ≡ g = cc h3 in
      (
        build_witness-IsProvable kind p s.world w hw,
        (
          p,
          w,
          proof,
          hp,
          hw,
          hq,
          subst (IsCarried kind w proof) same (generated-IsCarried kind w proof),
        ),
      )

  -- A result of `generate` stands only for a kind that has a circuit, never for a deposit or a
  -- merge. It names that kind and gives the base64 text, the length and the public inputs of the
  -- proof that the engine made, under that kind, for the witness built of the parameters, the plain
  -- form of that witness's payload and of its next opening, and between 1 and 32 threads.
  pub generate-eq-ok :
      (kind : Text) (json : Value) (s : Session V) (g : Generated)
      → (generate V platform kind json s).0 ≡ ok g
      → IsProvable kind × IsProof kind json s g
  unfolding generate
  generate-eq-ok kind json s g h = elim (Bool-cases (is_proof_free kind)) [
    | inl e ↦ absurd (refused (generate V platform kind json s) (rw (e, generate) refl) h)
    | inr e ↦
        (let same : generate V platform kind json s
              ≡ (lift (parse_params V json) >>= generate_of_params V platform kind) s =
            rw (e, generate) refl in
          proved kind json s g (ap (λ r. r.0) (sym same) ∙ h))
  ]
    where
      refused :
          (r : Result Generated × Session V)
          → r ≡ (err (Error.no_proof_needed kind), s)
          → r.0 ≡ ok g
          → ⊥
      refused r e f = cc
