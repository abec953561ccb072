-- ===== src/Scripts/Receipt/Verified.antt =====
-- What it takes for verify-receipt.mjs to exit with 0, and whose key the receipts are for.
use raiz_confidential_stack.Scripts.Retry.Returned.{retry_unless-returned}
use raiz_confidential_stack.Prelude.{
  ℕ, ℤ, Text, codes, same_text, eqb_ℤ, eqb_ℤ_iff, Bool, true, false, not, Option, none, some, [],
  ◌∷◌, Result, ok, err, Error, bind_result, bind_result-eq-ok, Io, pure, lift, throw_if, ◌>>=◌,
  >>=-eq-ok, ◌≡◌, refl, ap, ◌∙◌, ◌⊎◌, inl, inr, Bool-cases, if◌then◌else◌,
}
use raiz_confidential_stack.Vendor.{Vendor}
use raiz_confidential_stack.Scripts.EnvFile.{Env, lookup}
use raiz_confidential_stack.Scripts.Retry.{retry_unless}
use raiz_confidential_stack.Scripts.Receipt.{
  big_int, Found, Disclosure, Deployment, demo_secret, secret_name, minting_secret,
  verifying_secret, filled_or, given_or, Receipt, Outcome, settle, judge, run_verification,
  verify_bundle, verify_receipt,
}

-- Both receipt scripts use the same secret of the verifier, unless the file of secrets has an empty
-- value for it: then make-receipt.mjs mints for the demo key and verify-receipt.mjs takes the empty
-- text.
pub minting_secret-verifying_secret :
    (env : Env)
    → (minting_secret env ≡ verifying_secret env)
      ⊎ ((lookup secret_name env ≡ some [])
          × (minting_secret env ≡ demo_secret)
          × (verifying_secret env ≡ []))
unfolding minting_secret verifying_secret
minting_secret-verifying_secret env = go (lookup secret_name env)
  where
    go :
        (o : Option Text)
        → (filled_or o demo_secret ≡ given_or o demo_secret)
          ⊎ ((o ≡ some [])
              × (filled_or o demo_secret ≡ demo_secret)
              × (given_or o demo_secret ≡ []))
    go none = inl refl
    go (some []) = inr (refl, refl, refl)
    go (some (c ∷ s)) = inl refl

no_throw : {W : Type 0} (b : Bool) (e : Error) (w : W) → (throw_if (not b) e w).0 ≡ ok tt → b ≡ true
no_throw true e w h = refl
no_throw false e w h = cc

module _ (V : Vendor) (D : Disclosure V) (wait : ℕ → V.World → V.World) where
  open V use {World}

  -- What stands behind a receipt that was verified.
  pub record IsGenuine (dep : Deployment) (receipt : Receipt V D wait) (v : Found) : Type 0 where
    pub keys : D.RecipientKeys
    pub prover : D.Prover
    pub key : D.VerificationKey
    pub pinned : D.pinned_key (D.circuit_id receipt.bundle) ≡ ok key
    pub at : World
    pub accepted :
        (D.verify_disclosure dep.client receipt.bundle receipt.request keys prover key at).0 ≡ ok v

  settle-eq-ok :
      (prover : D.Prover) (p : Result Found × World) (v : Found)
      → (settle V D wait prover p).0 ≡ ok (inl v)
      → p.0 ≡ ok v
  unfolding settle
  settle-eq-ok prover (ok x, w) v h =
      let (u, _, e) = >>=-eq-ok (D.destroy prover) (λ _. pure (inl x)) w h in cc e
  settle-eq-ok prover (err e, w) v h = elim (Bool-cases (D.is_verify_error e)) [
    | inl bad ↦ cc (rw bad at h)
    | inr other ↦
        (let fail : Unit {0} → Io World (Found ⊎ Error) = λ _. lift (err e) in
          let (u, _, e') = >>=-eq-ok (D.destroy prover) fail w (rw other at h) in cc e')
  ]

  run_verification-eq-ok :
      (dep : Deployment) (receipt : Receipt V D wait) (keys : D.RecipientKeys) (prover : D.Prover)
      (key : D.VerificationKey) (w : World) (v : Found)
      → (run_verification V D wait dep receipt keys prover key w).0 ≡ ok (inl v)
      → (at : World) × ((D.verify_disclosure dep.client receipt.bundle receipt.request keys prover
            key at).0
          ≡ ok v)
  unfolding run_verification
  run_verification-eq-ok dep receipt keys prover key w v h =
      let fn = D.verify_disclosure dep.client receipt.bundle receipt.request keys prover key in
      let label = codes "verifyDisclosure" in
      retry_unless-returned wait D.is_verify_error label 3 3000 fn v w
        (settle-eq-ok prover (retry_unless wait D.is_verify_error label 3 3000 fn w) v h)

  verify_bundle-IsGenuine :
      (dep : Deployment) (env : Env) (receipt : Receipt V D wait) (w : World) (v : Found)
      → (verify_bundle V D wait dep env receipt w).0 ≡ ok (inl v)
      → IsGenuine dep receipt v
  unfolding verify_bundle
  verify_bundle-IsGenuine dep env receipt w v h =
      let id = D.circuit_id receipt.bundle in
      let run : D.RecipientKeys → D.Prover → D.VerificationKey → Io World (Found ⊎ Error) =
        run_verification V D wait dep receipt in
      let of_prover : D.RecipientKeys → D.Prover → Io World (Found ⊎ Error) =
        λ keys prover. lift (D.pinned_key id) >>= run keys prover in
      let of_threads : D.RecipientKeys → Unit {0} → Io World (Found ⊎ Error) =
        λ keys _. lift (D.make_prover id) >>= of_prover keys in
      let of_keys : D.RecipientKeys → Io World (Found ⊎ Error) =
        λ keys. D.enable_threads >>= of_threads keys in
      let minted = bind_result (big_int (verifying_secret env)) D.recipient_keys in
      let (keys, _, h2) = >>=-eq-ok (lift minted) of_keys w h in
      let (u, _, h3) = >>=-eq-ok D.enable_threads (of_threads keys) w h2 in
      let w1 = (D.enable_threads w).1 in
      let (prover, _, h4) = >>=-eq-ok (lift (D.make_prover id)) (of_prover keys) w1 h3 in
      let (key, pinned, h5) = >>=-eq-ok (lift (D.pinned_key id)) (run keys prover) w1 h4 in
      let (at, accepted) = run_verification-eq-ok dep receipt keys prover key w1 v h5 in
      record {
        keys = keys;
        prover = prover;
        key = key;
        pinned = pinned;
        at = at;
        accepted = accepted;
      }

  judge-verified :
      (receipt : Receipt V D wait) (f : Found ⊎ Error) (v : Found)
      → judge V D wait receipt f ≡ ok (Outcome.verified v)
      → (f ≡ inl v) × (big_int receipt.claim.amount_stroops ≡ ok v.amount)
  unfolding judge
  judge-verified receipt (inl x) v h =
      let test : ℤ → Result (Outcome) = λ claimed.
        ok (if eqb_ℤ claimed x.amount then Outcome.verified x else Outcome.misclaimed claimed x) in
      let (claimed, hc, h1) = bind_result-eq-ok (big_int receipt.claim.amount_stroops) test h in
      let (e, c) = same claimed hc (eqb_ℤ claimed x.amount) refl h1 in (ap inl e, c)
    where
      same :
          (claimed : ℤ)
          → big_int receipt.claim.amount_stroops ≡ ok claimed
          → (b : Bool) → eqb_ℤ claimed x.amount ≡ b
          → ok (if b then Outcome.verified x else Outcome.misclaimed claimed x)
            ≡ ok (Outcome.verified v)
          → (x ≡ v) × (big_int receipt.claim.amount_stroops ≡ ok v.amount)
      same claimed hc true e h1 =
          let found : x ≡ v = cc h1 in
          (found, hc ∙ ap ok ((eqb_ℤ_iff claimed x.amount).0 e ∙ ap (λ y. y.amount) found))
      same claimed hc false e h1 = cc
  judge-verified receipt (inr e) v h = cc

  -- verify-receipt.mjs ends as verified only for a receipt of the configured token, if the vendor's
  -- verification of the receipt's bundle and request, against the key pinned for its circuit,
  -- returned in one of the attempts, and the amount that the claim shows is the one that it found.
  pub verify_receipt-IsGenuine :
      (dep : Deployment) (env : Env) (receipt : Receipt V D wait) (w : World) (v : Found)
      → (verify_receipt V D wait dep env receipt w).0 ≡ ok (Outcome.verified v)
      → (same_text receipt.token dep.client.token ≡ true)
        × IsGenuine dep receipt v
        × (big_int receipt.claim.amount_stroops ≡ ok v.amount)
  unfolding verify_receipt
  verify_receipt-IsGenuine dep env receipt w v h =
      let token = not (same_text receipt.token dep.client.token) in
      let other = Error.external (codes "receipt is for another token") in
      let rest =
        verify_bundle V D wait dep env receipt >>= λ found. lift (judge V D wait receipt found) in
      let (u, hu, h1) = >>=-eq-ok (throw_if token other) (λ _. rest) w h in
      let (f, hf, h2) =
        >>=-eq-ok (verify_bundle V D wait dep env receipt)
          (λ found. lift (judge V D wait receipt found)) (throw_if token other w).1 h1 in
      let (e, claimed) = judge-verified receipt f v h2 in
      (
        no_throw (same_text receipt.token dep.client.token) other w hu,
        verify_bundle-IsGenuine dep env receipt (throw_if token other w).1 v (hf ∙ ap ok e),
        claimed,
      )
