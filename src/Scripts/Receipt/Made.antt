-- ===== src/Scripts/Receipt/Made.antt =====
-- A receipt that make-receipt.mjs wrote, in the hands of verify-receipt.mjs.
use raiz_confidential_stack.Shim.Codec.RoundTrip.{
  read_big_int-dec, trim-visible, dec-ne-nil, dec_visible,
}
use raiz_confidential_stack.Prelude.{
  ◌≢◌, is_space, All, ℕ, ℤ, Text, codes, same_text, same_text_refl, eqb_ℤ_iff, true, false, some,
  [], ◌∷◌, ok, Error, bind_result, Io, pure, lift, ◌>>=◌, >>=-of_ok, ◌≡◌, refl, ap, sym, ◌∙◌, ◌⊎◌,
  inl, arith,
}
use raiz_confidential_stack.Vendor.{Vendor}
use raiz_confidential_stack.Shim.Codec.{read_big_int, big_of_text, dec}
use raiz_confidential_stack.Shim.Events.Raw.{big_int}
use raiz_confidential_stack.Scripts.EnvFile.{Env}
use raiz_confidential_stack.Scripts.Retry.Attempts.{Failing, Ends, retry_unless-Failing}
use raiz_confidential_stack.Scripts.Receipt.Protocol.{IsComplete, IsLasting, IsReady}
use raiz_confidential_stack.Scripts.Receipt.Making.{IsMade, make_receipt-IsMade}
use raiz_confidential_stack.Scripts.Receipt.{
  Found, Disclosure, Deployment, minting_secret, verifying_secret, Receipt, Outcome, make_receipt,
  settle, judge, run_verification, verify_bundle, verify_receipt,
}

big_int-visible :
    (s : Text) (n : ℤ)
    → All (λ c. is_space c ≡ false) s
    → s ≢ []
    → read_big_int s ≡ some n
    → big_int s ≡ ok n
unfolding big_int big_of_text
big_int-visible [] n h ne e = absurd (ne refl)
big_int-visible (c ∷ s) n h ne e = rw (trim-visible (c ∷ s) h, e)

-- `BigInt` reads what `toString` printed.
big_int-dec : (n : ℤ) → big_int (dec n) ≡ ok n
big_int-dec n = big_int-visible (dec n) n (dec_visible n) (dec-ne-nil n) (read_big_int-dec n)

module _ (V : Vendor) (D : Disclosure V) (wait : ℕ → V.World → V.World) where
  open V use {World}

  run_verification-accepted :
      (dep : Deployment) (receipt : Receipt V D wait) (keys : D.RecipientKeys) (prover : D.Prover)
      (key : D.VerificationKey) (w : World) (v : Found)
      → ((p : D.Prover) (w' : World) → (D.destroy p w').0 ≡ ok tt)
      → (D.verify_disclosure dep.client receipt.bundle receipt.request keys prover key w).0 ≡ ok v
      → (run_verification V D wait dep receipt keys prover key w).0 ≡ ok (inl v)
  unfolding run_verification settle
  run_verification-accepted dep receipt keys prover key w v let_go h =
      let fn = D.verify_disclosure dep.client receipt.bundle receipt.request keys prover key in
      let fatal = D.is_verify_error in
      let once =
        retry_unless-Failing wait fatal 3000 fn (codes "verifyDisclosure") 3 (Failing.no_attempt w)
          (omega arith) (ap (λ r. (r, (fn w).1)) h) (Ends.returned v (fn w).1) in
      ap (λ p. (settle V D wait prover p).0) once
      ∙ ap (λ p. p.0)
          (>>=-of_ok (D.destroy prover) (λ _. pure (inl v)) (fn w).1 tt (let_go prover (fn w).1))

  verify_bundle-accepted :
      (dep : Deployment) (env : Env) (tx : Text) (receipt : Receipt V D wait) (w : World)
      → IsComplete V D
      → IsLasting V dep.client tx (D.enable_threads w).1
      → IsReady V D (D.circuit_id receipt.bundle)
      → (m : IsMade V D wait env dep tx receipt) → minting_secret env ≡ verifying_secret env
      → (verify_bundle V D wait dep env receipt w).0
        ≡ ok (inl (record { account = m.from; amount = m.amount }))
  unfolding verify_bundle
  verify_bundle-accepted dep env tx receipt w law lasting ready m same =
      let id = D.circuit_id receipt.bundle in
      let run : D.RecipientKeys → D.Prover → D.VerificationKey → Io World (Found ⊎ Error) =
        run_verification V D wait dep receipt in
      let of_prover : D.RecipientKeys → D.Prover → Io World (Found ⊎ Error) =
        λ keys prover. lift (D.pinned_key id) >>= run keys prover in
      let of_threads : D.RecipientKeys → Unit {0} → Io World (Found ⊎ Error) =
        λ keys _. lift (D.make_prover id) >>= of_prover keys in
      let of_keys : D.RecipientKeys → Io World (Found ⊎ Error) =
        λ keys. D.enable_threads >>= of_threads keys in
      let minted = bind_result (big_int (verifying_secret env)) D.recipient_keys in
      let has_keys : minted ≡ ok m.keys =
        ap (λ s. bind_result (big_int s) D.recipient_keys) (sym same) ∙ m.has_keys in
      let w1 = (D.enable_threads w).1 in
      let (_, fetched) = m.fetched in
      let (_, registered) = m.registered in
      let accepted =
        law.complete dep.client m.sender m.at m.from m.to m.c m.account.viewing_key m.keys
          receipt.request m.prover ready.prover receipt.bundle ready.key m.amount m.minted m.proved
          w1 m.owned (lasting.transfers fetched m.listed m.of_tx) (lasting.keys registered) m.asked
          m.shown m.was_proved ready.has_prover ready.has_key in
      ap (λ p. p.0)
        (>>=-of_ok (lift minted) of_keys w m.keys has_keys
          ∙ >>=-of_ok D.enable_threads (of_threads m.keys) w tt (ready.threads_start w)
          ∙ >>=-of_ok (lift (D.make_prover id)) (of_prover m.keys) w1 ready.prover ready.has_prover
          ∙ >>=-of_ok (lift (D.pinned_key id)) (run m.keys ready.prover) w1 ready.key ready.has_key)
      ∙ run_verification-accepted dep receipt m.keys ready.prover ready.key w1 _ ready.let_go
          accepted

  judge-claimed :
      (receipt : Receipt V D wait) (v : Found)
      → receipt.claim.amount_stroops ≡ dec v.amount
      → judge V D wait receipt (inl v) ≡ ok (Outcome.verified v)
  unfolding judge
  judge-claimed receipt v h =
      let found : big_int receipt.claim.amount_stroops ≡ ok v.amount =
        ap big_int h ∙ big_int-dec v.amount in
      rw (found, (eqb_ℤ_iff v.amount v.amount).1 refl)

  -- A receipt that make-receipt.mjs made of a transaction is verified by verify-receipt.mjs for the
  -- same deployment and file of secrets, with the amount and the contributor that the receipt claims:
  -- if the file has no empty verifier's secret, so that both scripts use the same one; if the chain,
  -- when the verifier's threads have started, serves the transaction's transfer once, its sender's
  -- account, and the viewing keys, as it served them before; if the vendor's protocol accepts the
  -- proof of such a transfer; and if the verifying machine has the circuit's files.
  pub verify_receipt-make_receipt :
      (dep : Deployment) (env : Env) (tx : Text) (w later : World) (receipt : Receipt V D wait)
      → IsComplete V D
      → IsLasting V dep.client tx (D.enable_threads later).1
      → IsReady V D (D.circuit_id receipt.bundle)
      → minting_secret env ≡ verifying_secret env
      → (make_receipt V D wait dep env tx w).0 ≡ ok receipt
      → (v : Found) × ((verify_receipt V D wait dep env receipt later).0 ≡ ok (Outcome.verified v))
        × (receipt.claim.amount_stroops ≡ dec v.amount)
        × (receipt.claim.contributor ≡ v.account)
  unfolding verify_receipt
  verify_receipt-make_receipt dep env tx w later receipt law lasting ready same h =
      let m = make_receipt-IsMade V D wait dep env tx w receipt h in
      let accepted = verify_bundle-accepted dep env tx receipt later law lasting ready m same in
      let v : Found = record { account = m.from; amount = m.amount } in
      let right : same_text receipt.token dep.client.token ≡ true =
        ap (λ t. same_text t dep.client.token) m.token ∙ same_text_refl dep.client.token in
      (
        v,
        rw right (
            ap (λ p. p.0)
              (>>=-of_ok (verify_bundle V D wait dep env receipt)
                (λ found. lift (judge V D wait receipt found)) later (inl v) accepted)
            ∙ judge-claimed receipt v m.claimed),
        m.claimed,
        m.contributor,
      )
