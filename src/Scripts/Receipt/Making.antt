-- ===== src/Scripts/Receipt/Making.antt =====
-- What make-receipt.mjs made a receipt of: lines 67-154.

use raiz_confidential_stack.Scripts.Receipt.Protocol.{Listed}
use raiz_confidential_stack.Prelude.{
  Bool, ok_injective, List, Said, ℕ, ℤ, Text, same_text, true, false, not, some, ok, Error,
  bind_result, Io, pure, lift, throw_if, ◌>>=◌, ◌>>◌, >>=-eq-ok, ◌≡◌, refl, sym, ◌∙◌,
}
use mathlib.Core.Path.{subst}
use raiz_confidential_stack.Vendor.{Vendor, Account, Place, Event, transfer}
use raiz_confidential_stack.Shim.Codec.{dec}
use raiz_confidential_stack.Shim.Events.Raw.{big_int}
use raiz_confidential_stack.Scripts.EnvFile.{Env}
use raiz_confidential_stack.Scripts.Receipt.{
  owns_transfer, Disclosure, Deployment, Sent, minting_secret, Receipt, contributor_secret,
  mint_request, locate, with_request, with_keys, disclose, receipt_of, prove_bundle, recipient_key,
  make_receipt,
}
use raiz_confidential_stack.Scripts.Receipt.Located.{
  IsLocated, locate-IsLocated, recipient_key-Said, owns_transfer-coords,
}

no_throw : {W : Type 0} (b : Bool) (e : Error) (w : W) → (throw_if (not b) e w).0 ≡ ok tt → b ≡ true
no_throw true e w h = refl
no_throw false e w h = cc

module _ (V : Vendor) (D : Disclosure V) (wait : ℕ → V.World → V.World) where
  open V use {World}

  -- What a receipt was made of: the transfer of `tx` that the chain served, keys that own it, the
  -- viewing key of its recipient, and the proof for a minted request.
  pub record IsMade (env : Env) (dep : Deployment) (tx : Text) (receipt : Receipt V D wait)
      : Type 0 where
    pub keys : D.RecipientKeys
    pub sender : V.Keys
    pub at : Place
    pub from : Text
    pub to : Text
    pub c : V.Cipher
    pub account : Account V.Point
    pub prover : D.Prover
    pub amount : ℤ
    pub minted : World
    pub proved : World
    pub events : List (Event V.Cipher)
    pub last : ℕ
    pub fetched : Said (V.fetch_events dep.client dep.deployed_at dep.client.token) (events, last)
    pub listed : Listed (transfer at from to c) events
    pub of_tx : same_text at.tx_hash tx ≡ true
    pub owned : V.coords (D.times_base (D.ephemeral sender c)) ≡ V.coords (D.ephemeral_point c)
    pub registered : Said (V.confidential_balance dep.client to) (some account)
    pub has_keys : bind_result (big_int (minting_secret env)) D.recipient_keys ≡ ok keys
    pub asked : (D.new_request keys minted).0 ≡ ok receipt.request
    pub shown :
        D.preview sender (D.ephemeral sender c) c account.viewing_key receipt.request ≡ ok amount
    pub was_proved :
        (D.prove_sender sender
          (D.ephemeral sender c)
          c
          account.viewing_key
          receipt.request
          prover
          proved).0
        ≡ ok receipt.bundle
    pub claimed : receipt.claim.amount_stroops ≡ dec amount
    pub contributor : receipt.claim.contributor ≡ from
    pub goal : receipt.claim.goal ≡ to
    pub token : receipt.token ≡ dep.client.token

  prove_bundle-eq-ok :
      (keys : V.Keys) (sent : Sent V D wait) (pvk_b : V.Point) (request : D.Request)
      (prover : D.Prover) (w : World) (bundle : D.Bundle)
      → (prove_bundle V D wait keys sent pvk_b request prover w).0 ≡ ok bundle
      → (D.prove_sender keys (D.ephemeral keys sent.cipher) sent.cipher pvk_b request prover w).0
        ≡ ok bundle
  unfolding prove_bundle
  prove_bundle-eq-ok keys sent pvk_b request prover w bundle h =
      let m = D.prove_sender keys (D.ephemeral keys sent.cipher) sent.cipher pvk_b request prover in
      let let_go : D.Bundle → Io World D.Bundle = λ b. D.destroy prover >> pure b in
      let (b, hb, h1) = >>=-eq-ok m let_go w h in
      let (u, _, h2) = >>=-eq-ok (D.destroy prover) (λ _. pure b) (m w).1 h1 in hb ∙ h2

  mint_request-eq-ok :
      (env : Env) (w : World) (request : D.Request)
      → (mint_request V D wait env w).0 ≡ ok request
      → (keys : D.RecipientKeys) × (bind_result (big_int (minting_secret env)) D.recipient_keys
          ≡ ok keys)
        × ((D.new_request keys w).0 ≡ ok request)
  unfolding mint_request
  mint_request-eq-ok env w request h =
      >>=-eq-ok (lift (bind_result (big_int (minting_secret env)) D.recipient_keys)) D.new_request w
        h

  disclose-IsMade :
      (env : Env) (dep : Deployment) (sent : Sent V D wait) (request : D.Request) (sender : V.Keys)
      (account : Account V.Point) (tx : Text) (minted w : World) (receipt : Receipt V D wait)
      (keys : D.RecipientKeys)
      → IsLocated V D wait dep tx sent
      → Said (V.confidential_balance dep.client sent.to) (some account)
      → V.coords (D.times_base (D.ephemeral sender sent.cipher))
        ≡ V.coords (D.ephemeral_point sent.cipher)
      → bind_result (big_int (minting_secret env)) D.recipient_keys ≡ ok keys
      → (D.new_request keys minted).0 ≡ ok request
      → (disclose V D wait dep sent request sender account.viewing_key w).0 ≡ ok receipt
      → IsMade env dep tx receipt
  unfolding disclose
  disclose-IsMade env dep sent request sender account tx minted w receipt keys located registered
        owned hk hr h =
      let pvk_b = account.viewing_key in
      let r = D.ephemeral sender sent.cipher in
      let give : ℤ → D.Bundle → Io World (Receipt V D wait) =
        λ amount bundle. pure (receipt_of V D wait dep sent request amount bundle) in
      let of_prover : ℤ → D.Prover → Io World (Receipt V D wait) =
        λ amount prover. prove_bundle V D wait sender sent pvk_b request prover >>= give amount in
      let of_threads : ℤ → Unit {0} → Io World (Receipt V D wait) =
        λ amount _. lift (D.make_prover D.sender_circuit) >>= of_prover amount in
      let of_amount : ℤ → Io World (Receipt V D wait) =
        λ amount. D.enable_threads >>= of_threads amount in
      let (amount, ha, h1) =
        >>=-eq-ok (lift (D.preview sender r sent.cipher pvk_b request)) of_amount w h in
      let (u, _, h2) = >>=-eq-ok D.enable_threads (of_threads amount) w h1 in
      let w1 = (D.enable_threads w).1 in
      let (prover, _, h3) =
        >>=-eq-ok (lift (D.make_prover D.sender_circuit)) (of_prover amount) w1 h2 in
      let (bundle, hb, h4) =
        >>=-eq-ok (prove_bundle V D wait sender sent pvk_b request prover) (give amount) w1 h3 in
      let same : receipt_of V D wait dep sent request amount bundle ≡ receipt = ok_injective h4 in
      subst (IsMade env dep tx) same (record {
        keys = keys;
        sender = sender;
        at = located.found.at;
        from = sent.from;
        to = sent.to;
        c = sent.cipher;
        account = account;
        prover = prover;
        amount = amount;
        minted = minted;
        proved = w1;
        events = located.events;
        last = located.last;
        fetched = located.fetched;
        listed = located.found.listed;
        of_tx = located.found.of_tx;
        owned = owned;
        registered = registered;
        has_keys = hk;
        asked = hr;
        shown = ha;
        was_proved = prove_bundle-eq-ok sender sent pvk_b request prover w1 bundle hb;
        claimed = refl;
        contributor = refl;
        goal = refl;
        token = refl;
      })

  pub make_receipt-IsMade :
      (dep : Deployment) (env : Env) (tx : Text) (w : World) (receipt : Receipt V D wait)
      → (make_receipt V D wait dep env tx w).0 ≡ ok receipt
      → IsMade env dep tx receipt
  unfolding make_receipt with_request with_keys
  make_receipt-IsMade dep env tx w receipt h =
      let ask : Text → Io World (Receipt V D wait) =
        λ secret. mint_request V D wait env >>= with_request V D wait dep tx secret in
      let (secret, _, h1) = >>=-eq-ok (lift (contributor_secret env)) ask w h in
      let (request, hr, h2) =
        >>=-eq-ok (mint_request V D wait env) (with_request V D wait dep tx secret) w h1 in
      let (keys, hk, hq) = mint_request-eq-ok env w request hr in
      let w1 = (mint_request V D wait env w).1 in
      let sender_of = bind_result (big_int secret) (λ sk. V.derive_keys sk dep.addr_f) in
      let find : Sent V D wait → Io World (Receipt V D wait) =
        λ sent. lift sender_of >>= with_keys V D wait dep sent request in
      let (sent, hs, h3) = >>=-eq-ok (locate V D wait dep tx) find w1 h2 in
      let w2 = (locate V D wait dep tx w1).1 in
      let (sender, _, h4) =
        >>=-eq-ok (lift sender_of) (with_keys V D wait dep sent request) w2 h3 in
      let guard : Io World (Unit {0}) =
        throw_if (not (owns_transfer V D wait sender sent)) Error.ephemeral_mismatch in
      let rest = recipient_key V D wait dep sent >>= disclose V D wait dep sent request sender in
      let (u, hg, h5) = >>=-eq-ok guard (λ _. rest) w2 h4 in
      let (pvk_b, hp, h6) =
        >>=-eq-ok (recipient_key V D wait dep sent) (disclose V D wait dep sent request sender)
          (guard w2).1 h5 in
      let (account, registered, its_key) =
        recipient_key-Said V D wait dep sent pvk_b (guard w2).1 hp in
      let w3 = (recipient_key V D wait dep sent (guard w2).1).1 in
      disclose-IsMade env dep sent request sender account tx w w3 receipt keys
        (locate-IsLocated V D wait dep tx sent w1 hs) registered
        (owns_transfer-coords V D wait sender sent
          (no_throw (owns_transfer V D wait sender sent) _ w2 hg))
        hk hq
        (subst (λ k. (disclose V D wait dep sent request sender k w3).0 ≡ ok receipt) (sym its_key)
          h6)
