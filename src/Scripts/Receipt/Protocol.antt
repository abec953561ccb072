-- ===== src/Scripts/Receipt/Protocol.antt =====
-- What verify-receipt.mjs (lines 5-15) relies on: the vendor's protocol re-reads the event and the accounts' keys from
-- the chain.
use raiz_confidential_stack.Prelude.{ℕ, ℤ, Text, same_text, true, some, List, ◌∷◌, ok, ◌≡◌}
use raiz_confidential_stack.Vendor.{Vendor, Client, Account, Place, Event, transfer}
use raiz_confidential_stack.Scripts.Receipt.{Disclosure}

pub data Listed {A : Type 0} (x : A) : List A → Type 0 where
  here : {xs : List A} → Listed x (x ∷ xs)
  further : {y : A} {xs : List A} → Listed x xs → Listed x (y ∷ xs)

module _ (V : Vendor) where
  open V use {World, Point, Cipher, fetch_events, confidential_balance}

  -- The chain has an account of this name, with this viewing key.
  pub record HasKey (client : Client) (now : World) (name : Text) (key : Point) : Type 0 where
    pub account : Account Point
    pub registered : (confidential_balance client name now).0 ≡ ok (some account)
    pub its_key : account.viewing_key ≡ key

  -- The chain has exactly one transfer with this cipher, and its sender's account.
  pub record OnChain (client : Client) (now : World) (at : Place) (from to : Text) (c : Cipher)
      : Type 0 where
    pub ledger : ℕ
    pub last : ℕ
    pub events : List (Event Cipher)
    pub served : (fetch_events client ledger client.token now).0 ≡ ok (events, last)
    pub listed : Listed (transfer at from to c) events
    pub only :
        {at' : Place} {from' to' : Text}
        → Listed (transfer at' from' to' c) events
        → (from' ≡ from) × (to' ≡ to)
    pub sender_key : Point
    pub sender : HasKey client now from sender_key

  -- What the chain has served of a transaction's transfer, it serves now: the transfer once, the
  -- account of its sender, and each account that it has served with the same viewing key.
  pub record IsLasting (client : Client) (tx : Text) (now : World) : Type 0 where
    pub transfers :
        {w : World} {ledger last : ℕ} {events : List (Event Cipher)} {at : Place} {from to : Text}
        {c : Cipher}
        → (fetch_events client ledger client.token w).0 ≡ ok (events, last)
        → Listed (transfer at from to c) events
        → same_text at.tx_hash tx ≡ true
        → OnChain client now at from to c
    pub keys :
        {w : World} {name : Text} {account : Account Point}
        → (confidential_balance client name w).0 ≡ ok (some account)
        → HasKey client now name account.viewing_key

  module _ (D : Disclosure V) where
    -- What the vendor's protocol promises of a proof by the keys whose ephemeral scalar is that of
    -- the event: where the chain has the event once, its sender's account, and its recipient's with
    -- the viewing key that the proof was made for, the proof verifies under the keys that minted the
    -- request, names the event's sender and shows the amount of the sender's witness.
    pub record IsComplete : Type 0 where
      pub complete :
          (client : Client) (sender : V.Keys) (at : Place) (from to : Text) (c : Cipher)
          (pvk_b : Point) (keys : D.RecipientKeys) (request : D.Request) (prover checker : D.Prover)
          (bundle : D.Bundle) (key : D.VerificationKey) (amount : ℤ) (minted proved now : World)
          → V.coords (D.times_base (D.ephemeral sender c)) ≡ V.coords (D.ephemeral_point c)
          → OnChain client now at from to c
          → HasKey client now to pvk_b
          → (D.new_request keys minted).0 ≡ ok request
          → D.preview sender (D.ephemeral sender c) c pvk_b request ≡ ok amount
          → (D.prove_sender sender (D.ephemeral sender c) c pvk_b request prover proved).0
            ≡ ok bundle
          → D.make_prover (D.circuit_id bundle) ≡ ok checker
          → D.pinned_key (D.circuit_id bundle) ≡ ok key
          → (D.verify_disclosure client bundle request keys checker key now).0
            ≡ ok (record { account = from; amount = amount })

    -- The verifying machine: threads start, a prover is let go, and the circuit has its files.
    pub record IsReady (id : Text) : Type 0 where
      pub prover : D.Prover
      pub key : D.VerificationKey
      pub has_prover : D.make_prover id ≡ ok prover
      pub has_key : D.pinned_key id ≡ ok key
      pub threads_start : (w : World) → (D.enable_threads w).0 ≡ ok tt
      pub let_go : (p : D.Prover) (w : World) → (D.destroy p w).0 ≡ ok tt
