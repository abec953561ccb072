-- ===== src/Scripts/Receipt.antt =====
-- Receipts of contributions: scripts/receipt/make-receipt.mjs, lines 56-160, and verify-receipt.mjs,
-- lines 43-112, without what they print and the times. A receipt is its fields, not its JSON text.
pub mod Verified
pub mod Protocol
pub mod Located
pub mod Making
pub mod Made
use raiz_confidential_stack.Prelude.{
  inr, inl, ◌⊎◌, ℕ, ℤ, Text, codes, same_text, eqb_ℤ, Bool, not, ◌&&◌, ◌==◌, Option, none, some,
  List, [], ◌∷◌, Result, ok, err, Error, bind_result, Io, pure, lift, throw_if, ◌>>=◌, ◌>>◌,
  if◌then◌else◌,
}
use raiz_confidential_stack.Vendor.{Vendor, Client, Event, transfer}
use raiz_confidential_stack.Shim.Codec.{dec}
use raiz_confidential_stack.Shim.Events.Raw.{big_int}
use raiz_confidential_stack.Scripts.EnvFile.{Env, lookup}
use raiz_confidential_stack.Scripts.Retry.{never, retry_unless}

-- What `verifyDisclosure` finds: the account that disclosed and the amount.
pub record Found : Type 0 where
  pub account : Text
  pub amount : ℤ

-- The vendor's disclosure package, over its SDK.
pub record Disclosure (V : Vendor) : Type 1 where
  pub RecipientKeys : Type 0
  pub Request : Type 0
  pub Bundle : Type 0
  pub Prover : Type 0
  pub VerificationKey : Type 0
  -- `recipientKeysFromSecret`, `newDisclosureRequest` with its fresh nonce
  pub recipient_keys : ℤ → Result RecipientKeys
  pub new_request : RecipientKeys → Io V.World Request
  -- `deriveEphemeralRE(keys.vk, event.sigma)`, `scalarMul(r, H)`, `event.rE`
  pub ephemeral : V.Keys → V.Cipher → ℤ
  pub times_base : ℤ → V.Point
  pub ephemeral_point : V.Cipher → V.Point
  -- `buildDiscloseSenderWitness(…).vTx`
  pub preview : V.Keys → ℤ → V.Cipher → V.Point → Request → Result ℤ
  -- circuits: `enableThreadedProving`, `proverFromArtifact(loadDisclosureArtifact(id))`, `loadPinnedVk`
  pub enable_threads : Io V.World (Unit {0})
  pub make_prover : Text → Result Prover
  pub destroy : Prover → Io V.World (Unit {0})
  pub pinned_key : Text → Result VerificationKey
  pub sender_circuit : Text
  pub circuit_id : Bundle → Text
  pub prove_sender : V.Keys → ℤ → V.Cipher → V.Point → Request → Prover → Io V.World Bundle
  pub verify_disclosure :
      Client → Bundle → Request → RecipientKeys → Prover → VerificationKey → Io V.World Found
  -- `e instanceof DisclosureVerifyError`
  pub is_verify_error : Error → Bool

-- deployment.json
pub record Deployment : Type 0 where
  pub client : Client
  pub deployed_at : ℕ
  pub addr_f : ℤ
  pub network : Text

abbrev pub demo_secret : Text
demo_secret = codes "0x00b97bacce7fe9dd24cc6b347a97d71770522c49cd83453afb36ac39add50601"

abbrev pub secret_name : Text
secret_name = codes "RECEIPT_VERIFIER_SECRET_HEX"

-- `env[name] ? env[name] : other`
abbrev pub filled_or : Option Text → Text → Text
filled_or none other = other
filled_or (some []) other = other
filled_or (some (c ∷ s)) other = c ∷ s

-- `env[name] ?? other`
abbrev pub given_or : Option Text → Text → Text
given_or none other = other
given_or (some s) other = s

-- the secret that make-receipt.mjs mints its request with
unfoldable pub minting_secret : Env → Text
unfolding lookup
minting_secret env = filled_or (lookup secret_name env) demo_secret

-- `verifierSecretHex` of verify-receipt.mjs
unfoldable pub verifying_secret : Env → Text
unfolding lookup
verifying_secret env = given_or (lookup secret_name env) demo_secret

-- `env.CT_MARTA_CONF_SK`, which has to be there
unfoldable pub contributor_secret : Env → Result Text
unfolding lookup
contributor_secret env = elim (lookup (codes "CT_MARTA_CONF_SK") env) [
  | none ↦ err (Error.missing_env (codes "CT_MARTA_CONF_SK"))
  | some [] ↦ err (Error.missing_env (codes "CT_MARTA_CONF_SK"))
  | some (c ∷ s) ↦ ok (c ∷ s)
]

-- The claim in plain words, by the values that stand in it.
pub record Claim : Type 0 where
  pub contributor : Text
  pub goal : Text
  pub amount_stroops : Text

-- How verify-receipt.mjs ends where it does not throw; only `verified` exits with 0.
pub data Outcome : Type 0 where
  verified : Found → Outcome
  misclaimed : (claimed : ℤ) → Found → Outcome
  rejected : Error → Outcome

module _ (V : Vendor) (D : Disclosure V) (wait : ℕ → V.World → V.World) where
  open V use {World, Point, Cipher, Keys, coords, derive_keys, confidential_balance, fetch_events}
  open D use {
    RecipientKeys, Request, Bundle, Prover, recipient_keys, new_request, ephemeral, times_base,
    ephemeral_point, preview, enable_threads, make_prover, destroy, pinned_key, sender_circuit,
    circuit_id, prove_sender, verify_disclosure, is_verify_error,
  }

  pub record Receipt : Type 0 where
    pub network : Text
    pub token : Text
    pub claim : Claim
    pub request : Request
    pub bundle : Bundle

  -- The transfer that a receipt is about.
  pub record Sent : Type 0 where
    pub from : Text
    pub to : Text
    pub cipher : Cipher

  -- `events.find((e) => e.type === "transfer" && e.txHash === TX_HASH)`
  unfoldable pub find_transfer : Text → List (Event Cipher) → Option Sent
  find_transfer tx [] = none
  find_transfer tx (transfer at from to c ∷ events) =
      let rest = find_transfer tx events in
      if same_text at.tx_hash tx then some (record { from = from; to = to; cipher = c }) else rest
  find_transfer tx (_ ∷ events) = find_transfer tx events

  -- `rePoint.x !== evPoint.x || rePoint.y !== evPoint.y`, negated
  unfoldable pub owns_transfer : Keys → Sent → Bool
  owns_transfer keys sent =
      let mine = coords (times_base (ephemeral keys sent.cipher)) in
      let theirs = coords (ephemeral_point sent.cipher) in
      (mine.0 == theirs.0) && (mine.1 == theirs.1)

  -- lines 67-83: the request
  unfoldable pub mint_request : Env → Io World Request
  unfolding minting_secret big_int
  mint_request env =
      lift (bind_result (big_int (minting_secret env)) recipient_keys) >>= new_request

  -- lines 86-94
  unfoldable pub locate : Deployment → Text → Io World Sent
  locate dep tx = do
    (events, _) ←
        retry_unless wait never (codes "fetchEvents") 3 3000
          (fetch_events dep.client dep.deployed_at dep.client.token)
    lift (elim (find_transfer tx events) [ none ↦ err Error.no_events | some s ↦ ok s ])

  -- lines 108-111
  unfoldable pub recipient_key : Deployment → Sent → Io World Point
  recipient_key dep sent = do
    found ←
        retry_unless wait never (codes "confidentialBalance(goal)") 3 3000
          (confidential_balance dep.client sent.to)
    lift (elim found [
      | none ↦ err (Error.recipient_not_registered sent.to)
      | some a ↦ ok a.viewing_key
    ])

  -- lines 122-130: the proof
  unfoldable pub prove_bundle : Keys → Sent → Point → Request → Prover → Io World Bundle
  prove_bundle keys sent pvk_b request prover = do
    bundle ← prove_sender keys (ephemeral keys sent.cipher) sent.cipher pvk_b request prover
    _ ← destroy prover
    pure bundle

  -- lines 133-154: the shareable artifact
  abbrev pub receipt_of : Deployment → Sent → Request → ℤ → Bundle → Receipt
  receipt_of dep sent request amount bundle = record {
    network = dep.network;
    token = dep.client.token;
    claim = record { contributor = sent.from; goal = sent.to; amount_stroops = dec amount };
    request = request;
    bundle = bundle;
  }

  -- lines 115-154: the amount, the proof, the receipt
  unfoldable pub disclose : Deployment → Sent → Request → Keys → Point → Io World Receipt
  disclose dep sent request keys pvk_b =
      lift (preview keys (ephemeral keys sent.cipher) sent.cipher pvk_b request) >>= λ amount.
      enable_threads
      >> (lift (make_prover sender_circuit) >>= λ prover.
          prove_bundle keys sent pvk_b request prover >>= λ bundle.
          pure (receipt_of dep sent request amount bundle))

  -- lines 98-154
  unfoldable pub with_keys : Deployment → Sent → Request → Keys → Io World Receipt
  with_keys dep sent request keys =
      throw_if (not (owns_transfer keys sent)) Error.ephemeral_mismatch
      >> (recipient_key dep sent >>= disclose dep sent request keys)

  -- lines 86-154
  unfoldable pub with_request : Deployment → Text → Text → Request → Io World Receipt
  unfolding big_int
  with_request dep tx secret request = locate dep tx >>= λ sent.
      lift (bind_result (big_int secret) (λ sk. derive_keys sk dep.addr_f))
      >>= with_keys dep sent request

  -- `main` of make-receipt.mjs
  unfoldable pub make_receipt : Deployment → Env → Text → Io World Receipt
  unfolding contributor_secret
  make_receipt dep env tx =
      lift (contributor_secret env) >>= λ secret. mint_request env >>= with_request dep tx secret

  -- the `try`, `catch` and `finally` around the verification
  unfoldable pub settle : Prover → Result Found × World → Result (Found ⊎ Error) × World
  settle prover (ok v, w) = (destroy prover >> pure (inl v)) w
  settle prover (err e, w) =
      if is_verify_error e then (ok (inr e), w) else (destroy prover >> lift (err e)) w

  -- lines 105-111
  unfoldable pub judge : Receipt → Found ⊎ Error → Result Outcome
  unfolding big_int
  judge receipt (inr e) = ok (Outcome.rejected e)
  judge receipt (inl v) = bind_result (big_int receipt.claim.amount_stroops) λ claimed.
      ok (if eqb_ℤ claimed v.amount then Outcome.verified v else Outcome.misclaimed claimed v)

  -- the verification with its retries
  unfoldable pub run_verification :
      Deployment → Receipt → RecipientKeys → Prover → D.VerificationKey → Io World (Found ⊎ Error)
  run_verification dep receipt keys prover key w = settle prover (
      retry_unless wait is_verify_error (codes "verifyDisclosure") 3 3000
        (verify_disclosure dep.client receipt.bundle receipt.request keys prover key) w)

  -- lines 62-71
  unfoldable pub verify_bundle : Deployment → Env → Receipt → Io World (Found ⊎ Error)
  unfolding verifying_secret big_int
  verify_bundle dep env receipt = do
    keys ← lift (bind_result (big_int (verifying_secret env)) recipient_keys)
    _ ← enable_threads
    prover ← lift (make_prover (circuit_id receipt.bundle))
    key ← lift (pinned_key (circuit_id receipt.bundle))
    run_verification dep receipt keys prover key

  -- `main` of verify-receipt.mjs, behind the reading of the file
  unfoldable pub verify_receipt : Deployment → Env → Receipt → Io World Outcome
  verify_receipt dep env receipt =
      throw_if (not (same_text receipt.token dep.client.token))
        (Error.external (codes "receipt is for another token"))
      >> (verify_bundle dep env receipt >>= λ found. lift (judge receipt found))
