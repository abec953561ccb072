-- ===== src/Tools/SignFixture.antt =====
-- The signing recipe on bytes: wallet/tools/gen-sign-fixture.mjs, lines 41-102. The Stellar SDK's transaction and
-- keypair are what they answer.
pub mod Recipe
use raiz_confidential_stack.Prelude.{
  ℕ, ◌+◌, ◌-◌, ◌/◌, ◌%◌, ltb, if◌then◌else◌, replicate, Text, codes, same_text, Bool, true, false,
  ◌==◌, List, [], ◌∷◌, ◌++◌, length, take, drop, Result, ok, err, Error, bind_result,
}
use raiz_confidential_stack.Shim.Prover.Output.{to_base64}

-- What the script takes from the SDK and from Node, for its one transaction and its one seed.
pub record SigningSdk : Type 0 where
  pub sha256 : List ℕ → List ℕ
  -- `Buffer.from(text, "utf8")` and `Buffer.from(text, "base64")`
  pub utf8 : Text → List ℕ
  pub from_base64 : Text → List ℕ
  -- `Networks.TESTNET`, `tx.toXDR()` before `tx.sign(kp)` and after, `tx.hash()`
  pub testnet : Text
  pub unsigned_xdr : Text
  pub signed_xdr : Text
  pub tx_hash : List ℕ
  -- `kp.publicKey()`, `kp.rawPublicKey()`, `kp.signatureHint()`, `kp.sign`
  pub public_key : Text
  pub raw_public_key : List ℕ
  pub signature_hint : List ℕ
  pub sign : List ℕ → List ℕ

-- `assert(cond, msg)`
abbrev pub assert : Bool → Text → Result (Unit {0})
assert true msg = ok tt
assert false msg = err (Error.assertion_failed msg)

-- `eq(a, b)`
abbrev pub eq : List ℕ → List ℕ → Bool
eq a b = same_text a b

-- `b.subarray(from, to)`, for offsets within the bytes
abbrev pub subarray : ℕ → ℕ → List ℕ → List ℕ
subarray from to b = take (to - from) (drop from b)

-- The digit of four bits.
unfoldable pub hex_digit : ℕ → ℕ
hex_digit n = if ltb n 10 then b'0' + n else b'a' + (n - 10)

-- `b.toString("hex")`
unfoldable pub to_hex : List ℕ → Text
unfolding hex_digit
to_hex [] = []
to_hex (b ∷ bytes) = hex_digit (b / 16) ∷ hex_digit (b % 16) ∷ to_hex bytes

-- The JSON object that is printed.
pub record Fixture : Type 0 where
  pub seed_hex : Text
  pub public_key_hex : Text
  pub account_id : Text
  pub network_passphrase : Text
  pub network_id_hex : Text
  pub unsigned_xdr_base64 : Text
  pub tx_hash_hex : Text
  pub signed_xdr_base64 : Text

-- `Buffer.alloc(32, 0x42)`
abbrev pub seed : List ℕ
seed = replicate 32 0x42

-- `Buffer.concat([env.subarray(0, env.length - 4), count, hint, length, sig])`
unfoldable pub signed_manual : List ℕ → List ℕ → List ℕ → List ℕ
signed_manual env hint sig =
    take (length env - 4) env ++ (0 ∷ 0 ∷ 0 ∷ 1 ∷ []) ++ hint ++ (0 ∷ 0 ∷ 0 ∷ 0x40 ∷ []) ++ sig

-- `Buffer.concat([networkId, env.subarray(0, env.length - 4)])`
unfoldable pub payload_of : List ℕ → List ℕ → List ℕ
payload_of network_id env = network_id ++ take (length env - 4) env

module _ (S : SigningSdk) where
  open S use {
    sha256, utf8, from_base64, testnet, unsigned_xdr, signed_xdr, tx_hash, public_key,
    raw_public_key, signature_hint, sign,
  }

  -- the object, of the network's id and the hash of the transaction
  unfoldable pub printed : List ℕ → List ℕ → Fixture
  unfolding to_hex
  printed network_id hash = record {
    seed_hex = to_hex seed;
    public_key_hex = to_hex raw_public_key;
    account_id = public_key;
    network_passphrase = testnet;
    network_id_hex = to_hex network_id;
    unsigned_xdr_base64 = unsigned_xdr;
    tx_hash_hex = to_hex hash;
    signed_xdr_base64 = signed_xdr;
  }

  -- the last two steps: the signature, and the envelope with it
  unfoldable pub sign_envelope : List ℕ → List ℕ → List ℕ → Result Fixture
  unfolding signed_manual printed
  sign_envelope env network_id hash =
      let sig = sign hash in
      let hint = subarray 28 32 raw_public_key in
      bind_result (assert (length sig == 64) (codes "ed25519 signature is 64 bytes")) λ _.
        bind_result
          (assert (eq hint signature_hint) (codes "hint = last 4 bytes of raw public key"))
          λ _.
            bind_result
              (assert (same_text (to_base64 (signed_manual env hint sig)) signed_xdr)
                (codes "manual signed envelope == SDK signed envelope"))
              λ _. ok (printed network_id hash)

  -- the whole script
  unfoldable pub fixture : Result Fixture
  unfolding payload_of sign_envelope
  fixture =
      let env = from_base64 unsigned_xdr in
      let network_id = sha256 (utf8 testnet) in
      let hash = sha256 (payload_of network_id env) in
      bind_result
        (assert (eq (subarray 0 4 env) (0 ∷ 0 ∷ 0 ∷ 2 ∷ []))
          (codes "envelope starts with ENVELOPE_TYPE_TX=2"))
        λ _.
          bind_result
            (assert (eq (drop (length env - 4) env) (0 ∷ 0 ∷ 0 ∷ 0 ∷ []))
              (codes "unsigned envelope ends with 0 signatures"))
            λ _.
              bind_result
                (assert (eq hash tx_hash) (codes "manual signature-base hash == tx.hash()"))
                λ _. sign_envelope env network_id hash
