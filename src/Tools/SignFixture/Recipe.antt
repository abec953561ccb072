-- ===== src/Tools/SignFixture/Recipe.antt =====
-- The recipe that the header of gen-sign-fixture.mjs (lines 7-17) writes down.
use raiz_confidential_stack.Shim.Prover.Output.{to_base64}
use raiz_confidential_stack.Prelude.{
  arith, zero, suc, length-drop, ℕ, ◌-◌, Bool, true, false, same_text, same_text_iff, ◌==◌, ==_iff,
  List, [], ◌∷◌, ◌++◌, length, take, drop, take-append-drop, Result, ok, ok_injective, bind_result,
  ◌≡◌, refl, sym, ap, ◌∙◌, Text,
}
use mathlib.Core.Path.{subst}
use raiz_confidential_stack.Tools.SignFixture.{
  SigningSdk, Fixture, to_hex, printed, assert, eq, subarray, signed_manual, payload_of,
  sign_envelope, fixture,
}

-- Bytes that start with the type 2 when four zeros are put behind them.
starts_with_type :
    (t : List ℕ)
    → take 4 (t ++ (0 ∷ 0 ∷ 0 ∷ 0 ∷ [])) ≡ 0 ∷ 0 ∷ 0 ∷ 2 ∷ []
    → (tx : List ℕ) × (t ≡ (0 ∷ 0 ∷ 0 ∷ 2 ∷ []) ++ tx)
starts_with_type [] h = cc h
starts_with_type (a ∷ []) h = cc h
starts_with_type (a ∷ b ∷ []) h = cc h
starts_with_type (a ∷ b ∷ c ∷ []) h = cc h
starts_with_type (a ∷ b ∷ c ∷ d ∷ tx) h = (tx, cc h)

-- Bytes that start with the type 2 and end with four zeros have a part between the two.
between :
    (env : List ℕ)
    → take 4 env ≡ 0 ∷ 0 ∷ 0 ∷ 2 ∷ []
    → drop (length env - 4) env ≡ 0 ∷ 0 ∷ 0 ∷ 0 ∷ []
    → (tx : List ℕ) × (env ≡ (0 ∷ 0 ∷ 0 ∷ 2 ∷ []) ++ tx ++ (0 ∷ 0 ∷ 0 ∷ 0 ∷ []))
      × (take (length env - 4) env ≡ (0 ∷ 0 ∷ 0 ∷ 2 ∷ []) ++ tx)
between env h k =
    let t = take (length env - 4) env in
    let whole : env ≡ t ++ (0 ∷ 0 ∷ 0 ∷ 0 ∷ []) =
      sym (take-append-drop (length env - 4) env) ∙ ap (λ r. t ++ r) k in
    let (tx, e) = starts_with_type t (ap (take 4) (sym whole) ∙ h) in
    (tx, whole ∙ ap (λ r. r ++ (0 ∷ 0 ∷ 0 ∷ 0 ∷ [])) e, e)

-- The recipe for the bytes `tx` of a transaction, of what is printed: the envelope that it names is
-- the transaction between its type and no signatures; the hash is that of the network's id, the type
-- and the transaction; and the signed envelope is the transaction with one signature, the keypair's of
-- that hash, behind the last four bytes of the public key.
pub record IsRecipe (S : SigningSdk) (f : Fixture) (tx : List ℕ) : Type 0 where
  pub network_id : List ℕ
  pub hash : List ℕ
  pub hint : List ℕ
  pub signature : List ℕ
  pub network_said : f.network_id_hex ≡ to_hex network_id
  pub network_hashed : network_id ≡ S.sha256 (S.utf8 f.network_passphrase)
  pub envelope :
      S.from_base64 f.unsigned_xdr_base64 ≡ (0 ∷ 0 ∷ 0 ∷ 2 ∷ []) ++ tx ++ (0 ∷ 0 ∷ 0 ∷ 0 ∷ [])
  pub hash_said : f.tx_hash_hex ≡ to_hex hash
  pub hashed : hash ≡ S.sha256 (network_id ++ ((0 ∷ 0 ∷ 0 ∷ 2 ∷ []) ++ tx))
  pub hash_as_sdk : hash ≡ S.tx_hash
  pub key : List ℕ
  pub key_said : f.public_key_hex ≡ to_hex (key ++ hint)
  pub key_split : S.raw_public_key ≡ key ++ hint
  pub hint_as_sdk : hint ≡ S.signature_hint
  pub signed_by_key : signature ≡ S.sign hash
  pub signature_size : length signature ≡ 64
  pub signed :
      f.signed_xdr_base64
      ≡ to_base64 (
          ((0 ∷ 0 ∷ 0 ∷ 2 ∷ []) ++ tx)
          ++ (0 ∷ 0 ∷ 0 ∷ 1 ∷ [])
          ++ hint
          ++ (0 ∷ 0 ∷ 0 ∷ 0x40 ∷ [])
          ++ signature)
  pub signed_as_sdk : f.signed_xdr_base64 ≡ S.signed_xdr
  pub account_as_sdk : f.account_id ≡ S.public_key

take_whole : (n : ℕ) (l : List ℕ) → length l ≡ n → take n l ≡ l
take_whole zero [] h = refl
take_whole (suc n) [] h = absurd (omega (arith, h))
take_whole zero (b ∷ l) h = absurd (omega (arith, h))
take_whole (suc n) (b ∷ l) h = ap (λ r. b ∷ r) (take_whole n l (omega (arith, h)))

-- The 28 bytes and the four of a public key.
last_four : (l : List ℕ) → length l ≡ 32 → l ≡ take 28 l ++ subarray 28 32 l
last_four l h =
    sym (take-append-drop 28 l)
    ∙ ap (λ r. take 28 l ++ r) (sym (take_whole 4 (drop 28 l) (rw (length-drop 28 l, h) refl)))

-- Three assertions in a row, and what comes after them.
three_asserts :
    {B : Type 0} (p q r : Bool) (m n o : Text) (rest : Result B) {b : B}
    → bind_result
        (assert p m)
        (λ _. bind_result (assert q n) (λ _. bind_result (assert r o) (λ _. rest)))
      ≡ ok b
    → (p ≡ true) × (q ≡ true) × (r ≡ true) × (rest ≡ ok b)
three_asserts true true true m n o rest h = (refl, refl, refl, h)
three_asserts false q r m n o rest h = cc h
three_asserts true false r m n o rest h = cc h
three_asserts true true false m n o rest h = cc h

module _ (S : SigningSdk) where
  open S use {
    sha256, utf8, from_base64, testnet, unsigned_xdr, signed_xdr, tx_hash, raw_public_key,
    signature_hint, sign,
  }

  -- What `sign_envelope` checks and returns.
  sign_envelope-inv :
      (env network_id hash : List ℕ) (f : Fixture)
      → sign_envelope S env network_id hash ≡ ok f
      → ((length (sign hash) == 64) ≡ true)
        × (eq (subarray 28 32 raw_public_key) signature_hint ≡ true)
        × (same_text
              (to_base64 (signed_manual env (subarray 28 32 raw_public_key) (sign hash)))
              signed_xdr
            ≡ true)
        × (ok (printed S network_id hash) ≡ ok f)
  unfolding sign_envelope
  sign_envelope-inv env network_id hash f h =
      three_asserts (length (sign hash) == 64) (eq (subarray 28 32 raw_public_key) signature_hint)
        (same_text (to_base64 (signed_manual env (subarray 28 32 raw_public_key) (sign hash)))
          signed_xdr)
        _ _ _ _ h

  -- Where the keypair's public key has 32 bytes, what the script prints after its assertions is the
  -- recipe of its header: some bytes of a transaction stand in the unsigned envelope; the network's
  -- id, the hash and the public key are printed in hexadecimal; the hash is the SDK's; and the SDK's
  -- signed envelope is the base64 text of the recipe's bytes, with a signature of 64 bytes of that
  -- hash and, as its hint, the last four bytes of the public key.
  pub fixture-IsRecipe :
      (f : Fixture)
      → length raw_public_key ≡ 32
      → fixture S ≡ ok f
      → (tx : List ℕ) × IsRecipe S f tx
  unfolding fixture payload_of signed_manual printed
  fixture-IsRecipe f key_size h =
      let env = from_base64 unsigned_xdr in
      let network_id = sha256 (utf8 testnet) in
      let payload = network_id ++ take (length env - 4) env in
      let (starts, ends, hash, h') =
        three_asserts (eq (subarray 0 4 env) (0 ∷ 0 ∷ 0 ∷ 2 ∷ []))
          (eq (drop (length env - 4) env) (0 ∷ 0 ∷ 0 ∷ 0 ∷ [])) (eq (sha256 payload) tx_hash) _ _ _
          _ h in
      let (size, hint, as_sdk, same) = sign_envelope-inv _ _ _ f h' in
      let (tx, e, t) = between env ((same_text_iff _ _).0 starts) ((same_text_iff _ _).0 ends) in
      let split = last_four raw_public_key key_size in
      (
        tx,
        subst (λ f. IsRecipe S f tx) (ok_injective same)
            (record {
              network_id = network_id;
              hash = sha256 payload;
              hint = subarray 28 32 raw_public_key;
              signature = sign (sha256 payload);
              network_said = refl;
              network_hashed = refl;
              envelope = e;
              hash_said = refl;
              hashed = ap (λ r. sha256 (network_id ++ r)) t;
              hash_as_sdk = (same_text_iff _ _).0 hash;
              key = take 28 raw_public_key;
              key_said = ap to_hex split;
              key_split = split;
              hint_as_sdk = (same_text_iff _ _).0 hint;
              signed_by_key = refl;
              signature_size = (==_iff _ _).0 size;
              signed =
                  sym ((same_text_iff _ _).0 as_sdk)
                  ∙ ap
                      (λ r. to_base64 (
                        r
                        ++ (0 ∷ 0 ∷ 0 ∷ 1 ∷ [])
                        ++ subarray 28 32 raw_public_key
                        ++ (0 ∷ 0 ∷ 0 ∷ 0x40 ∷ [])
                        ++ sign (sha256 payload)))
                      t;
              signed_as_sdk = refl;
              account_as_sdk = refl;
            }),
      )
