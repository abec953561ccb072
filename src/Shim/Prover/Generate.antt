-- ===== src/Shim/Prover/Generate.antt =====
-- Witnesses by kind and the two entry points of the prover, raiz-shim.js lines 240-271 and 300-347,
-- without the times that they took.
pub mod Kinds
use raiz_confidential_stack.Prelude.{
  ℕ, ℤ, Text, codes, same_text, Bool, true, ◌||◌, Option, none, some, List, Result, ok, Error,
  bind_result, Io, pure, lift, throw, ◌>>=◌, ◌>>◌, length, if◌then◌else◌,
}
use raiz_confidential_stack.Values
use raiz_confidential_stack.Values.{Value, member, is_nullish}
use raiz_confidential_stack.Vendor.{Vendor, Proof, Witness}
use raiz_confidential_stack.Shim.Codec.{as_big, as_strkey, as_point, parse_params}
use raiz_confidential_stack.Shim.Prover.Output.{serialize, to_base64}
use raiz_confidential_stack.Shim.Prover.Engine.{Platform, threads, Session, outside, exec_and_prove}

-- The result of `generate`.
pub record Generated : Type 0 where
  pub kind : Text
  pub proof_base64 : Text
  pub proof_length : ℕ
  pub public_inputs : List Text
  pub payload : Value
  pub next : Option Value
  pub thread_count : ℕ

-- The result of `selftest`, without what it says of the platform.
pub record Tested : Type 0 where
  pub succeeded : Bool
  pub circuit : Text
  pub thread_count : ℕ
  pub proof_length : ℕ
  pub public_input_count : ℕ

abbrev pub token_strkey : Text
token_strkey = codes "CBF64DEOVQAXJFBSNGFEUT2AH4H7K5JBY3ZYJ5GVEINMNSDISWRG5N3F"

-- `PROOF_FREE.has(kind)`
unfoldable pub is_proof_free : Text → Bool
is_proof_free kind = same_text kind (codes "deposit") || same_text kind (codes "merge")

-- `asBig(p[name], name)`
unfoldable pub big_param : Value → Text → Result ℤ
big_param p name = bind_result (member p name) λ v. as_big v name

-- `if (p[name] != null) opt[name] = asBig(p[name], name)`
unfoldable pub optional_big : Value → Text → Result (Option ℤ)
optional_big p name =
    bind_result (member p name)
      λ v. if is_nullish v then ok none else bind_result (as_big v name) λ n. ok (some n)

module _ (V : Vendor) where
  open V use {
    World, Point, Keys, derive_keys, address_to_field, to_hex32, register_witness, withdraw_witness,
    transfer_witness, random_scalar,
  }

  unfoldable pub point_param : Value → Text → Result Point
  point_param p name = bind_result (member p name) λ v. as_point V v name

  -- `deriveKeys(asBig(p.sk, "sk"), addressToField(asStrkey(p.token, "token")))`
  unfoldable pub keys_of_params : Value → Result Keys
  unfolding big_param
  keys_of_params p = bind_result (big_param p (codes "sk")) λ sk.
      bind_result (member p (codes "token")) λ v.
        bind_result (as_strkey v (codes "token"))
          λ token. bind_result (address_to_field token) λ field. derive_keys sk field

  -- `switch (kind)`, the case "withdraw"
  unfoldable pub build_withdraw : Keys → Option ℤ → Option ℤ → Value → Io World Witness
  unfolding big_param point_param
  build_withdraw keys sigma re p = do
    v ← lift (big_param p (codes "v"))
    r ← lift (big_param p (codes "r"))
    amount ← lift (big_param p (codes "amount"))
    aud_s ← lift (point_param p (codes "kAudS"))
    withdraw_witness keys v r amount aud_s sigma re

  -- the case "transfer"
  unfoldable pub build_transfer : Keys → Option ℤ → Option ℤ → Value → Io World Witness
  unfolding big_param point_param
  build_transfer keys sigma re p = do
    v ← lift (big_param p (codes "v"))
    r ← lift (big_param p (codes "r"))
    amount ← lift (big_param p (codes "amount"))
    pvk_b ← lift (point_param p (codes "pvkB"))
    aud_r ← lift (point_param p (codes "kAudR"))
    aud_s ← lift (point_param p (codes "kAudS"))
    transfer_witness keys v r amount pvk_b aud_r aud_s sigma re

  unfoldable pub build_of_kind : Text → Keys → Option ℤ → Option ℤ → Value → Io World Witness
  build_of_kind kind keys sigma re p =
      if same_text kind (codes "register")
      then register_witness keys
      else if same_text kind (codes "withdraw")
      then build_withdraw keys sigma re p
      else if same_text kind (codes "transfer")
      then build_transfer keys sigma re p
      else throw (Error.unknown_kind kind)

  -- `buildWitness(kind, p)`
  unfoldable pub build_witness : Text → Value → Io World Witness
  unfolding optional_big keys_of_params build_of_kind
  build_witness kind p = do
    keys ← lift (keys_of_params p)
    sigma ← lift (optional_big p (codes "sigma"))
    re ← lift (optional_big p (codes "rE"))
    build_of_kind kind keys sigma re p

  module _ (platform : Platform) where
    unfoldable pub generated : Text → Witness → Proof → Generated
    generated kind w proof = record {
      kind = kind;
      proof_base64 = to_base64 proof.bytes;
      proof_length = length proof.bytes;
      public_inputs = proof.public_inputs;
      payload = serialize V w.payload;
      next = elim w.next [ none ↦ none | some n ↦ some (serialize V n) ];
      thread_count = threads platform;
    }

    -- the proof for a witness, and the result
    unfoldable pub prove_kind : Text → Witness → Io (Session V) Generated
    unfolding generated
    prove_kind kind w =
        exec_and_prove V platform kind w.inputs >>= λ proof. pure (generated kind w proof)

    unfoldable pub generate_of_params : Text → Value → Io (Session V) Generated
    generate_of_params kind p = outside V (build_witness kind p) >>= prove_kind kind

    -- `generate(kind, inputsJson)`
    unfoldable pub generate : Text → Value → Io (Session V) Generated
    unfolding is_proof_free
    generate kind json =
        if is_proof_free kind
        then throw (Error.no_proof_needed kind)
        else (lift (parse_params V json) >>= generate_of_params kind)

    -- `selftest()`
    unfoldable pub selftest : Io (Session V) Tested
    selftest = do
      sk ← outside V random_scalar
      g ← generate (codes "register") (
          Value.obj (
            Values.Fields.field (codes "sk") (Value.str (to_hex32 sk))
              (Values.Fields.field (codes "token") (Value.str token_strkey) Values.Fields.end)))
      pure (record {
        succeeded = true;
        circuit = codes "register";
        thread_count = g.thread_count;
        proof_length = g.proof_length;
        public_input_count = length g.public_inputs;
      })
