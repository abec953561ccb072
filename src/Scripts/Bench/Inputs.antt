-- ===== src/Scripts/Bench/Inputs.antt =====
-- Synthetic inputs of the three circuits: scripts/prover-bench/src/witness-inputs.mjs. `addressToField` of the fixed
-- token is asked for by every builder, where the source asks once.
use raiz_confidential_stack.Prelude.{
  pos, Text, codes, same_text, none, err, Error, Io, bind_result, if◌then◌else◌,
}
use raiz_confidential_stack.Values.{Value}
use raiz_confidential_stack.Vendor.{Vendor}
use raiz_confidential_stack.Shim.Prover.Generate.{token_strkey}
use raiz_confidential_stack.Scripts.Calls.{pure, lift, ◌>>=◌}
use raiz_confidential_stack.Scripts.Bench.{BenchTools}

module _ (V : Vendor) (B : BenchTools V) where
  open V use {
    World, Point, Keys, derive_keys, address_to_field, random_scalar, register_witness,
    withdraw_witness, transfer_witness,
  }
  open B use {times_generator, viewing_key}

  -- `syntheticAuditorKey()`
  unfoldable pub synthetic_auditor_key : Io World Point
  synthetic_auditor_key = do k ← random_scalar; pure (times_generator k)

  -- `deriveKeys(randomScalar(), addrF)`
  unfoldable pub synthetic_keys : Io World Keys
  synthetic_keys = do
    k ← random_scalar
    lift (bind_result (address_to_field token_strkey) (λ addr_f. derive_keys k addr_f))

  -- `registerInputs()`
  unfoldable pub register_inputs : Io World Value
  unfolding synthetic_keys
  register_inputs = do keys ← synthetic_keys; w ← register_witness keys; pure w.inputs

  -- `withdrawInputs()`
  unfoldable pub withdraw_inputs : Io World Value
  unfolding synthetic_keys synthetic_auditor_key
  withdraw_inputs = do
    keys ← synthetic_keys
    aud ← synthetic_auditor_key
    w ← withdraw_witness keys (pos 1000) (pos 0) (pos 400) aud none none
    pure w.inputs

  -- `transferInputs()`
  unfoldable pub transfer_inputs : Io World Value
  unfolding synthetic_keys synthetic_auditor_key
  transfer_inputs = do
    sender ← synthetic_keys
    recipient ← synthetic_keys
    aud_r ← synthetic_auditor_key
    aud_s ← synthetic_auditor_key
    w ←
        transfer_witness sender (pos 1000) (pos 0) (pos 250) (viewing_key recipient) aud_r aud_s
          none none
    pure w.inputs

  -- `INPUT_BUILDERS[name]()`
  unfoldable pub input_builders : Text → Io World Value
  unfolding register_inputs withdraw_inputs transfer_inputs
  input_builders name =
      if same_text name (codes "register")
      then register_inputs
      else if same_text name (codes "withdraw")
      then withdraw_inputs
      else if same_text name (codes "transfer")
      then transfer_inputs
      else lift (err Error.type_error)
