-- ===== src/Tests/Prover.antt =====
-- Proofs and calls on the demo.
use raiz_confidential_stack.Shim.Events.Raw.{to_number}
use raiz_confidential_stack.Shim.Prover.Engine.Cached.{load_circuit-cached, after_proofs}
use raiz_confidential_stack.Shim.Codec.{
  dec, required, req_str, as_strkey, read_big_int, big_of_text, as_big, parse_params,
}
use raiz_confidential_stack.Shim.Prover.Output.Base64.{decode-to_base64, decode}
use raiz_confidential_stack.Shim.Prover.Output.Plain.{serialize-IsPlain, IsPlain}
use raiz_confidential_stack.Shim.Builders.Guards.{prepare_register-Answered, Answered}
use raiz_confidential_stack.Shim.Prover.Generate.{
  big_param, build_of_kind, keys_of_params, optional_big, build_witness, is_proof_free, generated,
  prove_kind, generate_of_params, generate,
}
use raiz_confidential_stack.Shim.Prover.Output.{letter, binary_string, serialize, btoa, to_base64}
use raiz_confidential_stack.Shim.Builders.{
  invocation, unsigned, build_unsigned_invoke, chain_client, Unsigned,
}
use raiz_confidential_stack.Shim.Prover.Engine.{
  cores_or_one, threads, lookup, set_backend, load_bb, get_backend, prove_witness, prove,
  fetch_circuit, init_both, ensure_noir_wasm, no_caches, exec_and_prove, outside, load_circuit,
  Platform, Session,
}
use raiz_confidential_stack.Shim.Prover.Engine.Warm.{exec_and_prove-again, IsWarm}
use raiz_confidential_stack.Shim.Prover.Generate.Kinds.{generate-eq-ok, IsProof, IsProvable}
use raiz_confidential_stack.Shim.Builders.Proving.{
  secret_and_token, register_call, register_account, register_unless, read_applicant,
  register_applicant, register_of_params, Registration, Applicant, Transfer, prepare_register,
}
use raiz_confidential_stack.Prelude.{
  List, starts_with, same_text, is_space, trim_start, trim, arith, ◌>>=◌, ℕ, pos, Text, codes, true,
  [], ◌∷◌, ok, ◌≡◌, refl,
}
use raiz_confidential_stack.Values
use raiz_confidential_stack.Values.{get_field, member, Value, Num}
use raiz_confidential_stack.Vendor.{Proof}
use raiz_confidential_stack.Tests.Demo.{demo, param, token, witness}

abbrev platform : Platform
platform = record { isolated = true; shared_memory = true; cores = 8 }

abbrev fresh : Session demo
fresh = record { world = 0; caches = no_caches demo }

abbrev proof : Proof
proof = record { bytes = 1 ∷ 2 ∷ []; public_inputs = [] }

abbrev register_json : Value
register_json = Value.obj (
    param (codes "sk") (Value.str (codes "0x5"))
      (param (codes "token") (Value.str token) Values.Fields.end))

abbrev register : Text
register = codes "register"

generate_run :
    (generate demo platform register register_json fresh).0
    ≡ ok (generated demo platform register witness proof)
unfolding generate generate_of_params prove_kind generated is_proof_free parse_params build_witness
    optional_big keys_of_params build_of_kind big_param as_big big_of_text read_big_int as_strkey
    member get_field trim trim_start is_space same_text starts_with outside exec_and_prove
    ensure_noir_wasm init_both load_circuit fetch_circuit prove prove_witness get_backend load_bb
    set_backend lookup threads cores_or_one serialize to_base64
generate_run = refl

generate-eq-ok_example :
    IsProvable register
    × IsProof demo platform register register_json fresh
        (generated demo platform register witness proof)
generate-eq-ok_example =
    generate-eq-ok demo platform register register_json fresh
      (generated demo platform register witness proof) generate_run

exec_run : (exec_and_prove demo platform register Value.null fresh).0 ≡ ok proof
unfolding outside exec_and_prove ensure_noir_wasm init_both load_circuit fetch_circuit prove
    prove_witness get_backend load_bb set_backend lookup threads cores_or_one
exec_run = refl

exec_and_prove-again_example :
    (c : Text) × (b : Text × ℕ) × IsWarm demo register c b
      (exec_and_prove demo platform register Value.null fresh).1
    × (exec_and_prove demo platform register
          (Value.bool true)
          (exec_and_prove demo platform register Value.null fresh).1
        ≡ outside demo
            (demo.execute c (Value.bool true) >>= demo.generate_proof b)
            (exec_and_prove demo platform register Value.null fresh).1)
exec_and_prove-again_example =
    exec_and_prove-again demo platform register Value.null (Value.bool true) fresh proof exec_run

-- Between the two loads a circuit of another kind is proved, and one that the vendor has no proof for.
abbrev jobs : List (Text × Value)
jobs = (codes "transfer", Value.null) ∷ (codes "withdraw", Value.null) ∷ []

load_circuit-cached_example :
    let later = after_proofs demo platform jobs (load_circuit demo register fresh).1 in
    load_circuit demo register later ≡ ((load_circuit demo register fresh).0, later)
load_circuit-cached_example = load_circuit-cached demo platform register jobs fresh

decode-to_base64_example : decode (to_base64 (77 ∷ 97 ∷ 255 ∷ 0 ∷ [])) ≡ 77 ∷ 97 ∷ 255 ∷ 0 ∷ []
decode-to_base64_example =
    decode-to_base64 (77 ∷ 97 ∷ 255 ∷ 0 ∷ [])
      (omega arith, (omega arith, (omega arith, (omega arith, tt))))

-- The letters of the four bytes are the ones that `btoa` gives.
to_base64_run : to_base64 (77 ∷ 97 ∷ 255 ∷ 0 ∷ []) ≡ codes "TWH/AA=="
unfolding to_base64 btoa binary_string letter
to_base64_run = refl

abbrev payload : Value
payload = Value.obj (
    param (codes "amount") (Value.big (pos 5))
      (param (codes "key") (Value.point 1 2) Values.Fields.end))

serialize-IsPlain_example :
    IsPlain (serialize demo payload)
    × (serialize demo (serialize demo payload) ≡ serialize demo payload)
serialize-IsPlain_example = serialize-IsPlain demo payload

abbrev call_fields : Values.Fields
call_fields = param (codes "rpcUrl") (Value.str (codes "rpc")) (
    param (codes "token") (Value.str token) (
      param (codes "verifier") (Value.str (codes "v")) (
        param (codes "auditor") (Value.str (codes "a")) (
          param (codes "account") (Value.str (codes "A")) (
            param (codes "from") (Value.str (codes "A")) (
              param (codes "to") (Value.str (codes "G")) (
                param (codes "amountStroops") (Value.str (codes "12"))
                  (param (codes "sk") (Value.str (codes "0x5")) Values.Fields.end))))))))

abbrev unsigned_call : Text → Unsigned
unsigned_call method = record {
  method = method;
  source = codes "A";
  unsigned_xdr = codes "xdr";
  fee_stroops = 100;
  latest_ledger = 95;
}

abbrev built : Transfer
built = record {
  call = unsigned_call (codes "confidential_transfer");
  amount_stroops = codes "12";
  spendable_before_stroops = codes "12";
  recipient_auditor_id = 1;
  proof_length = 2;
}

abbrev registration : Registration
registration = Registration.to_sign (unsigned_call register) (Num.whole (pos 0)) 2

register_run : (prepare_register demo platform (Value.obj call_fields) fresh).0 ≡ ok registration
unfolding prepare_register register_of_params register_applicant register_unless register_account
    register_call secret_and_token read_applicant chain_client build_unsigned_invoke unsigned
    invocation build_witness optional_big build_of_kind parse_params keys_of_params big_param as_big
    big_of_text read_big_int as_strkey req_str required dec member get_field trim trim_start
    is_space same_text starts_with to_number outside exec_and_prove ensure_noir_wasm init_both
    load_circuit fetch_circuit prove prove_witness get_backend load_bb set_backend lookup threads
    cores_or_one
register_run = refl

prepare_register-Answered_example :
    (p : Value) × (a : Applicant) × (parse_params demo (Value.obj call_fields) ≡ ok p)
    × (read_applicant p ≡ ok a)
    × Answered demo platform a fresh (prepare_register demo platform (Value.obj call_fields) fresh)
prepare_register-Answered_example =
    prepare_register-Answered demo platform (Value.obj call_fields) fresh registration register_run
