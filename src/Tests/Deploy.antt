-- ===== src/Tests/Deploy.antt =====
-- deploy.mjs on the demo's vendor.
use raiz_confidential_stack.Prelude.{
  ℕ, pos, codes, same_text, starts_with, trim, trim_start, is_space, true, none, some, [], ◌∷◌, ok,
  ◌≡◌, refl,
}
use mathlib.Core.Path.{sym, subst}
use raiz_confidential_stack.Values.{Value}
use raiz_confidential_stack.Shim.Codec.{big_of_text, read_big_int}
use raiz_confidential_stack.Shim.Events.Raw.{big_int}
use raiz_confidential_stack.Scripts.EnvFile.{
  Env, lookup, insert, load_env_deploy, load_lines, split_lines, match_line, split_entry,
  is_key_char, is_dot,
}
use raiz_confidential_stack.Scripts.Calls.{pure, lift, ◌>>=◌}
use raiz_confidential_stack.Scripts.Secrets.{scalars, stored, keep, ensure_keypair}
use raiz_confidential_stack.Scripts.Secrets.Stable.{PrintsBack}
use raiz_confidential_stack.Scripts.CtFlow.{Machine, outside, load_env, save_env}
use raiz_confidential_stack.Scripts.CtFlow.Deploy.{
  deploy, open_deployer, deployer_key, custodian_key, view_key,
}
use raiz_confidential_stack.Scripts.CtFlow.Contracts.{DeployTools}
use raiz_confidential_stack.Scripts.CtFlow.Deploy.Scalars.{Rereads}
use raiz_confidential_stack.Scripts.CtFlow.Deploy.Persisted.{deploy-IsPersisted, IsPersisted}
use raiz_confidential_stack.Tests.Demo.{call_of}
use raiz_confidential_stack.Tests.CtFlow.{
  vendor, toolkit, scalars-IsPrintable, keypairs-IsPrintable,
}

abbrev tools : DeployTools toolkit
tools = record {
  stellar_cli = λ _. call_of (codes "deploying\nCABC\n");
  wasm_path = λ s. s;
  read_vk = λ _. call_of (7 ∷ []);
  circuit_type = λ _. 1;
  invoke = λ _ _ _ _ _. call_of (codes "invoked");
  bytes_scval = λ _. Value.null;
  times_base = λ k. (5, 5);
  point_to_bytes = λ _. [];
}

-- The custodian's secret is in the file, the others are not.
abbrev machine : Machine ℕ (Unit {0})
machine = record {
  world = 0;
  env_file = some (codes "CT_AUDITOR0_SECRET_HEX=5\n");
  deployment = none;
  run_log = none;
}

abbrev env : Env
env = (custodian_key, codes "5") ∷ (deployer_key, codes "S1") ∷ []

opened : (open_deployer toolkit tools machine).0 ≡ ok (true, env)
unfolding open_deployer outside load_env save_env ensure_keypair stored keep lookup insert
    load_env_deploy load_lines split_lines match_line split_entry is_key_char is_dot pure lift ◌>>=◌
    starts_with same_text
opened = refl

Rereads-custodian : Rereads vendor custodian_key env
unfolding stored lookup same_text is_dot big_int big_of_text read_big_int trim trim_start is_space
    starts_with
Rereads-custodian t k found read =
    let five : big_int (codes "5") ≡ ok (pos 5) = refl in
    let same : codes "5" ≡ t = cc found in
    let number : pos 5 ≡ k = cc (subst (λ s. big_int s ≡ ok k) (sym same) read, five) in
    subst (PrintsBack (scalars vendor)) number (λ e. cc e, refl, refl)

Rereads-view : Rereads vendor view_key env
unfolding stored lookup same_text
Rereads-view t k found read = cc found

deploy-IsPersisted_example : IsPersisted toolkit tools true (deploy toolkit tools machine).1
deploy-IsPersisted_example =
    deploy-IsPersisted toolkit tools machine keypairs-IsPrintable scalars-IsPrintable opened
      Rereads-custodian Rereads-view
