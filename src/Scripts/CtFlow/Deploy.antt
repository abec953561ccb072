-- ===== src/Scripts/CtFlow/Deploy.antt =====
-- Deployment of an instance of our own: scripts/ct-flow/deploy.mjs, lines 41-179, without what it prints.
-- deployment.json is its fields, and not its JSON text.
pub mod Scalars
pub mod Deployed
pub mod Persisted
use raiz_confidential_stack.Prelude.{ℕ, ℤ, pos, Text, codes, none, some, List, [], ◌∷◌, ◌++◌, Io}
use raiz_confidential_stack.Values.{Num}
use raiz_confidential_stack.Vendor.{Vendor}
use raiz_confidential_stack.Shim.Codec.{dec}
use raiz_confidential_stack.Shim.Events.Raw.{big_int}
use raiz_confidential_stack.Scripts.Calls.{pure, lift, ◌>>=◌, ◌>>◌}
use raiz_confidential_stack.Scripts.EnvFile.{Env, insert}
use raiz_confidential_stack.Scripts.Retry.{retry_shared}
use raiz_confidential_stack.Scripts.Secrets.{stored, ensure_keypair}
use raiz_confidential_stack.Scripts.CtFlow.{
  Toolkit, DeploymentJson, AuditorKey, Machine, rpc_url, passphrase, xlm_sac, explorer_contract,
  friendbot_fund, keypairs, outside, load_env, save_env, save_deployment_json,
}
use raiz_confidential_stack.Scripts.CtFlow.Contracts.{
  DeployTools, vk_files, Contracts, deploy_contracts, client_for, register_vks,
}

abbrev pub deployer_key : Text
deployer_key = codes "CT_DEPLOYER_SECRET"

abbrev pub custodian_key : Text
custodian_key = codes "CT_AUDITOR0_SECRET_HEX"

abbrev pub view_key : Text
view_key = codes "CT_GOAL_VIEWKEY_SECRET_HEX"

module _ {V : Vendor} (T : Toolkit V) (D : DeployTools T) where
  open V use {World, coords, to_hex32, random_scalar, address_to_field, u32_scval, address_scval}
  open T use {Keypair, Signer, wait, secret, public_key, keypair_signer}
  open D use {invoke, bytes_scval, times_base, point_to_bytes}

  -- `env[envKey] ? BigInt(env[envKey]) : randomScalar()`
  unfoldable pub auditor_scalar : Text → Env → Io World ℤ
  unfolding stored
  auditor_scalar key env = elim (stored key env) [
    | some t ↦ lift (big_int t)
    | none ↦ random_scalar
  ]

  -- the entry of `auditorKeys`
  unfoldable pub auditor_entry : ℕ → Text → ℤ → AuditorKey
  auditor_entry id label k = record {
    id = id;
    label = label;
    key_x_hex = to_hex32 (pos (coords (times_base k)).0);
    key_y_hex = to_hex32 (pos (coords (times_base k)).1);
  }

  -- the call that registers the key of an auditor
  unfoldable pub submit_auditor_key : Contracts → Keypair → Signer → ℕ → ℤ → Io World Text
  submit_auditor_key c deployer signer id k = do
    number ← lift (u32_scval (Num.whole (pos id)))
    admin ← lift (address_scval (public_key deployer))
    retry_shared wait (codes "register auditor key " ++ dec (pos id)) (
        invoke (client_for T D c) c.auditor (codes "register_key")
          (number ∷ bytes_scval (point_to_bytes (times_base k)) ∷ admin ∷ []) signer)

  -- the body of the loop of step 5: the secret is saved before its key is registered
  unfoldable pub register_auditor :
      {R : Type 0}
      → Contracts
      → Keypair
      → Signer
      → ℕ
      → Text
      → Text
      → Env
      → Io (Machine World R) (AuditorKey × Env)
  unfolding auditor_scalar submit_auditor_key
  register_auditor c deployer signer id key label env = do
    k ← outside (auditor_scalar key env)
    _ ← save_env (insert key (to_hex32 k) env)
    _ ← outside (submit_auditor_key c deployer signer id k)
    pure (auditor_entry id label k, insert key (to_hex32 k) env)

  -- the public record
  abbrev pub record_of : Keypair → Contracts → ℤ → List AuditorKey → DeploymentJson
  record_of deployer c addr_f keys = record {
    network = codes "testnet";
    rpc = rpc_url;
    network_passphrase = passphrase;
    deployed_at_ledger = c.deployed_at;
    deployer = public_key deployer;
    token = c.token;
    verifier = c.verifier;
    auditor = c.auditor;
    underlying = xlm_sac;
    addr_f = to_hex32 addr_f;
    auditor_keys = keys;
    explorer_token = explorer_contract c.token;
    explorer_verifier = explorer_contract c.verifier;
    explorer_auditor = explorer_contract c.auditor;
  }

  -- steps 5 and 6: the two auditors, and the record
  unfoldable pub register_auditors :
      {R : Type 0} → Contracts → Keypair → Signer → Env → Io (Machine World R) (Unit {0})
  unfolding register_auditor
  register_auditors c deployer signer env = do
    (key0, env0) ←
        register_auditor c deployer signer 0 custodian_key (codes "custodian (private)") env
    (key1, env1) ←
        register_auditor c deployer signer 1 view_key (codes "goal view key (to be published)") env0
    addr_f ← lift (address_to_field c.token)
    save_deployment_json (record_of deployer c addr_f (key0 ∷ key1 ∷ []))

  -- step 1: the deployer, whose secret is saved before any call of the network
  unfoldable pub open_deployer : {R : Type 0} → Io (Machine World R) (Keypair × Env)
  open_deployer = do
    env ← load_env
    (deployer, env1) ← outside (ensure_keypair (keypairs T) deployer_key env)
    _ ← save_env env1
    pure (deployer, env1)

  -- steps 2 to 6
  unfoldable pub with_deployer : {R : Type 0} → Keypair × Env → Io (Machine World R) (Unit {0})
  unfolding deploy_contracts register_vks register_auditors
  with_deployer (deployer, env) = do
    _ ← outside (friendbot_fund T (public_key deployer))
    c ← outside (deploy_contracts T D deployer)
    signer ← lift (keypair_signer (secret deployer) passphrase)
    _ ← outside (register_vks T D c deployer signer vk_files)
    register_auditors c deployer signer env

  -- `main()` of deploy.mjs
  unfoldable pub deploy : {R : Type 0} → Io (Machine World R) (Unit {0})
  unfolding open_deployer with_deployer
  deploy = open_deployer >>= with_deployer
