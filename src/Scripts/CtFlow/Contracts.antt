-- ===== src/Scripts/CtFlow/Contracts.antt =====
-- The contracts of a deployment and their verification keys: scripts/ct-flow/deploy.mjs, lines 41-132.
use raiz_confidential_stack.Prelude.{
  ℕ, ℤ, pos, Text, codes, Option, none, some, List, [], ◌∷◌, ◌++◌, Result, ok, err, Error, Io, trim,
  is_space, starts_with, if◌then◌else◌,
}
use raiz_confidential_stack.Values.{Num}
use raiz_confidential_stack.Vendor.{Vendor, Client}
use raiz_confidential_stack.Scripts.Calls.{pure, lift, ◌>>=◌}
use raiz_confidential_stack.Scripts.Retry.{retry_shared}
use raiz_confidential_stack.Scripts.CtFlow.{Toolkit, rpc_url, passphrase, xlm_sac}

-- What deploy.mjs takes from outside beside the toolkit.
pub record DeployTools {V : Vendor} (T : Toolkit V) : Type 0 where
  -- the Stellar CLI by its arguments: what it prints, an error if it fails
  pub stellar_cli : List Text → Io V.World Text
  -- the vendor's binaries: the path of a contract, the bytes of a verification key, its circuit's number
  pub wasm_path : Text → Text
  pub read_vk : Text → Io V.World (List ℕ)
  pub circuit_type : Text → ℕ
  -- `client.invoke(contract, method, args, signer)`, by the hash of the transaction
  pub invoke : Client → Text → Text → List V.ScVal → T.Signer → Io V.World Text
  pub bytes_scval : List ℕ → V.ScVal
  -- `scalarMul(k, H)` and `pointToBytes`
  pub times_base : ℤ → V.Point
  pub point_to_bytes : V.Point → List ℕ

-- `out.split(/\s+/).filter(Boolean)`, with the word that stands so far
unfoldable pub words_from : Text → Text → List Text
words_from [] [] = []
words_from [] (c ∷ word) = (c ∷ word) ∷ []
words_from (c ∷ s) [] = if is_space c then words_from s [] else words_from s (c ∷ [])
words_from (c ∷ s) (d ∷ word) =
    let rest = words_from s [] in
    let longer = words_from s ((d ∷ word) ++ c ∷ []) in
    if is_space c then (d ∷ word) ∷ rest else longer

-- `.pop()`
unfoldable pub last_word : List Text → Option Text
last_word [] = none
last_word (w ∷ []) = some w
last_word (w ∷ v ∷ ws) = last_word (v ∷ ws)

-- the id of the contract, the last word of what the CLI prints, which has to start with a C
unfoldable pub contract_id : Text → Result Text
unfolding words_from last_word
contract_id out = elim (last_word (words_from out [])) [
  | none ↦ err (Error.unexpected_output out)
  | some id ↦ if starts_with id (codes "C") then ok id else err (Error.unexpected_output out)
]

-- `VK_FILES`, by their names
abbrev pub vk_files : List Text
vk_files =
    codes "register"
    ∷ codes "withdraw"
    ∷ codes "transfer"
    ∷ codes "spender_transfer"
    ∷ codes "set_spender"
    ∷ codes "revoke_spender"
    ∷ []

-- What step 3 leaves.
pub record Contracts : Type 0 where
  pub token : Text
  pub verifier : Text
  pub auditor : Text
  pub deployed_at : ℕ

module _ {V : Vendor} (T : Toolkit V) (D : DeployTools T) where
  open V use {World, ScVal, Point, latest_ledger, u32_scval, address_scval}
  open T use {Keypair, Signer, wait, secret, public_key}
  open D use {
    stellar_cli, wasm_path, read_vk, circuit_type, invoke, bytes_scval, times_base, point_to_bytes,
  }

  -- `deployContract(secret, wasmPath, ctorArgs)`
  unfoldable pub deploy_contract : Text → Text → List Text → Io World Text
  unfolding contract_id
  deploy_contract secret_key wasm ctor_args = do
    out ← stellar_cli (
        codes "contract"
        ∷ codes "deploy"
        ∷ codes "--wasm"
        ∷ wasm
        ∷ codes "--source-account"
        ∷ secret_key
        ∷ codes "--rpc-url"
        ∷ rpc_url
        ∷ codes "--network-passphrase"
        ∷ passphrase
        ∷ codes "--"
        ∷ ctor_args)
    lift (contract_id (trim out))

  -- `client` of line 99, with the token's id once there is one
  abbrev pub client_with : Text → Text → Text → Client
  client_with token verifier auditor = record {
    rpc_url = rpc_url;
    passphrase = passphrase;
    token = token;
    verifier = verifier;
    auditor = auditor;
  }

  -- verifier, auditor and token
  unfoldable pub deploy_contracts : Keypair → Io World Contracts
  unfolding deploy_contract
  deploy_contracts deployer = do
    verifier ← retry_shared wait (codes "deploy verifier") (
        deploy_contract (secret deployer) (wasm_path (codes "verifier"))
          (codes "--admin" ∷ public_key deployer ∷ codes "--manager" ∷ public_key deployer ∷ []))
    auditor ← retry_shared wait (codes "deploy auditor") (
        deploy_contract (secret deployer) (wasm_path (codes "auditor"))
          (codes "--admin" ∷ public_key deployer ∷ codes "--manager" ∷ public_key deployer ∷ []))
    deployed_at ←
        retry_shared wait (codes "latestLedger") (latest_ledger (client_with [] verifier auditor))
    token ← retry_shared wait (codes "deploy token") (
        deploy_contract (secret deployer) (wasm_path (codes "token")) (
          codes "--underlying_asset"
          ∷ xlm_sac
          ∷ codes "--verifier"
          ∷ verifier
          ∷ codes "--auditor"
          ∷ auditor
          ∷ []))
    pure (record {
      token = token;
      verifier = verifier;
      auditor = auditor;
      deployed_at = deployed_at;
    })

  abbrev pub client_for : Contracts → Client
  client_for c = client_with c.token c.verifier c.auditor

  -- the body of the loop of step 4
  unfoldable pub register_vk : Contracts → Keypair → Signer → Text → Io World Text
  register_vk c deployer signer name = do
    vk ← read_vk name
    kind ← lift (u32_scval (Num.whole (pos (circuit_type name))))
    admin ← lift (address_scval (public_key deployer))
    retry_shared wait (codes "register VK " ++ name) (
        invoke (client_for c) c.verifier (codes "register_verification_key")
          (kind ∷ bytes_scval vk ∷ admin ∷ []) signer)

  -- `for (const [name, circuitType] of VK_FILES)`
  unfoldable pub register_vks : Contracts → Keypair → Signer → List Text → Io World (Unit {0})
  unfolding register_vk
  register_vks c deployer signer [] = pure tt
  register_vks c deployer signer (name ∷ names) =
      register_vk c deployer signer name >>= λ _. register_vks c deployer signer names
