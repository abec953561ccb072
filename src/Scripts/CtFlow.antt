-- ===== src/Scripts/CtFlow.antt =====
-- Shared plumbing of the confidential-token scripts: scripts/ct-flow/_shared.mjs, lines 78-192, with what the
-- scripts take from the Stellar SDK and from the vendor's provers and contract calls.
pub mod Effects
pub mod RunLog
pub mod Steps
pub mod Flow
pub mod Contracts
pub mod Deploy
use raiz_confidential_stack.Prelude.{
  ℕ, ℤ, Text, codes, Bool, not, ◌&&◌, ◌==◌, Option, none, some, List, ◌++◌, take, Result, ok, err,
  Error, Io, leb, if◌then◌else◌,
}
use raiz_confidential_stack.Scripts.Calls.{throw_if, ◌>>=◌, ◌>>◌}
use raiz_confidential_stack.Values.{Value}
use raiz_confidential_stack.Vendor.{Vendor, Client, Synced, Witness}
use raiz_confidential_stack.Scripts.EnvFile.{Env, load_env_deploy, save_env_deploy}
use raiz_confidential_stack.Scripts.Retry.{retry_shared}
use raiz_confidential_stack.Scripts.Secrets.{Secrets}

-- What the scripts take from outside, over the SDK.
pub record Toolkit (V : Vendor) : Type 1 where
  -- `Keypair.random`, `Keypair.fromSecret`, `secret`, `publicKey`, `keypairSigner`
  pub Keypair : Type 0
  pub Signer : Type 0
  pub random_keypair : Io V.World Keypair
  pub keypair_of_secret : Text → Result Keypair
  pub secret : Keypair → Text
  pub public_key : Keypair → Text
  pub keypair_signer : Text → Text → Result Signer
  -- the timer, `os.cpus().length`, `encodeURIComponent`
  pub wait : ℕ → V.World → V.World
  pub cpus : ℕ
  pub encode : Text → Text
  -- the import of bb.js, and `setUltraHonkBackendLoader` with a class that passes a number of threads
  pub import_bb_node : Io V.World (Unit {0})
  pub set_backend_threads : ℕ → Io V.World (Unit {0})
  -- `client.server.getTransaction(hash)`: the ledger
  pub transaction_ledger : Client → Text → Io V.World ℕ
  -- `new CircuitProver(loadCircuit(name))`, `prove`, `destroy`
  pub Prover : Type 0
  pub circuit_prover : Text → Result Prover
  pub prove : Prover → Value → Io V.World (List ℕ)
  pub destroy : Prover → Io V.World (Unit {0})
  -- `new StateEngine({ client, store, keys, address, fromLedger })` on a store of its own
  pub Engine : Type 0
  pub state_engine : Client → V.Keys → Text → ℕ → Engine
  pub sync_engine : Engine → Io V.World Synced
  pub verify_against_chain : Engine → Io V.World Bool
  -- the submitted calls of the wrapper, by the hash of their transaction
  pub submit_register : Client → Signer → Text → ℕ → Witness → List ℕ → Io V.World Text
  pub submit_deposit : Client → Signer → Text → Text → ℤ → Io V.World Text
  pub submit_merge : Client → Signer → Text → Io V.World Text
  pub submit_transfer : Client → Signer → Text → Text → Witness → List ℕ → Io V.World Text
  -- `keys.PVK`
  pub viewing_key : V.Keys → V.Point

abbrev pub rpc_url : Text
rpc_url = codes "https://soroban-testnet.stellar.org"

-- `StellarSdk.Networks.TESTNET`
abbrev pub passphrase : Text
passphrase = codes "Test SDF Network ; September 2015"

abbrev pub friendbot : Text
friendbot = codes "https://friendbot.stellar.org"

abbrev pub xlm_sac : Text
xlm_sac = codes "CDLZFC3SYJYDZT7K67VZ75HPJVIEUVNIXF47ZG2FB2RMQQVU2HHGCYSC"

-- `explorerTx(hash)`
abbrev pub explorer_tx : Text → Text
explorer_tx hash = codes "https://stellar.expert/explorer/testnet/tx/" ++ hash

-- `explorerContract(id)`
abbrev pub explorer_contract : Text → Text
explorer_contract id = codes "https://stellar.expert/explorer/testnet/contract/" ++ id

-- An entry of `auditorKeys`.
pub record AuditorKey : Type 0 where
  pub id : ℕ
  pub label : Text
  pub key_x_hex : Text
  pub key_y_hex : Text

-- deployment.json, as `deploy.mjs` writes it.
pub record DeploymentJson : Type 0 where
  pub network : Text
  pub rpc : Text
  pub network_passphrase : Text
  pub deployed_at_ledger : ℕ
  pub deployer : Text
  pub token : Text
  pub verifier : Text
  pub auditor : Text
  pub underlying : Text
  pub addr_f : Text
  pub auditor_keys : List AuditorKey
  pub explorer_token : Text
  pub explorer_verifier : Text
  pub explorer_auditor : Text

-- `{ rpcUrl: RPC_URL, networkPassphrase: PASSPHRASE, contracts: dep.contracts }`
abbrev pub client_of : DeploymentJson → Client
client_of dep = record {
  rpc_url = rpc_url;
  passphrase = passphrase;
  token = dep.token;
  verifier = dep.verifier;
  auditor = dep.auditor;
}

module _ {V : Vendor} (T : Toolkit V) where
  open V use {World, fetch}
  open T use {
    Keypair, random_keypair, keypair_of_secret, secret, wait, cpus, encode, import_bb_node,
    set_backend_threads, transaction_ledger,
  }

  -- `THREADS`
  unfoldable pub threads : ℕ
  threads = if leb cpus 32 then cpus else 32

  -- `enableThreadedProving()`
  unfoldable pub enable_threaded_proving : Io World (Unit {0})
  unfolding threads
  enable_threaded_proving = import_bb_node >> set_backend_threads threads

  -- one request of `friendbotFund`; an account that is funded already answers with 400
  unfoldable pub ask_friendbot : Text → Io World (Unit {0})
  ask_friendbot pubkey = do
    res ← fetch (friendbot ++ codes "/?addr=" ++ encode pubkey)
    throw_if (not res.succeeded && not (res.status == 400)) (Error.friendbot_status res.status)

  -- `friendbotFund(pubkey)`
  unfoldable pub friendbot_fund : Text → Io World (Unit {0})
  unfolding ask_friendbot
  friendbot_fund pubkey =
      retry_shared wait (codes "friendbot " ++ take 5 pubkey ++ codes "…") (ask_friendbot pubkey)

  -- `txLedger(client, hash)`
  unfoldable pub tx_ledger : Client → Text → Io World ℕ
  tx_ledger client hash =
      retry_shared wait (codes "getTransaction " ++ take 8 hash ++ codes "…")
        (transaction_ledger client hash)

  -- The keypairs as secrets that are kept in `.env.deploy`.
  abbrev pub keypairs : Secrets
  keypairs = record {
    World = World;
    Secret = Keypair;
    draw = random_keypair;
    print = secret;
    read = keypair_of_secret;
  }

-- What the scripts keep on the disk beside the world outside; `R` is what run-log.json holds.
pub record Machine (W R : Type 0) : Type 0 where
  pub world : W
  pub env_file : Option Text
  pub deployment : Option DeploymentJson
  pub run_log : Option R

module _ {W R : Type 0} where
  -- A call that leaves the disk alone.
  unfoldable pub outside : {A : Type 0} → Io W A → Io (Machine W R) A
  outside m s = let (r, w) = m s.world in (r, record s { world = w })

  -- `loadEnvDeploy()`
  unfoldable pub load_env : Io (Machine W R) Env
  load_env s = (ok (load_env_deploy s.env_file), s)

  -- `saveEnvDeploy(env)`
  unfoldable pub save_env : Env → Io (Machine W R) (Unit {0})
  save_env env s = (ok tt, record s { env_file = some (save_env_deploy s.env_file env) })

  -- `loadDeploymentJson()`
  unfoldable pub load_deployment_json : Io (Machine W R) DeploymentJson
  load_deployment_json s =
      (elim s.deployment [ none ↦ err Error.no_deployment | some dep ↦ ok dep ], s)

  -- `saveDeploymentJson(d)`
  unfoldable pub save_deployment_json : DeploymentJson → Io (Machine W R) (Unit {0})
  save_deployment_json dep s = (ok tt, record s { deployment = some dep })
