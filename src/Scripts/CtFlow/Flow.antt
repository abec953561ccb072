-- ===== src/Scripts/CtFlow/Flow.antt =====
-- The full confidential cycle on testnet: scripts/ct-flow/flow.mjs, lines 38-202, without what it prints and the
-- times. run-log.json is its fields, and not its JSON text.
pub mod Done
pub mod Ran
pub mod Recorded
pub mod Saved
use raiz_confidential_stack.Prelude.{codes, not, ◌||◌, some, ok, Error, Io, bind_result}
use raiz_confidential_stack.Scripts.Calls.{pure, throw_if, finally, ◌>>=◌, ◌>>◌}
use raiz_confidential_stack.Vendor.{Vendor}
use raiz_confidential_stack.Scripts.Secrets.{ensure_keypair, ensure_scalar}
use raiz_confidential_stack.Scripts.CtFlow.{
  Toolkit, DeploymentJson, Machine, enable_threaded_proving, friendbot_fund, keypairs, outside,
  load_env, save_env, load_deployment_json,
}
use raiz_confidential_stack.Scripts.CtFlow.RunLog.{RunLog}
use raiz_confidential_stack.Scripts.CtFlow.Steps.{Accounts, Setup, set_up, run_steps}

module _ {V : Vendor} (T : Toolkit V) where
  open V use {World}
  open T use {public_key, destroy}

  -- the accounts, and their secrets saved
  unfoldable pub open_accounts : Io (Machine World RunLog) (Accounts T)
  open_accounts = do
    env ← load_env
    (marta, env1) ← outside (ensure_keypair (keypairs T) (codes "CT_MARTA_SECRET") env)
    (goal, env2) ← outside (ensure_keypair (keypairs T) (codes "CT_GOAL_SECRET") env1)
    (marta_sk, env3) ← outside (ensure_scalar V (codes "CT_MARTA_CONF_SK") env2)
    (goal_sk, env4) ← outside (ensure_scalar V (codes "CT_GOAL_CONF_SK") env3)
    _ ← save_env env4
    pure (record { marta = marta; goal = goal; marta_sk = marta_sk; goal_sk = goal_sk })

  unfoldable pub fund_accounts : Accounts T → Io World (Unit {0})
  fund_accounts a = friendbot_fund T (public_key a.marta) >> friendbot_fund T (public_key a.goal)

  -- `writeFileSync(RUN_LOG_JSON, …)`
  unfoldable pub write_run_log : RunLog → Io (Machine World RunLog) (Unit {0})
  write_run_log log m = (ok tt, record m { run_log = some log })

  -- the log is written before the balances are looked at
  unfoldable pub finish : RunLog → Io (Machine World RunLog) (Unit {0})
  unfolding write_run_log
  finish log =
      write_run_log log
      >> throw_if
          (not log.final_balances.marta_matches_chain || not log.final_balances.goal_matches_chain)
          Error.state_mismatch

  -- the `try`
  unfoldable pub cycle :
      DeploymentJson → Accounts T → Setup T → Io (Machine World RunLog) (Unit {0})
  unfolding finish
  cycle dep a s = outside (run_steps T dep a s) >>= finish

  -- `Promise.all([registerProver.destroy(), transferProver.destroy()])`: both are started
  unfoldable pub destroy_provers : Setup T → Io World (Unit {0})
  destroy_provers s w =
      let (first, w1) = destroy s.register_prover w in
      let (second, w2) = destroy s.transfer_prover w1 in (bind_result first (λ _. second), w2)

  -- what follows the accounts
  unfoldable pub with_accounts : DeploymentJson → Accounts T → Io (Machine World RunLog) (Unit {0})
  unfolding destroy_provers
  with_accounts dep a = do
    _ ← outside (fund_accounts a)
    s ← outside (set_up T dep a)
    finally (cycle dep a s) (outside (destroy_provers s))

  -- `main()` of flow.mjs
  unfoldable pub flow : Io (Machine World RunLog) (Unit {0})
  flow = do
    _ ← outside (enable_threaded_proving T)
    dep ← load_deployment_json
    a ← open_accounts
    with_accounts dep a
