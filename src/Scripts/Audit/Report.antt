-- ===== src/Scripts/Audit/Report.antt =====
-- The whole of scripts/ct-flow/audit.mjs (lines 40-110), by the values that it prints.
use raiz_confidential_stack.Prelude.{
  ℤ, pos, eqb_ℤ, Text, codes, same_text, Bool, Option, none, some, List, [], ◌∷◌, Result, ok, err,
  Error, Io, bind_result, if◌then◌else◌,
}
use raiz_confidential_stack.Scripts.Calls.{lift, ◌>>=◌}
use raiz_confidential_stack.Vendor.{Vendor, Event, Place, deposit, transfer, withdraw, merge, other}
use raiz_confidential_stack.Shim.Events.Raw.{big_int}
use raiz_confidential_stack.Scripts.EnvFile.{Env, lookup}
use raiz_confidential_stack.Scripts.Retry.{retry_shared}
use raiz_confidential_stack.Scripts.CtFlow.{
  Toolkit, DeploymentJson, Machine, client_of, outside, load_env, load_deployment_json,
}
use raiz_confidential_stack.Scripts.CtFlow.RunLog.{RunLog}
use raiz_confidential_stack.Scripts.Audit.{add_events}

-- What the script prints.
pub record Report : Type 0 where
  pub total : ℤ
  pub owner_value : ℤ
  -- `MATCH`
  pub matches : Bool
  -- the transfer to the goal that the scopes of the keys are shown on
  pub transfer_tx : Text
  pub channels_agree : Bool
  pub custodian_amount : ℤ
  pub custodian_balance : ℤ
  -- `k0-amount == k1-amount`
  pub same_amount : Bool

-- `BigInt(env[key])`
unfoldable pub secret_of : Text → Env → Result ℤ
unfolding lookup big_int
secret_of key env = elim (lookup key env) [ none ↦ err Error.type_error | some s ↦ big_int s ]

-- `JSON.parse(readFileSync(RUN_LOG_JSON, "utf8"))`
unfoldable pub read_run_log : {W : Type 0} → Io (Machine W RunLog) RunLog
read_run_log s = (
  elim s.run_log [ none ↦ err (Error.missing_file (codes "run-log.json")) | some log ↦ ok log ],
  s,
)

-- `auditTransfer(key, ev)` of the SDK tells whether both channels open to the same amount.
module _ {V : Vendor} (T : Toolkit V) (audit_both : ℤ → V.Cipher → Result Bool) where
  open V use {World, Cipher, audit_recipient, audit_sender, fetch_events}
  open T use {wait}

  -- `events.find((e) => e.type === "transfer" && e.to === goalAddr)`
  unfoldable pub find_transfer : Text → List (Event Cipher) → Option (Place × Cipher)
  find_transfer goal [] = none
  find_transfer goal (transfer at from to c ∷ events) =
      let rest = find_transfer goal events in if same_text to goal then some (at, c) else rest
  find_transfer goal (deposit at from to amount ∷ events) = find_transfer goal events
  find_transfer goal (withdraw at from to amount c ∷ events) = find_transfer goal events
  find_transfer goal (merge at account ∷ events) = find_transfer goal events
  find_transfer goal (other at kind ∷ events) = find_transfer goal events

  -- part 3: what each key opens of that transfer
  unfoldable pub scope_keys : ℤ → ℤ → ℤ → ℤ → Option (Place × Cipher) → Result Report
  scope_keys k0 k1 total owner_value none = err Error.no_transfer
  scope_keys k0 k1 total owner_value (some (at, c)) = bind_result (audit_both k1 c) λ agree.
      bind_result (audit_sender k0 c) λ (amount, balance).
        bind_result (audit_recipient k1 c) λ (amount1, r_tx). ok (record {
          total = total;
          owner_value = owner_value;
          matches = eqb_ℤ total owner_value;
          transfer_tx = at.tx_hash;
          channels_agree = agree;
          custodian_amount = amount;
          custodian_balance = balance;
          same_amount = eqb_ℤ amount amount1;
        })

  -- parts 2 and 3, over the events
  unfoldable pub report_of : ℤ → ℤ → RunLog → List (Event Cipher) → Result Report
  unfolding add_events find_transfer scope_keys
  report_of k0 k1 log events = bind_result (add_events V k1 log.goal events (pos 0)) λ total.
      scope_keys k0 k1 total log.final_balances.goal_spendable (find_transfer log.goal events)

  -- `main` with the deployment, the secrets and the log at hand
  unfoldable pub audit_with : DeploymentJson → Env → RunLog → Io (Machine World RunLog) Report
  audit_with dep env log = do
    k1 ← lift (secret_of (codes "CT_GOAL_VIEWKEY_SECRET_HEX") env)
    k0 ← lift (secret_of (codes "CT_AUDITOR0_SECRET_HEX") env)
    (events, latest) ← outside (
        retry_shared wait (codes "fetchEvents")
          (fetch_events (client_of dep) dep.deployed_at_ledger dep.token))
    lift (report_of k0 k1 log events)

  -- `main`
  unfoldable pub audit : Io (Machine World RunLog) Report
  audit = do dep ← load_deployment_json; env ← load_env; log ← read_run_log; audit_with dep env log
