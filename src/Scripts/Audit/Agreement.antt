-- ===== src/Scripts/Audit/Agreement.antt =====
-- What audit.mjs reports against the app's replay of the same events.
use raiz_confidential_stack.Prelude.{
  ℕ, ℤ, pos, ◌+ℤ◌, eqb_ℤ, eqb_ℤ_iff, codes, Bool, true, Option, none, some, List, Result, ok, err,
  ok_injective, Error, bind_result-eq-ok, ◌≡◌, refl, sym, ap, ◌∙◌, ◌↔◌,
}
use mathlib.Core.Path.{subst}
use raiz_confidential_stack.Scripts.Calls.{lift, >>=-inv}
use raiz_confidential_stack.Vendor.{Vendor, Event, Place}
use raiz_confidential_stack.Shim.Goal.Ledger.{Tally, empty_tally, replay}
use raiz_confidential_stack.Scripts.CtFlow.{
  Toolkit, Machine, DeploymentJson, client_of, outside, load_env, load_deployment_json,
}
use raiz_confidential_stack.Scripts.EnvFile.{Env, load_env_deploy}
use raiz_confidential_stack.Scripts.Retry.{retry_shared}
use raiz_confidential_stack.Scripts.CtFlow.RunLog.{RunLog}
use raiz_confidential_stack.Scripts.Audit.{add_events}
use raiz_confidential_stack.Scripts.Audit.Total.{AllKeepMoney, SameTotal, add_events-replay}
use raiz_confidential_stack.Scripts.Audit.Report.{
  Report, secret_of, read_run_log, find_transfer, scope_keys, report_of, audit_with, audit,
}

module _ {V : Vendor} (T : Toolkit V) (audit_both : ℤ → V.Cipher → Result Bool) where
  open V use {World, Cipher, audit_recipient, audit_sender}

  -- A report on the events of the deployment, for the goal and the balance of a run's log.
  pub record IsReport (log : RunLog) (k1 : ℤ) (events : List (Event Cipher)) (r : Report)
      : Type 0 where
    pub owner : r.owner_value ≡ log.final_balances.goal_spendable
    pub matches : (r.matches ≡ true) ↔ (r.total ≡ log.final_balances.goal_spendable)
    -- one transfer to the goal at least
    pub shown :
        (found : Place × Cipher) × (find_transfer T audit_both log.goal events ≡ some found)
        × (r.transfer_tx ≡ found.0.tx_hash)
    -- the app's total, where the goal sends nothing
    pub as_app :
        (t : Tally)
        → AllKeepMoney V k1 log.goal events
        → replay V k1 log.goal events empty_tally ≡ ok t
        → r.total ≡ t.spend_v +ℤ t.recv_v

  scope_keys-inv :
      (k0 k1 total owner : ℤ) (o : Option (Place × Cipher)) (r : Report)
      → scope_keys T audit_both k0 k1 total owner o ≡ ok r
      → (r.total ≡ total)
        × (r.owner_value ≡ owner)
        × (r.matches ≡ eqb_ℤ total owner)
        × ((found : Place × Cipher) × (o ≡ some found) × (r.transfer_tx ≡ found.0.tx_hash))
  unfolding scope_keys
  scope_keys-inv k0 k1 total owner none r h = cc h
  scope_keys-inv k0 k1 total owner (some (at, c)) r h =
      let (agree, _, h1) = bind_result-eq-ok (audit_both k1 c) _ h in
      let (sent, _, h2) = bind_result-eq-ok (audit_sender k0 c) _ h1 in
      let (got, _, h3) = bind_result-eq-ok (audit_recipient k1 c) _ h2 in
      let e = ok_injective h3 in
      (
        sym (ap (λ x. x.total) e),
        sym (ap (λ x. x.owner_value) e),
        sym (ap (λ x. x.matches) e),
        ((at, c), refl, sym (ap (λ x. x.transfer_tx) e)),
      )

  report_of-IsReport :
      (k0 k1 : ℤ) (log : RunLog) (events : List (Event Cipher)) (r : Report)
      → report_of T audit_both k0 k1 log events ≡ ok r
      → IsReport log k1 events r
  unfolding report_of
  report_of-IsReport k0 k1 log events r h =
      let (n, counted, h1) = bind_result-eq-ok (add_events V k1 log.goal events (pos 0)) _ h in
      let (total, owner, matches, shown) =
        scope_keys-inv k0 k1 n log.final_balances.goal_spendable
          (find_transfer T audit_both log.goal events) r h1 in
      record {
        owner = owner;
        matches =
            let (to, from) = eqb_ℤ_iff n log.final_balances.goal_spendable in
            ((λ e. total ∙ to (sym matches ∙ e)), λ e. matches ∙ from (sym total ∙ e));
        shown = shown;
        as_app = λ t keeps replayed.
            let both : SameTotal V k1 log.goal (ok t) (ok n) =
              subst (λ x. SameTotal V k1 log.goal (ok t) x) counted
                (subst (λ x. SameTotal V k1 log.goal x (add_events V k1 log.goal events (pos 0)))
                  replayed (add_events-replay V k1 log.goal events keeps)) in
            total ∙ sym both;
      }

  -- Where the report comes from: the files on the disk, and the events that the network gave.
  pub record IsAudited (m : Machine World RunLog) (r : Report) : Type 0 where
    pub dep : DeploymentJson
    pub log : RunLog
    pub k1 : ℤ
    pub events : List (Event Cipher)
    pub latest : ℕ
    pub deployed : m.deployment ≡ some dep
    pub logged : m.run_log ≡ some log
    pub viewed : secret_of (codes "CT_GOAL_VIEWKEY_SECRET_HEX") (load_env_deploy m.env_file) ≡ ok k1
    pub fetched :
        (retry_shared T.wait
          (codes "fetchEvents")
          (V.fetch_events (client_of dep) dep.deployed_at_ledger dep.token)
          m.world).0
        ≡ ok (events, latest)
    pub report : IsReport log k1 events r

  read_inv :
      {A : Type 0} (o : Option A) (e : Error) {a : A}
      → Path (Result A) (elim o [ none ↦ err e | some x ↦ ok x ]) (ok a)
      → o ≡ some a
  read_inv none e h = cc h
  read_inv (some x) e h = ap some (ok_injective h)

  audit_with-IsAudited :
      (dep : DeploymentJson) (env : Env) (log : RunLog) (m : Machine World RunLog) (r : Report)
      → m.deployment ≡ some dep
      → m.run_log ≡ some log
      → load_env_deploy m.env_file ≡ env
      → (audit_with T audit_both dep env log m).0 ≡ ok r
      → IsAudited m r
  unfolding audit_with outside lift
  audit_with-IsAudited dep env log m r deployed logged loaded h =
      let (k1, viewed, h1, _) =
        >>=-inv (lift (secret_of (codes "CT_GOAL_VIEWKEY_SECRET_HEX") env)) _ m h in
      let (k0, _, h2, _) = >>=-inv (lift (secret_of (codes "CT_AUDITOR0_SECRET_HEX") env)) _ m h1 in
      let ((events, latest), fetched, h3, _) =
        >>=-inv
          (outside (
            retry_shared T.wait (codes "fetchEvents")
              (V.fetch_events (client_of dep) dep.deployed_at_ledger dep.token)))
          _ m h2 in
      record {
        dep = dep;
        log = log;
        k1 = k1;
        events = events;
        latest = latest;
        deployed = deployed;
        logged = logged;
        viewed = ap (secret_of (codes "CT_GOAL_VIEWKEY_SECRET_HEX")) loaded ∙ viewed;
        fetched = fetched;
        report = report_of-IsReport k0 k1 log events r h3;
      }

-- A run of audit.mjs that does not throw has found the deployment, the run's log, the view key and the events, and a
-- transfer to the goal among them; it reports a match exactly if its total is the balance of the log, and where the
-- goal sends nothing its total is the one that the app's replay of these events ends with.
pub audit-IsAudited :
    {V : Vendor} (T : Toolkit V) (audit_both : ℤ → V.Cipher → Result Bool)
    (m : Machine V.World RunLog) (r : Report)
    → (audit T audit_both m).0 ≡ ok r
    → IsAudited T audit_both m r
unfolding audit load_deployment_json load_env read_run_log
audit-IsAudited T audit_both m r h =
    let (dep, deployed, h1, _) = >>=-inv load_deployment_json _ m h in
    let (env, loaded, h2, _) = >>=-inv load_env _ m h1 in
    let (log, logged, h3, _) = >>=-inv read_run_log _ m h2 in
    audit_with-IsAudited T audit_both dep env log m r
      (read_inv T audit_both m.deployment Error.no_deployment deployed)
      (read_inv T audit_both m.run_log _ logged) (ok_injective loaded) h3
