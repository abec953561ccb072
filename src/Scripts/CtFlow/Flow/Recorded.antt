-- ===== src/Scripts/CtFlow/Flow/Recorded.antt =====
-- What flow.mjs records of a run that ends well.
use raiz_confidential_stack.Scripts.CtFlow.Effects.{Ensures-outside}
use raiz_confidential_stack.Scripts.CtFlow.Flow.Done.{IsSetUp, IsCycle}
use raiz_confidential_stack.Prelude.{
  Error, Bool, true, false, not, ◌||◌, some, ok, ◌≡◌, ap, arith, ◌∙◌, Said,
}
use raiz_confidential_stack.Vendor.{Vendor}
use raiz_confidential_stack.Scripts.CtFlow.{
  Toolkit, DeploymentJson, Machine, outside, load_deployment_json,
}
use raiz_confidential_stack.Scripts.Calls.{◌>>=◌, finally-eq-ok, >>=-inv}
use raiz_confidential_stack.Scripts.Calls.Rules.{throw_if-inv}
use raiz_confidential_stack.Scripts.CtFlow.Flow.{
  open_accounts, finish, cycle, with_accounts, flow, destroy_provers,
}
use raiz_confidential_stack.Scripts.CtFlow.Steps.{Accounts, Setup, run_steps}
use raiz_confidential_stack.Scripts.CtFlow.RunLog.{RunLog}
use raiz_confidential_stack.Scripts.CtFlow.Flow.Ran.{set_up-IsSetUp, run_steps-IsCycle}

module _ {V : Vendor} (T : Toolkit V) where
  open V use {World}

  -- What stands on the disk after a run that ended well: the log of a whole cycle, with the
  -- deployment that was read, the accounts that were opened, and what was set up for them.
  pub record IsRecorded (m : Machine World RunLog) : Type 0 where
    pub dep : DeploymentJson
    pub accounts : Accounts T
    pub setup : Setup T
    pub log : RunLog
    pub on_disk : m.run_log ≡ some log
    pub was_read : Said (load_deployment_json {W = World} {R = RunLog}) dep
    pub were_opened : Said (open_accounts T) accounts
    pub set_up : IsSetUp T dep accounts setup
    pub cycle : IsCycle T dep accounts setup log
    pub matched :
        (log.final_balances.marta_matches_chain ≡ true)
        × (log.final_balances.goal_matches_chain ≡ true)

  -- The same, of one set-up.
  abbrev Logged : DeploymentJson → Accounts T → Setup T → Machine World RunLog → Type 0
  Logged dep a s m =
      (log : RunLog) × (m.run_log ≡ some log)
      × IsCycle T dep a s log
      × (log.final_balances.marta_matches_chain ≡ true)
      × (log.final_balances.goal_matches_chain ≡ true)

  both_match : (b c : Bool) → not b || not c ≡ false → (b ≡ true) × (c ≡ true)
  both_match b c h = ground arith

  finish-Logged :
      (dep : DeploymentJson) (a : Accounts T) (s : Setup T) (log : RunLog)
      (m : Machine World RunLog)
      → IsCycle T dep a s log
      → (finish T log m).0 ≡ ok tt
      → Logged dep a s (finish T log m).1
  unfolding finish ◌>>=◌
  finish-Logged dep a s log m ordered h =
      let b = log.final_balances.marta_matches_chain in
      let c = log.final_balances.goal_matches_chain in
      let (matched, same) =
        throw_if-inv (not b || not c) Error.state_mismatch (record m { run_log = some log }) h in
      let (marta, goal) = both_match b c matched in
      (log, ap (λ n. n.run_log) same, ordered, marta, goal)

  cycle-Logged :
      (dep : DeploymentJson) (a : Accounts T) (s : Setup T) (m : Machine World RunLog)
      → (cycle T dep a s m).0 ≡ ok tt
      → Logged dep a s (cycle T dep a s m).1
  unfolding cycle
  cycle-Logged dep a s m h =
      let (log, ran, rest, e) = >>=-inv _ _ m h in
      rw e (
        finish-Logged dep a s log (outside (run_steps T dep a s) m).1
          ((Ensures-outside _ (run_steps-IsCycle T dep a s)).at m ran) rest)

  -- The release of the provers does not touch the log.
  finally-Logged :
      (dep : DeploymentJson) (a : Accounts T) (s : Setup T) (m end : Machine World RunLog)
      → end ≡ (outside (destroy_provers T s) m).1
      → Logged dep a s m
      → Logged dep a s end
  unfolding outside
  finally-Logged dep a s m end e (log, on_disk, ordered, b, c) =
      (log, ap (λ n. n.run_log) e ∙ on_disk, ordered, b, c)

  -- A run of flow.mjs that ends well has written a log of a whole cycle, of the accounts that it
  -- opened and the deployment that it read. The set-up has each account's own signer, keys and
  -- engine, and the auditors' keys of 0 and 1. The entries are, in this order: a registration for
  -- each of Marta and the goal that the chain did not have, and only for those; Marta's deposit; her
  -- merge; the transfer of 250000000 stroops of her synced balance, submitted by Marta to the goal
  -- with the proof of its witness; and the goal's merge. Each entry has the hash that its call
  -- returned and that transaction's ledger and link. The final balances are those that each
  -- account's engine synced, and each engine has found its account to match the chain.
  pub flow-IsRecorded : (m : Machine World RunLog) → (flow T m).0 ≡ ok tt → IsRecorded (flow T m).1
  unfolding flow with_accounts
  flow-IsRecorded m h =
      let (_, _, h1, e1) = >>=-inv _ _ m h in
      let (dep, was_read, h2, e2) = >>=-inv _ _ _ h1 in
      let (a, were_opened, h3, e3) = >>=-inv _ _ _ h2 in
      let (_, _, h4, e4) = >>=-inv _ _ _ h3 in
      let (s, was_set_up, h5, e5) = >>=-inv _ _ _ h4 in
      let (cycled, after) = finally-eq-ok _ _ _ h5 in
      let (log, on_disk, ordered, b, c) =
        finally-Logged dep a s _ _ after (cycle-Logged dep a s _ cycled) in
      record {
        dep = dep;
        accounts = a;
        setup = s;
        log = log;
        on_disk = ap (λ r. r.1.run_log) (e1 ∙ e2 ∙ e3 ∙ e4 ∙ e5) ∙ on_disk;
        was_read = (_, was_read);
        were_opened = (_, were_opened);
        set_up = (Ensures-outside _ (set_up-IsSetUp T dep a)).at _ was_set_up;
        cycle = ordered;
        matched = (b, c);
      }
