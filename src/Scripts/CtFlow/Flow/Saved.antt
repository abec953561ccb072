-- ===== src/Scripts/CtFlow/Flow/Saved.antt =====
-- The secrets of flow.mjs are on the disk before the network is used, and stay there.
use raiz_confidential_stack.Prelude.{some, same_text, Text, codes, Option, ok, ◌≡◌, refl}
use mathlib.Core.Path.{subst}
use raiz_confidential_stack.Vendor.{Vendor}
use raiz_confidential_stack.Scripts.EnvFile.{Env, load_env_deploy, is_key_char}
use raiz_confidential_stack.Scripts.Calls.{Returns, Keeps, ◌>>=◌, pure}
use raiz_confidential_stack.Scripts.Calls.Rules.{Keeps-after, Returns-bind, keeps_rules, Keeps-bind}
use raiz_confidential_stack.Scripts.Secrets.{scalars, ensure_scalar}
use raiz_confidential_stack.Scripts.Secrets.Stable.{IsPrintable, Kept, Kept-saved, Kept-same}
use raiz_confidential_stack.Scripts.CtFlow.{
  save_env_deploy, Toolkit, DeploymentJson, Machine, keypairs, save_env,
}
use raiz_confidential_stack.Scripts.CtFlow.Effects.{Keeps-outside, load_env-IsEnv, ensured}
use raiz_confidential_stack.Scripts.CtFlow.Flow.{
  open_accounts, with_accounts, cycle, finish, write_run_log,
}
use raiz_confidential_stack.Scripts.CtFlow.Steps.{Accounts}
use raiz_confidential_stack.Scripts.CtFlow.RunLog.{RunLog}

module _ {V : Vendor} (T : Toolkit V) where
  open V use {World}

  -- The four secrets of these accounts are in the file, each under its key.
  pub record IsSaved (a : Accounts T) (file : Option Text) : Type 0 where
    pub marta : Kept (keypairs T) (codes "CT_MARTA_SECRET") a.marta (load_env_deploy file)
    pub goal : Kept (keypairs T) (codes "CT_GOAL_SECRET") a.goal (load_env_deploy file)
    pub marta_sk : Kept (scalars V) (codes "CT_MARTA_CONF_SK") a.marta_sk (load_env_deploy file)
    pub goal_sk : Kept (scalars V) (codes "CT_GOAL_CONF_SK") a.goal_sk (load_env_deploy file)

  save_accounts-IsSaved :
      (env : Env) (a : Accounts T)
      → Kept (keypairs T) (codes "CT_MARTA_SECRET") a.marta env
      → Kept (keypairs T) (codes "CT_GOAL_SECRET") a.goal env
      → Kept (scalars V) (codes "CT_MARTA_CONF_SK") a.marta_sk env
      → Kept (scalars V) (codes "CT_GOAL_CONF_SK") a.goal_sk env
      → Returns
          (λ b m. IsSaved b m.env_file)
          (save_env {W = World} {R = RunLog} env >>= λ _. pure a)
  unfolding save_env pure ◌>>=◌
  save_accounts-IsSaved env a marta goal marta_sk goal_sk = record {
    leaves = λ m {a = b} h.
        let same : a ≡ b = cc h in
        subst (λ c. IsSaved c (some (save_env_deploy m.env_file env))) same
          (record {
            marta = Kept-saved (keypairs T) m.env_file _ a.marta env marta;
            goal = Kept-saved (keypairs T) m.env_file _ a.goal env goal;
            marta_sk = Kept-saved (scalars V) m.env_file _ a.marta_sk env marta_sk;
            goal_sk = Kept-saved (scalars V) m.env_file _ a.goal_sk env goal_sk;
          });
  }

  finish-Keeps :
      (P : Option Text → Type 0) (log : RunLog) → Keeps (λ m. P m.env_file) (finish T log)
  unfolding finish write_run_log
  finish-Keeps P log = Keeps-bind _ _ (record { kept = λ m h. h }) (λ _. search keeps_rules)

  with_accounts-Keeps :
      (P : Option Text → Type 0) (dep : DeploymentJson) (a : Accounts T)
      → Keeps (λ m. P m.env_file) (with_accounts T dep a)
  unfolding with_accounts cycle
  with_accounts-Keeps P dep a = search (keeps_rules, Keeps-outside P, finish-Keeps P)

  open_accounts-IsSaved :
      IsPrintable (keypairs T)
      → IsPrintable (scalars V)
      → Returns (λ a m. IsSaved a m.env_file) (open_accounts T)
  unfolding open_accounts ensure_scalar is_key_char same_text
  open_accounts-IsSaved p q =
      let K = keypairs T in
      let S = scalars V in
      Returns-bind _ _ load_env-IsEnv λ env valid.
        Returns-bind _ _ (ensured K _ env p (λ e. cc e, refl) valid) λ (marta, env1) (m1, _).
          Returns-bind _ _ (ensured K _ env1 p (λ e. cc e, refl) m1.3) λ (goal, env2) (g2, old2).
            Returns-bind _ _ (ensured S _ env2 q (λ e. cc e, refl) g2.3)
              λ (marta_sk, env3) (ms3, old3).
                Returns-bind _ _ (ensured S _ env3 q (λ e. cc e, refl) ms3.3)
                  λ (goal_sk, env4) (gs4, old4).
                    let m2 = Kept-same K _ marta env1 env2 (old2 _ refl) g2.3 m1 in
                    let m3 = Kept-same K _ marta env2 env3 (old3 _ refl) ms3.3 m2 in
                    let g3 = Kept-same K _ goal env2 env3 (old3 _ refl) ms3.3 g2 in
                    save_accounts-IsSaved env4 _
                      (Kept-same K _ marta env3 env4 (old4 _ refl) gs4.3 m3)
                      (Kept-same K _ goal env3 env4 (old4 _ refl) gs4.3 g3)
                      (Kept-same S _ marta_sk env3 env4 (old4 _ refl) gs4.3 ms3) gs4

  -- Once flow.mjs has its accounts, the secrets of all four are in the file, read back as they are, whatever
  -- becomes of the rest of the run: of the funding, of a proof, of a submission or of the last comparison. The
  -- print of a drawn secret is a non-empty line that is read back.
  pub open_accounts-IsSaved_always :
      (m : Machine World RunLog) (dep : DeploymentJson) {a : Accounts T}
      → IsPrintable (keypairs T)
      → IsPrintable (scalars V)
      → (open_accounts T m).0 ≡ ok a
      → IsSaved a ((open_accounts T >>= with_accounts T dep) m).1.env_file
  open_accounts-IsSaved_always m dep {a} p q h =
      Keeps-after {P = λ n. IsSaved a n.env_file} _ _ m ((open_accounts-IsSaved p q).leaves m h)
        (with_accounts-Keeps (IsSaved a) dep)
