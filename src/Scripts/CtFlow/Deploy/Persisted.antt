-- ===== src/Scripts/CtFlow/Deploy/Persisted.antt =====
-- The deployer's secret in deploy.mjs: saved before the network is used, and kept by every later save.
use raiz_confidential_stack.Prelude.{false, ℕ, Text, same_text, Option, some, ok, ◌≡◌, refl}
use mathlib.Core.Path.{subst}
use raiz_confidential_stack.Vendor.{Vendor}
use raiz_confidential_stack.Scripts.EnvFile.{
  lookup, Env, load_env_deploy, save_env_deploy, is_key_char,
}
use raiz_confidential_stack.Scripts.EnvFile.Lines.{IsKey}
use raiz_confidential_stack.Scripts.Calls.{Ensures, Keeps, Returns, ◌>>=◌, pure}
use raiz_confidential_stack.Scripts.Calls.Rules.{
  Ensures-then, Ensures-bind, Ensures-pure, Keeps-bind, Keeps-using, Keeps-from, Returns-bind,
  keeps_rules,
}
use raiz_confidential_stack.Scripts.Secrets.{scalars}
use raiz_confidential_stack.Scripts.Secrets.Stable.{
  IsPrintable, Kept, Kept-saved, lookup-insert-elsewhere,
}
use raiz_confidential_stack.Scripts.CtFlow.{
  Toolkit, DeploymentJson, Machine, keypairs, save_env, save_deployment_json,
}
use raiz_confidential_stack.Scripts.CtFlow.Effects.{
  Keeps-outside, Ensures-outside, load_env-IsEnv, ensured,
}
use raiz_confidential_stack.Scripts.CtFlow.Deploy.Scalars.{
  Rereads, Rereads-same, insert-Kept, auditor_scalar-PrintsBack,
}
use raiz_confidential_stack.Scripts.CtFlow.Deploy.{
  AuditorKey, deployer_key, custodian_key, view_key, register_auditor, register_auditors,
  open_deployer, with_deployer, deploy,
}
use raiz_confidential_stack.Scripts.CtFlow.Contracts.{DeployTools, Contracts}

module _ {V : Vendor} (T : Toolkit V) (D : DeployTools T) {R : Type 0} where
  open V use {World, to_hex32}
  open T use {Keypair, Signer}

  -- The deployer's secret is in the file under its key.
  abbrev pub IsPersisted : Keypair → Machine World R → Type 0
  IsPersisted d n = Kept (keypairs T) deployer_key d (load_env_deploy n.env_file)

  save_env-IsPersisted :
      (d : Keypair) (env : Env)
      → Kept (keypairs T) deployer_key d env
      → Keeps (IsPersisted d) (save_env env)
  unfolding save_env
  save_env-IsPersisted d env h = record {
    kept = λ n _. Kept-saved (keypairs T) n.env_file deployer_key d env h;
  }

  save_deployment_json-IsPersisted :
      (d : Keypair) (dep : DeploymentJson) → Keeps (IsPersisted d) (save_deployment_json dep)
  unfolding save_deployment_json
  save_deployment_json-IsPersisted d dep = record { kept = λ n h. h }

  module _ (c : Contracts) (d : Keypair) (signer : Signer) (q : IsPrintable (scalars V)) (id : ℕ)
      (key label : Text) (is_key : IsKey key) (other : same_text deployer_key key ≡ false)
      (env : Env) (r : Rereads V key env) (h : Kept (keypairs T) deployer_key d env) where
    register_auditor-IsPersisted :
        Keeps (IsPersisted d) (register_auditor T D c d signer id key label env)
    unfolding register_auditor
    register_auditor-IsPersisted =
        let P = λ (file : Option Text). Kept (keypairs T) deployer_key d (load_env_deploy file) in
        Keeps-using _ _ (Keeps-outside P _)
          (Ensures-outside _ (auditor_scalar-PrintsBack V D key env q r))
          λ k back.
            Keeps-bind _ _
              (save_env-IsPersisted d _
                (insert-Kept V (keypairs T) deployer_key d key k env back is_key other h))
              λ _. search (keeps_rules, Keeps-outside P)

    register_auditor-Kept :
        Ensures
          (λ (x : AuditorKey × Env).
            Kept (keypairs T) deployer_key d x.1
            × ((name : Text) → same_text name key ≡ false → lookup name x.1 ≡ lookup name env))
          (register_auditor T D {R = R} c d signer id key label env)
    unfolding register_auditor
    register_auditor-Kept =
        Ensures-bind _ _ (Ensures-outside _ (auditor_scalar-PrintsBack V D key env q r)) λ k back.
          Ensures-then _ _ λ _. Ensures-then _ _ λ hash. Ensures-pure _ (
            insert-Kept V (keypairs T) deployer_key d key k env back is_key other h,
            λ name away. lookup-insert-elsewhere name key (to_hex32 k) env away,
          )

  register_auditors-IsPersisted :
      (c : Contracts) (d : Keypair) (signer : Signer) (env : Env)
      → IsPrintable (scalars V)
      → Rereads V custodian_key env
      → Rereads V view_key env
      → Kept (keypairs T) deployer_key d env
      → Keeps (IsPersisted d) (register_auditors T D c d signer env)
  unfolding register_auditors is_key_char same_text
  register_auditors-IsPersisted c d signer env q r0 r1 h =
      let key0 : IsKey custodian_key = (λ e. cc e, refl) in
      let key1 : IsKey view_key = (λ e. cc e, refl) in
      Keeps-using _ _
        (register_auditor-IsPersisted c d signer q 0 custodian_key _ key0 refl env r0 h)
        (register_auditor-Kept c d signer q 0 custodian_key _ key0 refl env r0 h)
        λ (first, env0) (h0, old).
          Keeps-bind _ _
            (register_auditor-IsPersisted c d signer q 1 view_key _ key1 refl env0
              (Rereads-same V view_key env env0 (old _ refl) r1) h0)
            λ (second, env1).
              Keeps-bind _ _ (search keeps_rules) λ addr_f. save_deployment_json-IsPersisted d _

  with_deployer-IsPersisted :
      (d : Keypair) (env : Env)
      → IsPrintable (scalars V)
      → Rereads V custodian_key env
      → Rereads V view_key env
      → Kept (keypairs T) deployer_key d env
      → Keeps (IsPersisted d) (with_deployer T D (d, env))
  unfolding with_deployer
  with_deployer-IsPersisted d env q r0 r1 h =
      let P = λ (file : Option Text). Kept (keypairs T) deployer_key d (load_env_deploy file) in
      Keeps-bind _ _ (Keeps-outside P _) λ _. Keeps-bind _ _ (Keeps-outside P _) λ c.
        Keeps-bind _ _ (search keeps_rules) λ signer.
          Keeps-bind _ _ (Keeps-outside P _)
            λ _. register_auditors-IsPersisted c d signer env q r0 r1 h

  -- What step 1 returns: the deployer, whose secret is in the object and in the file.
  open_deployer-Kept :
      IsPrintable (keypairs T)
      → Returns
          (λ (r : Keypair × Env) n. Kept (keypairs T) deployer_key r.0 r.1 × IsPersisted r.0 n)
          (open_deployer T D)
  unfolding open_deployer is_key_char save_env pure ◌>>=◌
  open_deployer-Kept p = Returns-bind _ _ load_env-IsEnv λ env valid.
      Returns-bind _ _ (ensured (keypairs T) deployer_key env p (λ e. cc e, refl) valid)
        λ (d, env1) (kept, _). save_deployer d env1 kept
    where
      save_deployer :
          (d : Keypair) (env : Env)
          → Kept (keypairs T) deployer_key d env
          → Returns
              (λ (r : Keypair × Env) n. Kept (keypairs T) deployer_key r.0 r.1 × IsPersisted r.0 n)
              (save_env env >>= λ _. pure (d, env))
      save_deployer d env kept = record {
        leaves = λ n {a = r} e.
            let same : ◌≡◌ {A = Keypair × Env} (d, env) r = cc e in
            subst
              (λ x.
                Kept (keypairs T) deployer_key x.0 x.1
                × Kept (keypairs T) deployer_key x.0
                    (load_env_deploy (some (save_env_deploy n.env_file env))))
              same (kept, Kept-saved (keypairs T) n.env_file deployer_key d env kept);
      }

  -- In every outcome of deploy.mjs after its first step, the deployer's secret is in the file, read back as it
  -- is: saved before any call of the network, and kept by every later save. The print of a
  -- drawn secret is a non-empty line that is read back, and so is the print of a scalar that stands under the
  -- key of an auditor.
  pub deploy-IsPersisted :
      (m : Machine World R) {d : Keypair} {env : Env}
      → IsPrintable (keypairs T)
      → IsPrintable (scalars V)
      → (open_deployer T D m).0 ≡ ok (d, env)
      → Rereads V custodian_key env
      → Rereads V view_key env
      → IsPersisted d (deploy T D m).1
  unfolding deploy
  deploy-IsPersisted m {d} {env} p q h r0 r1 =
      let (kept, in_file) = (open_deployer-Kept p).leaves m h in
      Keeps-from {P = IsPersisted d} _ _ m (d, env) h in_file
        (with_deployer-IsPersisted d env q r0 r1 kept)
