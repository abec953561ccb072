-- ===== src/Scripts/CtFlow/Deploy/Deployed.antt =====
-- What deploy.mjs leaves on the disk when it ends well.
use raiz_confidential_stack.Prelude.{
  ℕ, ℤ, Text, codes, true, false, same_text, starts_with, Option, some, [], ◌∷◌, ◌≡◌,
}
use raiz_confidential_stack.Vendor.{Vendor}
use raiz_confidential_stack.Scripts.EnvFile.{Env, lookup, load_env_deploy, save_env_deploy}
use raiz_confidential_stack.Scripts.Secrets.{scalars}
use raiz_confidential_stack.Scripts.Secrets.Stable.{Kept}
use raiz_confidential_stack.Scripts.CtFlow.{Toolkit, DeploymentJson, AuditorKey, Machine}
use raiz_confidential_stack.Scripts.CtFlow.Deploy.{custodian_key, view_key, auditor_entry}
use raiz_confidential_stack.Scripts.CtFlow.Contracts.{DeployTools, Contracts}

-- Ids of contracts.
abbrev pub IsId : Text → Type 0
IsId id = starts_with id (codes "C") ≡ true

module _ {V : Vendor} (T : Toolkit V) (D : DeployTools T) where
  open V use {World, to_hex32}
  open T use {Keypair, Signer, wait}

  abbrev HasIds : Contracts → Type 0
  HasIds c = IsId c.token × IsId c.verifier × IsId c.auditor

  module _ {R : Type 0} where
    -- A saved secret, and the auditor's key that is its public key.
    abbrev IsAuditor : ℕ → Text → Text → Env → AuditorKey × Env → Machine World R → Type 0
    IsAuditor id key label env r n =
        (k : ℤ) × (r.0 ≡ auditor_entry T D id label k)
        × Kept (scalars V) key k r.1
        × ((other : Text) → same_text other key ≡ false → lookup other r.1 ≡ lookup other env)
        × ((f : Option Text) × (n.env_file ≡ some (save_env_deploy f r.1)))

    -- The record on the disk: its contracts have the ids of contracts, and its two auditors' keys are the
    -- public keys of the secrets in the file.
    pub record IsDeployed (n : Machine World R) : Type 0 where
      pub dep : DeploymentJson
      pub on_disk : n.deployment ≡ some dep
      pub ids : IsId dep.token × IsId dep.verifier × IsId dep.auditor
      pub custodian : ℤ
      pub goal_view : ℤ
      pub keys :
          dep.auditor_keys
          ≡ auditor_entry T D 0 (codes "custodian (private)") custodian
            ∷ auditor_entry T D 1 (codes "goal view key (to be published)") goal_view
            ∷ []
      pub custodian_kept : Kept (scalars V) custodian_key custodian (load_env_deploy n.env_file)
      pub goal_view_kept : Kept (scalars V) view_key goal_view (load_env_deploy n.env_file)
