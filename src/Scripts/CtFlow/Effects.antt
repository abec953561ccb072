-- ===== src/Scripts/CtFlow/Effects.antt =====
-- Calls that leave the disk alone: rules for scripts/ct-flow.
use mathlib.Core.Path.{subst}
use raiz_confidential_stack.Scripts.EnvFile.Lines.{IsKey}
use raiz_confidential_stack.Scripts.Secrets.Stable.{
  ensure_keypair-elsewhere, ensure_keypair-Kept, Kept, IsPrintable,
}
use raiz_confidential_stack.Scripts.EnvFile.{lookup, load_env_deploy, Env}
use raiz_confidential_stack.Scripts.EnvFile.RoundTrip.{load_env_deploy-IsEnv, IsEnv}
use raiz_confidential_stack.Scripts.Secrets.{ensure_keypair, Secrets}
use raiz_confidential_stack.Prelude.{false, same_text, Text, Option, Io, ◌≡◌}
use raiz_confidential_stack.Scripts.Calls.{Ensures, Keeps}
use raiz_confidential_stack.Scripts.CtFlow.{load_env, outside}

module _ {W R A : Type 0} where
  -- What is said of the secrets' file alone is kept by every call that is outside of the disk.
  pub Keeps-outside :
      (P : Option Text → Type 0) (m : Io W A) → Keeps (λ s. P s.env_file) (outside {R = R} m)
  unfolding outside
  Keeps-outside P m = record { kept = λ s h. h }

  pub Ensures-outside : {P : A → Type 0} (m : Io W A) → Ensures P m → Ensures P (outside {R = R} m)
  unfolding outside
  Ensures-outside m e = record { at = λ s h. e.at s.world h }

module _ {W R : Type 0} where
  pub load_env-IsEnv : Ensures IsEnv (load_env {W = W} {R = R})
  unfolding load_env
  load_env-IsEnv = record {
    at = λ m {a = env} h.
        let read : load_env_deploy m.env_file ≡ env = cc h in
        subst IsEnv read (load_env_deploy-IsEnv m.env_file);
  }

module _ {R : Type 0} where
  -- A secret is kept under its key, and the other entries stay.
  pub ensured :
      (Q : Secrets) (key : Text) (env : Env)
      → IsPrintable Q
      → IsKey key
      → IsEnv env
      → Ensures
          (λ (r : Q.Secret × Env).
            Kept Q key r.0 r.1
            × ((other : Text) → same_text other key ≡ false → lookup other r.1 ≡ lookup other env))
          (outside {R = R} (ensure_keypair Q key env))
  unfolding outside
  ensured Q key env p is_key valid = record {
    at = λ m {a = r} h. (
      ensure_keypair-Kept Q key env m.world p is_key valid h,
      λ other d. ensure_keypair-elsewhere Q key other env m.world h d,
    );
  }
