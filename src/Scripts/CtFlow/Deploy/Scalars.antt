-- ===== src/Scripts/CtFlow/Deploy/Scalars.antt =====
-- The auditors' scalars of deploy.mjs, lines 141-143, which are written back in hexadecimal.
use raiz_confidential_stack.Prelude.{
  Io, ℤ, Text, same_text, false, Option, none, some, ok, ◌≡◌, refl, sym, ◌∙◌,
}
use raiz_confidential_stack.Vendor.{Vendor}
use raiz_confidential_stack.Shim.Events.Raw.{big_int}
use raiz_confidential_stack.Scripts.EnvFile.{Env, lookup, insert}
use raiz_confidential_stack.Scripts.EnvFile.Lines.{IsKey}
use raiz_confidential_stack.Scripts.Calls.{Ensures, lift}
use raiz_confidential_stack.Scripts.Secrets.{Secrets, scalars, stored}
use raiz_confidential_stack.Scripts.Secrets.Stable.{
  IsPrintable, PrintsBack, Kept, Kept-same, keep-Kept, lookup-insert-elsewhere, stored-same,
}
use raiz_confidential_stack.Scripts.CtFlow.{Toolkit}
use raiz_confidential_stack.Scripts.CtFlow.Deploy.{auditor_scalar}
use raiz_confidential_stack.Scripts.CtFlow.Contracts.{DeployTools}

module _ (V : Vendor) where
  -- The scalar that stands under the key, if one does, is read back after it has been printed anew.
  abbrev pub Rereads : Text → Env → Type 0
  Rereads key env =
      (t : Text) (k : ℤ) → stored key env ≡ some t → big_int t ≡ ok k → PrintsBack (scalars V) k

  pub Rereads-same :
      (key : Text) (env after : Env)
      → lookup key after ≡ lookup key env
      → Rereads key env
      → Rereads key after
  Rereads-same key env after same r t k found read =
      r t k (sym (stored-same key after env same) ∙ found) read

  -- A secret of another kind stays kept when a scalar is written under another key.
  pub insert-Kept :
      (S : Secrets) (own : Text) (d : S.Secret) (key : Text) (k : ℤ) (env : Env)
      → PrintsBack (scalars V) k
      → IsKey key
      → same_text own key ≡ false
      → Kept S own d env
      → Kept S own d (insert key (V.to_hex32 k) env)
  insert-Kept S own d key k env back is_key other h =
      Kept-same S own d env (insert key (V.to_hex32 k) env)
        (lookup-insert-elsewhere own key (V.to_hex32 k) env other)
        (keep-Kept (scalars V) key env k back is_key h.3).3 h

  pub auditor_scalar-PrintsBack :
      {T : Toolkit V} (D : DeployTools T) (key : Text) (env : Env)
      → IsPrintable (scalars V)
      → Rereads key env
      → Ensures (PrintsBack (scalars V)) (auditor_scalar T D key env)
  unfolding auditor_scalar lift
  auditor_scalar-PrintsBack D key env p r = record {
    at = λ w {a = k} h. go w k (stored key env) (r) h;
  }
    where
      go :
          (w : V.World) (k : ℤ) (o : Option Text)
          → ((t : Text) (k : ℤ) → o ≡ some t → big_int t ≡ ok k → PrintsBack (scalars V) k)
          → (let run : Io V.World ℤ = elim o [
            | some t ↦ lift (big_int t)
            | none ↦ V.random_scalar
          ] in
              (run w).0 ≡ ok k)
          → PrintsBack (scalars V) k
      go w k (some t) r h = r t k refl h
      go w k none r h = p w k h
