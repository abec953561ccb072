-- ===== src/Scripts/Secrets.antt =====
-- Get-or-create of the secrets in `.env.deploy`: `ensureKeypair` and `ensureScalar` of
-- scripts/ct-flow/_shared.mjs, lines 155-169. The object `env` that they write to is passed and returned.
pub mod Stable
use raiz_confidential_stack.Prelude.{
  ℤ, Text, Option, none, some, [], ◌∷◌, Result, Io, pure, lift, ◌>>=◌,
}
use raiz_confidential_stack.Vendor.{Vendor}
use raiz_confidential_stack.Shim.Events.Raw.{big_int}
use raiz_confidential_stack.Scripts.EnvFile.{Env, lookup, insert}

-- A kind of secret: how one is drawn, printed and read, `Keypair.random`, `secret` and `fromSecret` of
-- the Stellar package.
pub record Secrets : Type 1 where
  pub World : Type 0
  pub Secret : Type 0
  pub draw : Io World Secret
  pub print : Secret → Text
  pub read : Text → Result Secret

-- `env[envKey]`, if it is true in a condition
unfoldable pub stored : Text → Env → Option Text
stored key env = elim (lookup key env) [
  | none ↦ none
  | some t ↦ elim t [ [] ↦ none | c ∷ s ↦ some (c ∷ s) ]
]

module _ (S : Secrets) where
  open S use {World, Secret, draw, print, read}

  -- a drawn secret, and the object with its print
  unfoldable pub keep : Text → Env → Secret → Secret × Env
  keep key env s = (s, insert key (print s) env)

  unfoldable pub ensure_keypair : Text → Env → Io World (Secret × Env)
  unfolding stored keep
  ensure_keypair key env = elim (stored key env) [
    | some t ↦ lift (read t) >>= λ s. pure (s, env)
    | none ↦ draw >>= λ s. pure (keep key env s)
  ]

-- The scalars, in hexadecimal; `BigInt(text)` reads them.
abbrev pub scalars : Vendor → Secrets
scalars V = record {
  World = V.World;
  Secret = ℤ;
  draw = V.random_scalar;
  print = V.to_hex32;
  read = big_int;
}

-- `ensureScalar` has the body of `ensureKeypair`, on scalars.
unfoldable pub ensure_scalar : (V : Vendor) → Text → Env → Io V.World (ℤ × Env)
unfolding ensure_keypair
ensure_scalar V = ensure_keypair (scalars V)
