-- ===== src/Scripts/Secrets/Stable.antt =====
-- Secrets across runs: scripts/ct-flow/_shared.mjs, lines 137-169.
use raiz_confidential_stack.Prelude.{
  Text, same_text, false, Option, none, some, [], ◌∷◌, arith, ◌≡◌, ◌≢◌, refl, ◌∙◌, sym,
  same_text_refl, same_text_iff, Bool-cases, inl, inr, ok, Io, lift, pure, ◌>>=◌, >>=-eq-ok,
  >>=-of_ok, ap,
}
use mathlib.Core.Path.{subst}
use raiz_confidential_stack.Scripts.EnvFile.{
  Env, lookup, insert, merge, load_env_deploy, save_env_deploy,
}
use raiz_confidential_stack.Scripts.EnvFile.Lines.{IsKey, IsLine}
use raiz_confidential_stack.Scripts.EnvFile.RoundTrip.{
  IsEnv, IsUpdate, insert-IsEnv, load_env_deploy-IsEnv, load_env_deploy-save_env_deploy,
}
use raiz_confidential_stack.Scripts.Secrets.{Secrets, stored, keep, ensure_keypair}

lookup-insert : (k v : Text) (env : Env) → lookup k (insert k v env) ≡ some v
unfolding lookup insert
lookup-insert k v [] = rw (same_text_refl k) refl
lookup-insert k v ((j, w) ∷ env) = ground (arith, lookup-insert k v env)

pub lookup-insert-elsewhere :
    (k j v : Text) (env : Env) → same_text k j ≡ false → lookup k (insert j v env) ≡ lookup k env
unfolding lookup insert
lookup-insert-elsewhere k j v [] d = rw d refl
lookup-insert-elsewhere k j v ((i, w) ∷ env) d =
    ground (arith, lookup-insert-elsewhere k j v env d, (same_text_iff j i).0)

lookup-merge-other :
    (k : Text) (env update : Env)
    → lookup k update ≡ none
    → lookup k (merge env update) ≡ lookup k env
unfolding lookup merge
lookup-merge-other k env [] h = refl
lookup-merge-other k env ((j, v) ∷ update) h = elim (Bool-cases (same_text k j)) [
  | inl e ↦ cc (h, e)
  | inr e ↦
      lookup-merge-other k (insert j v env) update (ground arith)
      ∙ lookup-insert-elsewhere k j v env e
]

-- An entry of the update is the one that stays.
lookup-merge :
    (k v : Text) (env update : Env)
    → IsEnv update
    → lookup k update ≡ some v
    → lookup k (merge env update) ≡ some v
unfolding lookup merge
lookup-merge k v env [] u h = cc h
lookup-merge k v env ((j, w) ∷ update) (_, fresh, u) h = elim (Bool-cases (same_text k j)) [
  | inl e ↦
      let same : k ≡ j = (same_text_iff k j).0 e in
      let found : w ≡ v = ground (arith, h, e) in
      lookup-merge-other k (insert j w env) update (cc (same, fresh))
      ∙ cc (same, found, lookup-insert j w env)
  | inr e ↦ lookup-merge k v (insert j w env) update u (ground (arith, h, e))
]

IsEnv-IsUpdate : (env : Env) → IsEnv env → IsUpdate env
IsEnv-IsUpdate [] h = tt
IsEnv-IsUpdate ((k, v) ∷ env) (hkv, _, h) = (hkv, IsEnv-IsUpdate env h)

stored-lookup : (k t : Text) (env : Env) → stored k env ≡ some t → lookup k env ≡ some t
unfolding stored
stored-lookup k t env h = go (lookup k env) h
  where
    go :
        (o : Option Text)
        → elim o [ none ↦ none | some t ↦ elim t [ [] ↦ none | c ∷ s ↦ some (c ∷ s) ] ] ≡ some t
        → o ≡ some t
    go none e = cc e
    go (some []) e = cc e
    go (some (c ∷ s)) e = e

stored-of_lookup : (k t : Text) (env : Env) → lookup k env ≡ some t → t ≢ [] → stored k env ≡ some t
unfolding stored
stored-of_lookup k [] env h filled = absurd (filled refl)
stored-of_lookup k (c ∷ t) env h filled = rw (h, stored) refl

pub stored-same :
    (k : Text) (env other : Env) → lookup k env ≡ lookup k other → stored k env ≡ stored k other
unfolding stored
stored-same k env other h =
    ap (λ o. elim o [ none ↦ none | some t ↦ elim t [ [] ↦ none | c ∷ s ↦ some (c ∷ s) ] ]) h

module _ (S : Secrets) where
  open S use {World, Secret, draw, print, read}

  -- The print of this secret is a line that is not empty, and is read back.
  abbrev pub PrintsBack : Secret → Type 0
  PrintsBack s = (print s ≢ []) × IsLine (print s) × (read (print s) ≡ ok s)

  -- So it is for every secret that is drawn.
  abbrev pub IsPrintable : Type 0
  IsPrintable = (w : World) (s : Secret) → (draw w).0 ≡ ok s → PrintsBack s

  -- What a run leaves in its object: the secret's text under the key, in an object that can be saved.
  abbrev pub Kept : Text → Secret → Env → Type 0
  Kept key s env = (t : Text) × (stored key env ≡ some t) × (read t ≡ ok s) × IsEnv env

  pub keep-Kept :
      (key : Text) (env : Env) (s : Secret)
      → PrintsBack s
      → IsKey key
      → IsEnv env
      → Kept key s (insert key (print s) env)
  keep-Kept key env s p is_key h = (
    print s,
    stored-of_lookup key (print s) (insert key (print s) env) (lookup-insert key (print s) env) p.0,
    p.2,
    insert-IsEnv key (print s) env is_key p.1 h,
  )

  pub ensure_keypair-Kept :
      (key : Text) (env : Env) (w : World) {s : Secret} {after : Env}
      → IsPrintable
      → IsKey key
      → IsEnv env
      → (ensure_keypair S key env w).0 ≡ ok (s, after)
      → Kept key s after
  unfolding ensure_keypair keep
  ensure_keypair-Kept key env w {s} {after} p is_key h e = go (stored key env) refl e
    where
      go :
          (o : Option Text)
          → stored key env ≡ o
          → (let run : Io World (Secret × Env) = elim o [
            | some t ↦ lift (read t) >>= λ s. pure (s, env)
            | none ↦ draw >>= λ s. pure (keep S key env s)
          ] in
              (run w).0 ≡ ok (s, after))
          → Kept key s after
      go (some t) found e =
          let (a, read_it, got) = >>=-eq-ok (lift (read t)) (λ s. pure (s, env)) w e in
          let same : ◌≡◌ {A = Secret × Env} (a, env) (s, after) = cc got in
          subst (λ r. Kept key r.0 r.1) same (t, found, read_it, h)
      go none _ e =
          let (a, drawn, got) = >>=-eq-ok draw (λ s. pure (keep S key env s)) w e in
          let same : ◌≡◌ {A = Secret × Env} (a, insert key (print a) env) (s, after) = cc got in
          subst (λ r. Kept key r.0 r.1) same (keep-Kept key env a (p w a drawn) is_key h)

  -- The secret under a key that is kept is the one that is given, without drawing.
  ensure_keypair-stored :
      (key : Text) (env : Env) (w : World) (s : Secret) (t : Text)
      → stored key env ≡ some t
      → read t ≡ ok s
      → ensure_keypair S key env w ≡ (ok (s, env), w)
  unfolding ensure_keypair
  ensure_keypair-stored key env w s t h r =
      rw (h, ensure_keypair) (>>=-of_ok (lift (read t)) (λ s. pure (s, env)) w s r)

  -- A secret that one run gets, from the file or drawn, and saves, is the secret that the next run gets
  -- from the file: nothing is drawn, and the entries are those of the file. The key matches `[A-Z0-9_]+`, and
  -- the print of a drawn secret is a non-empty line that is read back.
  pub ensure_keypair-saved :
      (file : Option Text) (key : Text) (w w' : World) {s : Secret} {env : Env}
      → IsPrintable
      → IsKey key
      → (ensure_keypair S key (load_env_deploy file) w).0 ≡ ok (s, env)
      → (let saved = load_env_deploy (some (save_env_deploy file env)) in
          ensure_keypair S key saved w' ≡ (ok (s, saved), w'))
  ensure_keypair-saved file key w w' {s} {env} p is_key h =
      let (t, found, readable, valid) =
        ensure_keypair-Kept key (load_env_deploy file) w p is_key (load_env_deploy-IsEnv file) h in
      rw (load_env_deploy-save_env_deploy file env (IsEnv-IsUpdate env valid)) (
        ensure_keypair-stored key (merge (load_env_deploy file) env) w' s t
          (stored-same key (merge (load_env_deploy file) env) env (
              lookup-merge key t (load_env_deploy file) env valid (stored-lookup key t env found)
              ∙ sym (stored-lookup key t env found))
            ∙ found)
          readable)

  -- The entries under other keys stay as they were.
  pub ensure_keypair-elsewhere :
      (key other : Text) (env : Env) (w : World) {s : Secret} {after : Env}
      → (ensure_keypair S key env w).0 ≡ ok (s, after)
      → same_text other key ≡ false
      → lookup other after ≡ lookup other env
  unfolding ensure_keypair keep
  ensure_keypair-elsewhere key other env w {s} {after} e d = go (stored key env) e
    where
      go :
          (o : Option Text)
          → (let run : Io World (Secret × Env) = elim o [
            | some t ↦ lift (read t) >>= λ s. pure (s, env)
            | none ↦ draw >>= λ s. pure (keep S key env s)
          ] in
              (run w).0 ≡ ok (s, after))
          → lookup other after ≡ lookup other env
      go (some t) e =
          let (a, _, got) = >>=-eq-ok (lift (read t)) (λ s. pure (s, env)) w e in
          let same : ◌≡◌ {A = Secret × Env} (a, env) (s, after) = cc got in
          ap (λ r. lookup other r.1) (sym same)
      go none e =
          let (a, _, got) = >>=-eq-ok draw (λ s. pure (keep S key env s)) w e in
          let same : ◌≡◌ {A = Secret × Env} (a, insert key (print a) env) (s, after) = cc got in
          ap (λ r. lookup other r.1) (sym same) ∙ lookup-insert-elsewhere other key (print a) env d

-- A secret that is kept is kept in the file that the entries are saved to.
module _ (S : Secrets) where
  pub Kept-saved :
      (file : Option Text) (key : Text) (s : S.Secret) (env : Env)
      → Kept S key s env
      → Kept S key s (load_env_deploy (some (save_env_deploy file env)))
  Kept-saved file key s env (t, found, readable, valid) = (
    t,
    stored-same key (load_env_deploy (some (save_env_deploy file env))) env (
          ap (lookup key) (load_env_deploy-save_env_deploy file env (IsEnv-IsUpdate env valid))
          ∙ lookup-merge key t (load_env_deploy file) env valid (stored-lookup key t env found)
          ∙ sym (stored-lookup key t env found))
        ∙ found,
    readable,
    load_env_deploy-IsEnv (some (save_env_deploy file env)),
  )

  -- A kept secret stays kept where its entry does.
  pub Kept-same :
      (key : Text) (s : S.Secret) (env after : Env)
      → lookup key after ≡ lookup key env
      → IsEnv after
      → Kept S key s env
      → Kept S key s after
  Kept-same key s env after same valid (t, found, readable, _) =
      (t, stored-same key after env same ∙ found, readable, valid)
