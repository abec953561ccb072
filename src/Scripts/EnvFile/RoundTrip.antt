-- ===== src/Scripts/EnvFile/RoundTrip.antt =====
-- Saving secrets and reading them again: scripts/ct-flow/_shared.mjs, lines 136-155.
use raiz_confidential_stack.Prelude.{
  Text, same_text, false, Option, none, some, List, [], ◌∷◌, ◌++◌, All, arith, ◌≡◌, refl, ◌∙◌, sym,
  append_assoc, append-nil, same_text_refl, same_text_iff, Bool-cases, inl, inr,
}
use raiz_confidential_stack.Scripts.EnvFile.{
  Env, lookup, insert, merge, split_lines, is_key_char, is_dot, split_entry, match_line, entry_line,
  load_lines, load_env_deploy, banner, join_entries, body, save_env_deploy,
}
use raiz_confidential_stack.Scripts.EnvFile.Lines.{
  IsKey, IsLine, split_lines-append, entry_line-IsLine, match_line-entry_line, IsMatch,
  match_line-IsMatch,
}

-- Entries that the file can hold, no key twice.
abbrev pub IsEnv : Env → Type 0
IsEnv [] = Unit
IsEnv ((k, v) ∷ env) = (IsKey k × IsLine v) × (lookup k env ≡ none) × IsEnv env

abbrev pub IsUpdate : Env → Type 0
IsUpdate = All (λ e. IsKey e.0 × IsLine e.1)

same_text-sym-false : (s t : Text) → same_text s t ≡ false → same_text t s ≡ false
same_text-sym-false s t h = elim (Bool-cases (same_text t s)) [
  | inl e ↦ cc (h, (same_text_iff t s).0 e, same_text_refl s)
  | inr e ↦ e
]

lookup-insert-other :
    (k j v : Text) (env : Env)
    → lookup k env ≡ none
    → same_text k j ≡ false
    → lookup k (insert j v env) ≡ none
unfolding lookup insert
lookup-insert-other k j v [] h d = rw d
lookup-insert-other k j v ((i, w) ∷ env) h d = ground (arith, lookup-insert-other k j v env)

insert-fresh : (k v : Text) (env : Env) → lookup k env ≡ none → insert k v env ≡ env ++ (k, v) ∷ []
unfolding lookup insert
insert-fresh k v [] h = refl
insert-fresh k v ((i, w) ∷ env) h = ground (arith, insert-fresh k v env)

pub insert-IsEnv :
    (k v : Text) (env : Env) → IsKey k → IsLine v → IsEnv env → IsEnv (insert k v env)
unfolding lookup insert
insert-IsEnv k v [] hk hv h = ((hk, hv), refl, tt)
insert-IsEnv k v ((i, w) ∷ env) hk hv h =
    ground
      (arith, insert-IsEnv k v env hk hv, lookup-insert-other i k v env, same_text-sym-false k i)

pub load_lines-IsEnv : (lines : List Text) (out : Env) → IsEnv out → IsEnv (load_lines lines out)
unfolding load_lines
load_lines-IsEnv [] out h = h
load_lines-IsEnv (line ∷ lines) out h =
    load_lines-IsEnv lines _ (go (match_line line) (match_line-IsMatch line))
  where
    go :
        (o : Option (Text × Text))
        → IsMatch o
        → IsEnv (elim o [ none ↦ out | some (k, v) ↦ insert k v out ])
    go none _ = h
    go (some (k, v)) (hk, hv) = insert-IsEnv k v out hk hv h

pub load_env_deploy-IsEnv : (file : Option Text) → IsEnv (load_env_deploy file)
unfolding load_env_deploy
load_env_deploy-IsEnv none = tt
load_env_deploy-IsEnv (some text) = load_lines-IsEnv (split_lines text) [] tt

merge-IsEnv : (env update : Env) → IsEnv env → IsUpdate update → IsEnv (merge env update)
unfolding merge
merge-IsEnv env [] h u = h
merge-IsEnv env ((k, v) ∷ update) h ((hk, hv), u) =
    merge-IsEnv (insert k v env) update (insert-IsEnv k v env hk hv h) u

-- No key of `env` stands in `out`.
Fresh : Env → Env → Type 0
Fresh out = All (λ e. lookup e.0 out ≡ none)

lookup-append-other :
    (k j v : Text) (out : Env)
    → lookup k out ≡ none
    → same_text k j ≡ false
    → lookup k (out ++ (j, v) ∷ []) ≡ none
unfolding lookup
lookup-append-other k j v [] h d = rw d
lookup-append-other k j v ((i, w) ∷ out) h d = ground (arith, lookup-append-other k j v out)

lookup-tail :
    (k j w : Text) (env : Env)
    → same_text k j ≡ false
    → lookup k ((j, w) ∷ env) ≡ none
    → lookup k env ≡ none
unfolding lookup
lookup-tail k j w env d h = ground arith

Fresh-append :
    (k v : Text) (out env : Env)
    → lookup k env ≡ none
    → Fresh out env
    → Fresh (out ++ (k, v) ∷ []) env
unfolding Fresh lookup
Fresh-append k v out [] h f = tt
Fresh-append k v out ((j, w) ∷ env) h (fj, f) = elim (Bool-cases (same_text k j)) [
  | inl e ↦ cc (h, e)
  | inr e ↦ (
    lookup-append-other j k v out fj (same_text-sym-false k j e),
    Fresh-append k v out env (lookup-tail k j w env e h) f,
  )
]

load_line-entry :
    (k v : Text) (lines : List Text) (out : Env)
    → IsKey k
    → IsLine v
    → lookup k out ≡ none
    → load_lines (entry_line (k, v) ∷ lines) out ≡ load_lines lines (out ++ (k, v) ∷ [])
unfolding load_lines
load_line-entry k v lines out hk hv h = rw (match_line-entry_line k v hk hv, insert-fresh k v out h)

load_blank : (out : Env) → load_lines (split_lines []) out ≡ out
unfolding load_lines split_lines match_line split_entry
load_blank out = refl

load_end : (out : Env) → load_lines (split_lines (10 ∷ [])) out ≡ out
unfolding load_lines split_lines match_line split_entry
load_end out = refl

load_banner :
    (lines : List Text) (out : Env) → load_lines (banner ∷ lines) out ≡ load_lines lines out
unfolding load_lines match_line split_entry is_key_char is_dot
load_banner lines out = refl

banner_lem : IsLine banner
unfolding is_dot
banner_lem = refl

load_lines-join_entries :
    (env out : Env)
    → IsEnv env
    → Fresh out env
    → load_lines (split_lines (join_entries env ++ 10 ∷ [])) out ≡ out ++ env
unfolding Fresh join_entries
load_lines-join_entries [] out h f = load_end out ∙ sym (append-nil out)
load_lines-join_entries ((k, v) ∷ []) out ((hk, hv), n, h) (fk, f) =
    rw (split_lines-append (entry_line (k, v)) [] (entry_line-IsLine k v hk hv))
      (load_line-entry k v (split_lines []) out hk hv fk ∙ load_blank (out ++ (k, v) ∷ []))
load_lines-join_entries ((k, v) ∷ e ∷ env) out ((hk, hv), n, h) (fk, f) =
    rw
      (
        append_assoc (entry_line (k, v)) (10 ∷ join_entries (e ∷ env)) (10 ∷ []),
        split_lines-append (entry_line (k, v)) (join_entries (e ∷ env) ++ 10 ∷ [])
            (entry_line-IsLine k v hk hv),
      )
      (load_line-entry k v (split_lines (join_entries (e ∷ env) ++ 10 ∷ [])) out hk hv fk
        ∙ load_lines-join_entries (e ∷ env) (out ++ (k, v) ∷ []) h
            (Fresh-append k v out (e ∷ env) n f)
        ∙ append_assoc out ((k, v) ∷ []) (e ∷ env))

Fresh-nil : (env : Env) → Fresh [] env
unfolding Fresh lookup
Fresh-nil [] = tt
Fresh-nil (e ∷ env) = (refl, Fresh-nil env)

load_body : (env : Env) → IsEnv env → load_env_deploy (some (body env)) ≡ env
unfolding load_env_deploy body Fresh
load_body env h = rw (split_lines-append banner (join_entries env ++ 10 ∷ []) banner_lem) (
    load_banner (split_lines (join_entries env ++ 10 ∷ [])) []
    ∙ load_lines-join_entries env [] h (Fresh-nil env))

-- Reading the text that `saveEnvDeploy` wrote gives the old entries with the update merged into
-- them, in the order of `{ ...env, ...update }`, whatever the file held before, if every key of the
-- update matches `[A-Z0-9_]+` and no value has a line terminator.
pub load_env_deploy-save_env_deploy :
    (file : Option Text) (update : Env)
    → IsUpdate update
    → load_env_deploy (some (save_env_deploy file update)) ≡ merge (load_env_deploy file) update
unfolding save_env_deploy
load_env_deploy-save_env_deploy file update h =
    load_body (merge (load_env_deploy file) update)
      (merge-IsEnv (load_env_deploy file) update (load_env_deploy-IsEnv file) h)
