-- ===== src/Scripts/EnvFile.antt =====
-- The store of secrets of scripts/ct-flow/_shared.mjs, lines 136-155: `.env.deploy`, flat KEY=VALUE
-- lines. An object is its entries; the order of keys that are numbers is not modelled.
pub mod Lines
pub mod RoundTrip
use raiz_confidential_stack.Prelude.{
  ℕ, Text, codes, same_text, starts_with, Bool, not, ◌&&◌, ◌||◌, Option, none, some, List, [], ◌∷◌,
  ◌++◌, leb, ◌==◌, every, if◌then◌else◌,
}

abbrev pub Env : Type 0
Env = List (Text × Text)

unfoldable pub lookup : Text → Env → Option Text
lookup k [] = none
lookup k ((j, v) ∷ env) = if same_text k j then some v else lookup k env

-- `out[k] = v`
unfoldable pub insert : Text → Text → Env → Env
insert k v [] = (k, v) ∷ []
insert k v ((j, w) ∷ env) = if same_text k j then (j, v) ∷ env else (j, w) ∷ insert k v env

-- `{ ...env, ...update }`
unfoldable pub merge : Env → Env → Env
unfolding insert
merge env [] = env
merge env ((k, v) ∷ update) = merge (insert k v env) update

abbrev pub push_char : ℕ → List Text → List Text
push_char c [] = (c ∷ []) ∷ []
push_char c (l ∷ ls) = (c ∷ l) ∷ ls

-- `text.split(/\r?\n/)`
unfoldable pub split_lines : Text → List Text
split_lines [] = [] ∷ []
split_lines (c ∷ s) =
    let rest = split_lines s in
    if c == 10
    then [] ∷ rest
    else if c == 13 && starts_with s (10 ∷ [])
    then rest
    else push_char c rest

-- `[A-Z0-9_]`
unfoldable pub is_key_char : ℕ → Bool
is_key_char c = (leb b'A' c && leb c b'Z') || (leb b'0' c && leb c b'9') || c == b'_'

-- `.`: anything but a line terminator
unfoldable pub is_dot : ℕ → Bool
is_dot c = not (c == 10 || c == 13 || c == 0x2028 || c == 0x2029)

abbrev pub push_key : ℕ → Option (Text × Text) → Option (Text × Text)
push_key c none = none
push_key c (some (k, v)) = some (c ∷ k, v)

-- the keys' characters up to the first `=`, and what follows it
unfoldable pub split_entry : Text → Option (Text × Text)
unfolding is_key_char is_dot
split_entry [] = none
split_entry (c ∷ s) =
    let rest = split_entry s in
    if c == b'='
    then (if every is_dot s then some ([], s) else none)
    else if is_key_char c
    then push_key c rest
    else none

abbrev pub with_key : Option (Text × Text) → Option (Text × Text)
with_key none = none
with_key (some ([], v)) = none
with_key (some (c ∷ k, v)) = some (c ∷ k, v)

-- `line.match(/^([A-Z0-9_]+)=(.*)$/)`
unfoldable pub match_line : Text → Option (Text × Text)
unfolding split_entry
match_line line = with_key (split_entry line)

unfoldable pub load_lines : List Text → Env → Env
unfolding match_line insert
load_lines [] out = out
load_lines (line ∷ lines) out =
    load_lines lines (elim (match_line line) [ none ↦ out | some (k, v) ↦ insert k v out ])

-- `loadEnvDeploy()`, by the text of the file if it exists
unfoldable pub load_env_deploy : Option Text → Env
unfolding load_lines split_lines
load_env_deploy none = []
load_env_deploy (some text) = load_lines (split_lines text) []

abbrev pub banner : Text
banner = codes "# Session-4 CT flow secrets — TESTNET ONLY, friendbot play-money. NEVER commit."

-- `${k}=${v}`
abbrev pub entry_line : Text × Text → Text
entry_line (k, v) = k ++ b'=' ∷ v

-- `Object.entries(env).map(([k, v]) => `${k}=${v}`).join("\n")`
unfoldable pub join_entries : Env → Text
join_entries [] = []
join_entries (e ∷ []) = entry_line e
join_entries (e ∷ f ∷ env) = entry_line e ++ 10 ∷ join_entries (f ∷ env)

unfoldable pub body : Env → Text
unfolding join_entries
body env = banner ++ 10 ∷ (join_entries env ++ 10 ∷ [])

-- `saveEnvDeploy(update)`: the new text of the file
unfoldable pub save_env_deploy : Option Text → Env → Text
unfolding body merge load_env_deploy
save_env_deploy file update = body (merge (load_env_deploy file) update)
