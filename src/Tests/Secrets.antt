-- ===== src/Tests/Secrets.antt =====
-- A keypair that is drawn in one run and read in the next.
use raiz_confidential_stack.Prelude.{
  ℕ, Text, codes, same_text, Bool, true, false, Option, some, [], ◌∷◌, ok, suc, ◌≡◌, refl,
  if◌then◌else◌, starts_with,
}
use raiz_confidential_stack.Scripts.EnvFile.{
  Env, lookup, insert, load_env_deploy, load_lines, split_lines, match_line, split_entry,
  is_key_char, is_dot, save_env_deploy,
}
use raiz_confidential_stack.Scripts.EnvFile.Lines.{IsKey}
use raiz_confidential_stack.Scripts.Secrets.{Secrets, stored, keep, ensure_keypair}
use raiz_confidential_stack.Scripts.Secrets.Stable.{IsPrintable, ensure_keypair-saved}

-- Two secrets; every draw is counted.
abbrev coins : Secrets
coins = record {
  World = ℕ;
  Secret = Bool;
  draw = λ n. (ok true, suc n);
  print = λ b. if b then codes "S1" else codes "S2";
  read = λ t. if same_text t (codes "S1") then ok true else ok false;
}

coins-IsPrintable : IsPrintable coins
unfolding is_dot same_text
coins-IsPrintable w true drawn = (λ e. cc e, refl, refl)
coins-IsPrintable w false drawn = (λ e. cc e, refl, refl)

abbrev key : Text
key = codes "GOAL_SECRET"

abbrev file : Option Text
file = some (codes "# note\nA=1\n")

abbrev after : Env
after = (codes "A", codes "1") ∷ (key, codes "S1") ∷ []

key_valid : IsKey key
unfolding is_key_char
key_valid = (λ e. cc e, refl)

drawn : (ensure_keypair coins key (load_env_deploy file) 0).0 ≡ ok (true, after)
unfolding ensure_keypair stored keep lookup insert load_env_deploy load_lines split_lines match_line
    split_entry same_text starts_with is_dot is_key_char
drawn = refl

ensure_keypair-saved_example :
    let saved = load_env_deploy (some (save_env_deploy file after)) in
    ensure_keypair coins key saved 5 ≡ (ok (true, saved), 5)
ensure_keypair-saved_example =
    ensure_keypair-saved coins file key 0 5 coins-IsPrintable key_valid drawn
