-- ===== src/Scripts/EnvFile/Lines.antt =====
-- Lines of a store and their entries: scripts/ct-flow/_shared.mjs.
use raiz_confidential_stack.Prelude.{
  if◌then◌else◌, ◌≢◌, ℕ, Text, Bool, true, false, Option, none, some, [], ◌∷◌, ◌++◌, arith, every,
  ◌≡◌, refl, ◌==◌,
}
use raiz_confidential_stack.Scripts.EnvFile.{
  with_key, push_key, split_lines, is_key_char, is_dot, split_entry, match_line, entry_line,
}

-- A key and a value that the file can hold.
abbrev pub IsKey : Text → Type 0
IsKey k = (k ≢ []) × (every is_key_char k ≡ true)

abbrev pub IsLine : Text → Type 0
IsLine v = every is_dot v ≡ true

pub split_lines-append :
    (l rest : Text) → every is_dot l ≡ true → split_lines (l ++ 10 ∷ rest) ≡ l ∷ split_lines rest
unfolding split_lines is_dot
split_lines-append [] rest h = refl
split_lines-append (c ∷ l) rest h = ground (arith, split_lines-append l rest)

key_char_dot : (c : ℕ) → is_key_char c ≡ true → is_dot c ≡ true
unfolding is_key_char is_dot
key_char_dot c h = ground arith

every-key-dot : (k : Text) → every is_key_char k ≡ true → every is_dot k ≡ true
every-key-dot [] h = refl
every-key-dot (c ∷ k) h = ground (arith, key_char_dot c, every-key-dot k)

split_entry-entry_line :
    (k v : Text)
    → every is_key_char k ≡ true
    → IsLine v
    → split_entry (entry_line (k, v)) ≡ some (k, v)
unfolding split_entry is_key_char
split_entry-entry_line [] v h l = rw l
split_entry-entry_line (c ∷ k) v h l = ground (arith, split_entry-entry_line k v)

pub match_line-entry_line :
    (k v : Text) → IsKey k → IsLine v → match_line (entry_line (k, v)) ≡ some (k, v)
unfolding match_line
match_line-entry_line [] v h l = absurd (h.0 refl)
match_line-entry_line (c ∷ k) v h l = rw (split_entry-entry_line (c ∷ k) v h.1 l)

pub entry_line-IsLine : (k v : Text) → IsKey k → IsLine v → IsLine (entry_line (k, v))
unfolding is_dot
entry_line-IsLine k v h l = go k h.1
  where
    go : (j : Text) → every is_key_char j ≡ true → IsLine (entry_line (j, v))
    go [] _ = l
    go (c ∷ j) e = ground (arith, key_char_dot c, go j)

-- What a split or a match gives, where it gives something.
IsSplit : Option (Text × Text) → Type 0
IsSplit none = Unit
IsSplit (some (k, v)) = (every is_key_char k ≡ true) × IsLine v

abbrev pub IsMatch : Option (Text × Text) → Type 0
IsMatch none = Unit
IsMatch (some (k, v)) = IsKey k × IsLine v

push_key-IsSplit :
    (c : ℕ) (o : Option (Text × Text)) → is_key_char c ≡ true → IsSplit o → IsSplit (push_key c o)
unfolding IsSplit
push_key-IsSplit c none h o = tt
push_key-IsSplit c (some (k, v)) h (hk, hv) = (rw h hk, hv)

if-IsSplit :
    (b : Bool) (o p : Option (Text × Text))
    → (b ≡ true → IsSplit o)
    → (b ≡ false → IsSplit p)
    → IsSplit (if b then o else p)
if-IsSplit true o p h k = h refl
if-IsSplit false o p h k = k refl

split_entry-IsSplit : (s : Text) → IsSplit (split_entry s)
unfolding split_entry IsSplit
split_entry-IsSplit [] = tt
split_entry-IsSplit (c ∷ s) =
    if-IsSplit (c == b'=') _ _ (λ _. if-IsSplit (every is_dot s) _ _ (λ h. (refl, h)) (λ _. tt))
      (λ _.
        if-IsSplit (is_key_char c) _ _
          (λ h. push_key-IsSplit c (split_entry s) h (split_entry-IsSplit s)) (λ _. tt))

with_key-IsMatch : (o : Option (Text × Text)) → IsSplit o → IsMatch (with_key o)
unfolding IsSplit
with_key-IsMatch none h = tt
with_key-IsMatch (some ([], v)) h = tt
with_key-IsMatch (some (c ∷ k, v)) (hk, hv) = ((λ e. cc e, hk), hv)

pub match_line-IsMatch : (s : Text) → IsMatch (match_line s)
unfolding match_line
match_line-IsMatch s = with_key-IsMatch (split_entry s) (split_entry-IsSplit s)
