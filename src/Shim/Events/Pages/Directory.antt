-- ===== src/Shim/Events/Pages/Directory.antt =====
-- `baseUrl.replace(/\/?$/, "/")` (raiz-shim.js, line 645) against what a directory's address is.
use raiz_confidential_stack.Prelude.{
  ◌==◌, ==_iff, inr, inl, Bool-cases, ◌∙◌, ℕ, Text, [], ◌∷◌, ◌++◌, ◌≡◌, refl, ap,
}
use raiz_confidential_stack.Shim.Events.Pages.{with_slash}
use raiz_confidential_stack.Shim.Events.Pages.History.{IsDirectory, as_it_is, with_one_more}

with_slash-cons :
    (c : ℕ) (path : Text) → with_slash (c ∷ path ++ b'/' ∷ []) ≡ c ∷ with_slash (path ++ b'/' ∷ [])
unfolding with_slash
with_slash-cons c [] = refl
with_slash-cons c (d ∷ path) = refl

with_slash-slash : (path : Text) → with_slash (path ++ b'/' ∷ []) ≡ path ++ b'/' ∷ []
unfolding with_slash
with_slash-slash [] = refl
with_slash-slash (c ∷ path) = with_slash-cons c path ∙ ap (λ r. c ∷ r) (with_slash-slash path)

with_slash-other :
    (url : Text) → ((path : Text) → ¬ (url ≡ path ++ b'/' ∷ [])) → with_slash url ≡ url ++ b'/' ∷ []
unfolding with_slash
with_slash-other [] h = refl
with_slash-other (c ∷ []) h = elim (Bool-cases (c == b'/')) [
  | inl e ↦ absurd (h [] (ap (λ x. x ∷ []) ((==_iff c b'/').0 e)))
  | inr e ↦ rw e refl
]
with_slash-other (c ∷ d ∷ url) h =
    ap (λ r. c ∷ r) (with_slash-other (d ∷ url) (λ path e. h (c ∷ path) (ap (λ r. c ∷ r) e)))

pub with_slash-IsDirectory : (url base : Text) → IsDirectory url base → with_slash url ≡ base
with_slash-IsDirectory _ _ (as_it_is path) = with_slash-slash path
with_slash-IsDirectory url _ (with_one_more url' h) = with_slash-other url h
