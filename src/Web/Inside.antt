-- ===== src/Web/Inside.antt =====
-- Every request to the preview server of web/serve.mjs is answered with a file below its directory, or with 404.
use raiz_confidential_stack.Prelude.{
  ℕ, Text, codes, same_text, starts_with, true, ◌==◌, Option, none, some, List, [], ◌∷◌, ◌++◌, All,
  Option-cases, Bool-cases, if◌then◌else◌, ◌≡◌, ◌⊎◌, inl, inr, refl, ap, sym, ◌∙◌, arith,
  append-nil,
}
use mathlib.Core.Path.{subst}
use raiz_confidential_stack.Scripts.ContentType.{type_of}
use raiz_confidential_stack.Scripts.Paths.{segments, render}
use raiz_confidential_stack.Scripts.Paths.Normal.{IsStep, IsInside}
use raiz_confidential_stack.Scripts.Paths.Below.{IsName, join-IsInside}
use raiz_confidential_stack.Web.{
  missing, served, types, strip_slashes, file_of, answer_with, handle,
}

starts_with-append : (p x : Text) → starts_with (p ++ x) p ≡ true
unfolding starts_with
starts_with-append [] x = refl
starts_with-append (c ∷ p) x = ground (arith, starts_with-append p x)

starts_with-IsInside : (root p : Text) → IsInside root p → starts_with p root ≡ true
starts_with-IsInside root p (inl e) =
    ap (λ x. starts_with x root) (e ∙ sym (append-nil root)) ∙ starts_with-append root []
starts_with-IsInside root p (inr (rest, e, _)) =
    ap (λ x. starts_with x root) e ∙ starts_with-append root (b'/' ∷ rest)

strip_slashes-IsStep :
    (rel : Text) → All IsStep (segments rel) → All IsStep (segments (strip_slashes rel))
unfolding segments strip_slashes
strip_slashes-IsStep [] a = a
strip_slashes-IsStep (c ∷ rel) a = elim (Bool-cases (c == b'/')) [
  | inl e ↦ rw e (strip_slashes-IsStep rel (rw e at a).1)
  | inr e ↦ subst (λ t. All IsStep (segments (if t then strip_slashes rel else c ∷ rel))) (sym e) a
]

-- The directory of the page: one name at least.
module _ (s : Text) (segs : List Text) (name : IsName s) (names : All IsName segs) where
  file_of-IsInside :
      (rel : Text)
      → All IsStep (segments rel)
      → IsInside (render (s ∷ segs)) (file_of (render (s ∷ segs)) rel)
  unfolding file_of segments
  file_of-IsInside rel a = elim (Bool-cases (same_text rel (codes "/"))) [
    | inl e ↦ rw e (join-IsInside s segs name names (codes "index.html") ((λ d. cc d), tt))
    | inr e ↦
        rw e (join-IsInside s segs name names (strip_slashes rel) (strip_slashes-IsStep rel a))
  ]

  -- Where the path of the URL has no segment `..`, which a URL's parser removes, the preview server never answers
  -- with 403: the file that it looks for is its directory or stays below it without any `..`, and the answer is what
  -- stands in that file, or 404 where nothing can be read.
  pub handle-IsAnswered :
      (read : Text → Option (List ℕ)) (rel : Text)
      → All IsStep (segments rel)
      → (file : Text) × IsInside (render (s ∷ segs)) file
        × (((read file ≡ none) × (handle (render (s ∷ segs)) read rel ≡ missing rel))
            ⊎ ((body : List ℕ) × (read file ≡ some body)
                × (handle (render (s ∷ segs)) read rel ≡ served file (type_of types file) body)))
  unfolding handle answer_with
  handle-IsAnswered read rel a =
      let file = file_of (render (s ∷ segs)) rel in
      let inside = file_of-IsInside rel a in
      let passes = starts_with-IsInside (render (s ∷ segs)) file inside in
      (
        file,
        inside,
        elim (Option-cases (read file)) [
          | inl e ↦ inl (e, rw (passes, e) refl)
          | inr (body, e) ↦ inr (body, e, rw (passes, e) refl)
        ],
      )
