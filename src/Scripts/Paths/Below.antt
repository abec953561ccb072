-- ===== src/Scripts/Paths/Below.antt =====
-- A path that is joined to a normal root and has no `..` of its own stays below the root.
use raiz_confidential_stack.Prelude.{
  Text, codes, same_text, same_text_iff, Bool, true, false, ◌||◌, List, [], ◌∷◌, ◌++◌, All, ◌≡◌,
  inl, inr, refl, ap, sym, ◌∙◌, Bool-cases, append-nil, append_assoc,
}
use mathlib.Core.Path.{subst}
use raiz_confidential_stack.Scripts.Paths.{
  backwards, segments, resolve, render, ends_with_slash, rendered, normalize, join,
}
use raiz_confidential_stack.Scripts.Paths.Normal.{
  IsStep, IsKept, IsSegment, IsInside, IsRest, segments-append, segments-alone, segments-All,
  render-All, no_dots,
}

-- A segment of a normal path: a name that is neither empty nor a dot, and no `..`.
abbrev pub IsName : Text → Type 0
IsName s = ((same_text s [] || same_text s (codes ".")) ≡ false) × IsKept s

IsKept-of_names : (segs : List Text) → All IsName segs → All IsKept segs
IsKept-of_names [] a = tt
IsKept-of_names (s ∷ segs) ((_, k), a) = (k, IsKept-of_names segs a)

-- The root of a path, segment by segment.
segments-behind :
    (s : Text) (segs : List Text) (rel : Text)
    → IsName s
    → All IsName segs
    → segments (s ++ (render segs ++ b'/' ∷ rel)) ≡ s ∷ (segs ++ segments rel)
unfolding render
segments-behind s [] rel (_, (_, plain)) a = segments-append s rel plain
segments-behind s (t ∷ segs) rel (_, (_, plain)) (name, a) =
    let behind = t ++ (render segs ++ b'/' ∷ rel) in
    ap (λ x. segments (s ++ b'/' ∷ x)) (append_assoc t (render segs) (b'/' ∷ rel))
    ∙ segments-append s behind plain
    ∙ ap (λ x. s ∷ x) (segments-behind t segs rel name a)

resolve-names :
    (segs rest out : List Text)
    → All IsName segs
    → resolve (segs ++ rest) out ≡ resolve rest (backwards segs out)
unfolding resolve
resolve-names [] rest out a = refl
resolve-names (s ∷ segs) rest out ((filled, (step, _)), a) =
    elim (Bool-cases (same_text s (codes ".."))) [
      | inl up ↦ absurd (step ((same_text_iff s (codes "..")).0 up))
      | inr on ↦ rw (filled, on) (resolve-names segs rest (s ∷ out) a)
    ]

-- Segments without `..` only add to what stands.
resolve-adds :
    (rest out : List Text)
    → All IsStep rest
    → All IsSegment rest
    → (more : List Text) × All IsName more × (resolve rest out ≡ backwards more out)
unfolding resolve
resolve-adds [] out a b = ([], tt, refl)
resolve-adds (s ∷ rest) out (step, a) (plain, b) =
    elim (Bool-cases (same_text s [] || same_text s (codes "."))) [
      | inl e ↦ rw e (resolve-adds rest out a b)
      | inr e ↦
          (let (more, names, h) = resolve-adds rest (s ∷ out) a b in
            elim (Bool-cases (same_text s (codes ".."))) [
              | inl up ↦ absurd (step ((same_text_iff s (codes "..")).0 up))
              | inr on ↦ rw (e, on) (s ∷ more, ((e, (step, plain)), names), h)
            ])
    ]

backwards-backwards :
    (xs out acc : List Text) → backwards (backwards xs out) acc ≡ backwards out (xs ++ acc)
backwards-backwards [] out acc = refl
backwards-backwards (x ∷ xs) out acc = backwards-backwards xs (x ∷ out) acc

render-append : (xs ys : List Text) → render (xs ++ ys) ≡ render xs ++ render ys
unfolding render
render-append [] ys = refl
render-append (x ∷ xs) ys =
    ap (λ r. b'/' ∷ (x ++ r)) (render-append xs ys)
    ∙ ap (λ r. b'/' ∷ r) (sym (append_assoc x (render xs) (render ys)))

segments-whole :
    (s : Text) (segs : List Text)
    → IsName s
    → All IsName segs
    → segments (s ++ render segs) ≡ s ∷ segs
unfolding render
segments-whole s [] (_, (_, plain)) a = ap segments (append-nil s) ∙ segments-alone s plain
segments-whole s (t ∷ segs) (_, (_, plain)) (name, a) =
    segments-append s (t ++ render segs) plain ∙ ap (λ x. s ∷ x) (segments-whole t segs name a)

-- A root, more segments behind it, and what may end a path.
behind-IsInside :
    (root : Text) (more : List Text) (x : Text)
    → All IsKept more
    → IsRest x
    → All IsStep (segments x)
    → IsInside root (root ++ (render more ++ x))
unfolding render segments
behind-IsInside root [] x k (inl e) a = inl (ap (λ y. root ++ y) e ∙ append-nil root)
behind-IsInside root [] x k (inr (y, e)) a =
    let steps : All IsStep (segments (b'/' ∷ y)) = subst (λ z. All IsStep (segments z)) e a in
    inr (y, ap (λ z. root ++ z) e, steps.1)
behind-IsInside root (m ∷ more) x k r a =
    inr ((m ++ render more) ++ x, refl, (render-All (m ∷ more) x k r a).1)

rendered-IsInside :
    (s : Text) (segs more : List Text) (slash : Bool)
    → All IsKept more
    → IsInside (render (s ∷ segs)) (rendered ((s ∷ segs) ++ more) slash)
unfolding segments
rendered-IsInside s segs more true k =
    subst (IsInside (render (s ∷ segs)))
      (sym (
        ap (λ r. r ++ codes "/") (render-append (s ∷ segs) more)
        ∙ append_assoc (render (s ∷ segs)) (render more) (codes "/")))
      (behind-IsInside (render (s ∷ segs)) more (codes "/") k (inr ([], refl))
        (no_dots, (no_dots, tt)))
rendered-IsInside s segs more false k =
    subst (IsInside (render (s ∷ segs)))
      (ap (λ r. render (s ∷ segs) ++ r) (append-nil (render more))
        ∙ sym (render-append (s ∷ segs) more))
      (behind-IsInside (render (s ∷ segs)) more [] k (inl refl) (no_dots, tt))

-- A normal root: one segment at least, and all of them names.
module _ (s : Text) (segs : List Text) (name : IsName s) (names : All IsName segs) where
  stands :
      (rest : List Text)
      → All IsStep rest
      → All IsSegment rest
      → (more : List Text) × All IsKept more
        × (backwards (resolve ((s ∷ segs) ++ rest) []) [] ≡ (s ∷ segs) ++ more)
  stands rest a b =
      let (more, kept, h) = resolve-adds rest (backwards (s ∷ segs) []) a b in
      (
        more,
        IsKept-of_names more kept,
        ap (λ x. backwards x []) (resolve-names (s ∷ segs) rest [] (name, names) ∙ h)
            ∙ backwards-backwards more (backwards (s ∷ segs) []) []
            ∙ backwards-backwards (s ∷ segs) [] (more ++ [])
            ∙ ap (λ x. (s ∷ segs) ++ x) (append-nil more),
      )

  normalize-IsInside :
      (p : Text) (rest : List Text)
      → segments p ≡ [] ∷ ((s ∷ segs) ++ rest)
      → All IsStep rest
      → All IsSegment rest
      → IsInside (render (s ∷ segs)) (normalize p)
  unfolding normalize resolve same_text
  normalize-IsInside p rest h a b =
      let (more, kept, e) = stands rest a b in
      let shown : backwards (resolve (segments p) []) [] ≡ (s ∷ segs) ++ more =
        ap (λ x. backwards (resolve x []) []) h ∙ e in
      subst (λ x. IsInside (render (s ∷ segs)) (rendered x (ends_with_slash p))) (sym shown)
        (rendered-IsInside s segs more (ends_with_slash p) kept)

  pub join-IsInside :
      (rel : Text)
      → All IsStep (segments rel)
      → IsInside (render (s ∷ segs)) (join (render (s ∷ segs)) rel)
  unfolding join render segments
  join-IsInside [] a =
      normalize-IsInside (render (s ∷ segs)) []
        (ap (λ x. [] ∷ x) (segments-whole s segs name names ∙ sym (append-nil (s ∷ segs)))) tt tt
  join-IsInside (c ∷ rel) a =
      normalize-IsInside (render (s ∷ segs) ++ b'/' ∷ c ∷ rel) (segments (c ∷ rel))
        (ap (λ x. [] ∷ segments x) (append_assoc s (render segs) (b'/' ∷ c ∷ rel))
          ∙ ap (λ x. [] ∷ x) (segments-behind s segs (c ∷ rel) name names))
        a (segments-All (c ∷ rel))
