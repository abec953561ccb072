-- ===== src/Scripts/Paths/Normal.antt =====
-- A normalized path has no `..` in it.
use raiz_confidential_stack.Prelude.{
  ==_iff, ℕ, Text, codes, same_text, same_text_iff, starts_with, Bool, true, false, not, ◌||◌, ◌==◌,
  List, [], ◌∷◌, ◌++◌, every, All, ◌≡◌, ◌≢◌, ◌⊎◌, inl, inr, refl, sym, arith, Bool-cases,
  append-nil, append_assoc,
}
use mathlib.Core.Path.{subst}
use raiz_confidential_stack.Scripts.Paths.{
  backwards, push_char, tail, segments, resolve, render, ends_with_slash, rendered, normalize,
}

abbrev pub not_slash : ℕ → Bool
not_slash c = not (c == b'/')

-- A segment that stays where it is.
abbrev pub IsStep : Text → Type 0
IsStep s = s ≢ codes ".."

abbrev pub IsSegment : Text → Type 0
IsSegment s = every not_slash s ≡ true

pub segments-append :
    (s rest : Text) → every not_slash s ≡ true → segments (s ++ b'/' ∷ rest) ≡ s ∷ segments rest
unfolding segments
segments-append [] rest h = refl
segments-append (c ∷ s) rest h = ground (arith, segments-append s rest)

pub segments-alone : (s : Text) → every not_slash s ≡ true → segments s ≡ s ∷ []
unfolding segments
segments-alone [] h = refl
segments-alone (c ∷ s) h = ground (arith, segments-alone s)

push_char-All :
    (c : ℕ) (segs : List Text)
    → not_slash c ≡ true
    → All IsSegment segs
    → All IsSegment (push_char c segs)
push_char-All c [] h a = (rw h refl, tt)
push_char-All c (s ∷ segs) h (hs, a) = (rw h hs, a)

pub segments-All : (p : Text) → All IsSegment (segments p)
unfolding segments
segments-All [] = (refl, tt)
segments-All (c ∷ p) = elim (Bool-cases (c == b'/')) [
  | inl e ↦ rw e (refl, segments-All p)
  | inr e ↦ rw e (push_char-All c (segments p) (rw e refl) (segments-All p))
]

-- A segment that `resolve` lets stand.
abbrev pub IsKept : Text → Type 0
IsKept s = IsStep s × IsSegment s

tail-All : (out : List Text) → All IsKept out → All IsKept (tail out)
tail-All [] a = tt
tail-All (s ∷ out) (h, a) = a

resolve-All :
    (segs out : List Text) → All IsSegment segs → All IsKept out → All IsKept (resolve segs out)
unfolding resolve
resolve-All [] out a b = b
resolve-All (s ∷ segs) out (h, a) b =
    elim (Bool-cases (same_text s [] || same_text s (codes "."))) [
      | inl e ↦ rw e (resolve-All segs out a b)
      | inr e ↦ elim (Bool-cases (same_text s (codes ".."))) [
        | inl up ↦ rw (e, up) (resolve-All segs (tail out) a (tail-All out b))
        | inr step ↦ rw (e, step) (resolve-All segs (s ∷ out) a (((λ d. is_step d step), h), b))
      ]
    ]
  where
    is_step : s ≡ codes ".." → same_text s (codes "..") ≡ false → ⊥
    is_step d step = cc ((same_text_iff s (codes "..")).1 d, step)

-- Empty, or a slash and what follows.
abbrev pub IsRest : Text → Type 0
IsRest x = (x ≡ []) ⊎ ((y : Text) × (x ≡ b'/' ∷ y))

IsStep-in_front :
    (s x : Text) → IsKept s → IsRest x → All IsStep (segments x) → All IsStep (segments (s ++ x))
unfolding segments
IsStep-in_front s x (h, k) (inl e) a = rw (e, append-nil s, segments-alone s k) (h, tt)
IsStep-in_front s x (h, k) (inr (y, e)) a =
    let behind : All IsStep (segments (b'/' ∷ y)) = subst (λ z. All IsStep (segments z)) e a in
    rw (e, segments-append s y k) (h, behind.1)

render-IsRest : (segs : List Text) (x : Text) → IsRest x → IsRest (render segs ++ x)
unfolding render
render-IsRest [] x h = h
render-IsRest (s ∷ segs) x h = inr ((s ++ render segs) ++ x, refl)

pub no_dots : IsStep []
no_dots e = cc e

pub render-All :
    (segs : List Text) (x : Text)
    → All IsKept segs
    → IsRest x
    → All IsStep (segments x)
    → All IsStep (segments (render segs ++ x))
unfolding render segments
render-All [] x k r a = a
render-All (s ∷ segs) x (h, k) r a = (
  no_dots,
  rw (append_assoc s (render segs) x)
      (IsStep-in_front s (render segs ++ x) h (render-IsRest segs x r) (render-All segs x k r a)),
)

rendered-All :
    (segs : List Text) (slash : Bool)
    → All IsKept segs
    → All IsStep (segments (rendered segs slash))
unfolding segments
rendered-All [] slash k = (no_dots, (no_dots, tt))
rendered-All (s ∷ segs) true k =
    render-All (s ∷ segs) (codes "/") k (inr ([], refl)) (no_dots, (no_dots, tt))
rendered-All (s ∷ segs) false k =
    rw (sym (append-nil (render (s ∷ segs)))) (render-All (s ∷ segs) [] k (inl refl) (no_dots, tt))

backwards-All :
    (segs out : List Text) → All IsKept segs → All IsKept out → All IsKept (backwards segs out)
backwards-All [] out a b = b
backwards-All (s ∷ segs) out (h, a) b = backwards-All segs (s ∷ out) a (h, b)

pub normalize-All : (p : Text) → All IsStep (segments (normalize p))
unfolding normalize
normalize-All p =
    let kept = resolve-All (segments p) [] (segments-All p) tt in
    rendered-All (backwards (resolve (segments p) []) []) (ends_with_slash p)
      (backwards-All (resolve (segments p) []) [] kept tt)

pub tail-IsStep : (segs : List Text) → All IsStep segs → All IsStep (tail segs)
tail-IsStep [] a = tt
tail-IsStep (s ∷ segs) (h, a) = a

tail-push_char : (c : ℕ) (segs : List Text) → tail (push_char c segs) ≡ tail segs
tail-push_char c [] = refl
tail-push_char c (s ∷ segs) = refl

-- What follows a root in a path has no `..` if the path has none behind its first slash.
pub below :
    (root rest : Text)
    → All IsStep (tail (segments (root ++ b'/' ∷ rest)))
    → All IsStep (segments rest)
unfolding segments
below [] rest a = a
below (c ∷ root) rest a = elim (Bool-cases (c == b'/')) [
  | inl e ↦ below root rest (tail-IsStep (segments (root ++ b'/' ∷ rest)) (rw e at a))
  | inr e ↦
      below root rest
        (subst (All IsStep) (tail-push_char c (segments (root ++ b'/' ∷ rest))) (rw e at a))
]

pub starts_with-split : (s p : Text) → starts_with s p ≡ true → (rest : Text) × (s ≡ p ++ rest)
unfolding starts_with
starts_with-split s [] h = (s, refl)
starts_with-split [] (d ∷ p) h = cc
starts_with-split (c ∷ s) (d ∷ p) h = elim (Bool-cases (c == d)) [
  | inl e ↦
      (let (rest, e') = starts_with-split s p (rw e at h) in
        let same : c ≡ d = (==_iff c d).0 e in (rest, cc (same, e')))
  | inr e ↦ cc (rw e at h)
]

-- A path that stays below a root: it is the root, or goes on behind it without any `..`.
abbrev pub IsInside : Text → Text → Type 0
IsInside root p =
    (p ≡ root) ⊎ ((rest : Text) × (p ≡ root ++ b'/' ∷ rest) × All IsStep (segments rest))
