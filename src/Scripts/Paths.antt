-- ===== src/Scripts/Paths.antt =====
-- The operations of node:path on POSIX paths, as scripts/prover-bench/serve.mjs (lines 70-83) and web/serve.mjs (line 20)
-- call them.
pub mod Normal
pub mod Below
use raiz_confidential_stack.Prelude.{
  ℕ, Text, codes, same_text, Bool, true, false, ◌||◌, ◌==◌, List, [], ◌∷◌, ◌++◌, if◌then◌else◌,
}

abbrev pub push_char : ℕ → List Text → List Text
push_char c [] = (c ∷ []) ∷ []
push_char c (s ∷ segs) = (c ∷ s) ∷ segs

-- The parts of a path between its slashes.
unfoldable pub segments : Text → List Text
segments [] = [] ∷ []
segments (c ∷ s) = let rest = segments s in if c == b'/' then [] ∷ rest else push_char c rest

abbrev pub tail : List Text → List Text
tail [] = []
tail (s ∷ segs) = segs

-- Segments from the left, on those that stand so far, the last one first: an empty one and `.` are
-- dropped, and `..` takes the last one away.
unfoldable pub resolve : List Text → List Text → List Text
resolve [] out = out
resolve (s ∷ segs) out =
    if same_text s [] || same_text s (codes ".")
    then resolve segs out
    else if same_text s (codes "..")
    then resolve segs (tail out)
    else resolve segs (s ∷ out)

abbrev pub backwards : List Text → List Text → List Text
backwards [] out = out
backwards (s ∷ segs) out = backwards segs (s ∷ out)

-- Every segment behind a slash.
unfoldable pub render : List Text → Text
render [] = []
render (s ∷ segs) = b'/' ∷ (s ++ render segs)

unfoldable pub ends_with_slash : Text → Bool
ends_with_slash [] = false
ends_with_slash (c ∷ []) = c == b'/'
ends_with_slash (c ∷ d ∷ s) = ends_with_slash (d ∷ s)

abbrev pub rendered : List Text → Bool → Text
rendered [] slash = codes "/"
rendered (s ∷ segs) true = render (s ∷ segs) ++ codes "/"
rendered (s ∷ segs) false = render (s ∷ segs)

-- `path.normalize` of an absolute path
unfoldable pub normalize : Text → Text
unfolding segments resolve render ends_with_slash
normalize p = rendered (backwards (resolve (segments p) []) []) (ends_with_slash p)

-- `path.join(root, rel)`
unfoldable pub join : Text → Text → Text
unfolding normalize
join root [] = normalize root
join root (c ∷ rel) = normalize (root ++ b'/' ∷ c ∷ rel)

abbrev pub last_filled : List Text → Text → Text
last_filled [] found = found
last_filled ([] ∷ segs) found = last_filled segs found
last_filled ((c ∷ s) ∷ segs) found = last_filled segs (c ∷ s)

-- `path.basename(p)`
unfoldable pub basename : Text → Text
unfolding segments
basename p = last_filled (segments p) []
