-- ===== src/Scripts/ContentType.antt =====
-- The content type of a file: `TYPES[path.extname(file).toLowerCase()] ?? "application/octet-stream"`, in
-- scripts/prover-bench/serve.mjs (line 111) and web/serve.mjs (line 28).
use raiz_confidential_stack.Prelude.{
  ◌+◌, Text, codes, same_text, leb, ◌==◌, ◌&&◌, Option, none, some, List, [], ◌∷◌, if◌then◌else◌,
}
use raiz_confidential_stack.Scripts.EnvFile.{lookup}
use raiz_confidential_stack.Scripts.Paths.{basename}

-- From the last dot on.
unfoldable pub from_last_dot : Text → Option Text
from_last_dot [] = none
from_last_dot (c ∷ s) = elim (from_last_dot s) [
  | some e ↦ some e
  | none ↦ if c == b'.' then some (c ∷ s) else none
]

-- What follows the name of a file: nothing where its only dot is the first character.
unfoldable pub extension_of : Text → Text
unfolding from_last_dot
extension_of [] = []
extension_of (c ∷ s) =
    if same_text (c ∷ s) (codes "..") then [] else elim (from_last_dot s) [ none ↦ [] | some e ↦ e ]

-- `path.extname(p)`
unfoldable pub extname : Text → Text
unfolding extension_of basename
extname p = extension_of (basename p)

-- `toLowerCase()` of the letters that the extensions of the types are made of
unfoldable pub lower_case : Text → Text
lower_case [] = []
lower_case (c ∷ s) = (if leb 65 c && leb c 90 then c + 32 else c) ∷ lower_case s

unfoldable pub type_of : List (Text × Text) → Text → Text
unfolding extname lower_case lookup
type_of types file = elim (lookup (lower_case (extname file)) types) [
  | none ↦ codes "application/octet-stream"
  | some t ↦ t
]
