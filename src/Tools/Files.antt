-- ===== src/Tools/Files.antt =====
-- A directory's content and what node:fs does to it, as wallet/tools/build-prover-assets.mjs calls it.
pub mod Find
use raiz_confidential_stack.Prelude.{
  ℕ, Text, codes, same_text, Option, none, some, List, [], ◌∷◌, ◌++◌, Result, ok, err, Error, Io,
  if◌then◌else◌,
}

mutual
  pub data Node : Type 0 where
    file : List ℕ → Node
    directory : Entries → Node

  pub data Entries : Type 0 where
    end : Entries
    entry : Text → Node → Entries → Entries

-- A path, by its segments.
abbrev pub PathOf : Type 0
PathOf = List Text

-- `path.dirname(p)`
unfoldable pub dirname : PathOf → PathOf
dirname [] = []
dirname (s ∷ []) = []
dirname (s ∷ t ∷ p) = s ∷ dirname (t ∷ p)

-- The text of an absolute path.
unfoldable pub path_text : PathOf → Text
path_text [] = []
path_text (s ∷ p) = codes "/" ++ s ++ path_text p

unfoldable pub find : Text → Entries → Option Node
find d end = none
find d (entry name node es) = let rest = find d es in if same_text name d then some node else rest

-- `rmSync(d, { recursive: true, force: true })`
unfoldable pub remove : Text → Entries → Entries
remove d end = end
remove d (entry name node es) =
    let rest = remove d es in if same_text name d then rest else entry name node rest

-- What stands at `d` is replaced by `node`.
unfoldable pub put : Text → Node → Entries → Entries
put d node end = entry d node end
put d node (entry name old es) =
    let rest = put d node es in if same_text name d then entry d node es else entry name old rest

-- The directory that a path goes through: made where it is missing, an error of node:fs where a file stands.
unfoldable pub inside : Option Node → Result Entries
inside none = ok end
inside (some (directory es)) = ok es
inside (some (file bytes)) = err (Error.external (codes "ENOTDIR"))

-- `mkdirSync(d, { recursive: true })`
unfoldable pub make_directory : Text → Io Entries (Unit {0})
unfolding inside put find
make_directory d es = elim (inside (find d es)) [
  | ok inner ↦ (ok tt, put d (directory inner) es)
  | err e ↦ (err e, es)
]

-- `cpSync(source, d/name)` where `source` holds `node`, with its parent made where it is missing. A directory comes
-- to a place where nothing stands.
unfoldable pub copy_into : Text → Text → Node → Io Entries (Unit {0})
unfolding inside put find
copy_into d name node es = elim (inside (find d es)) [
  | ok inner ↦ (ok tt, put d (directory (put name node inner)) es)
  | err e ↦ (err e, es)
]
