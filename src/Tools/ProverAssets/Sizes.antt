-- ===== src/Tools/ProverAssets/Sizes.antt =====
-- The sizes that the summary of build-prover-assets.mjs (lines 112-126) adds up, against the files themselves.
use raiz_confidential_stack.Prelude.{
  ℕ, ◌+◌, ◌*◌, ◌≤◌, Text, codes, List, [], ◌∷◌, ◌++◌, length, length-append, ◌≡◌, arith,
}
use raiz_confidential_stack.Tools.Files.{Node, file, directory, Entries, end, entry}
use raiz_confidential_stack.Tools.ProverAssets.{Summary, kilobytes, count_file, walk, walk_node}

-- The bytes of all files, and their number.
unfoldable mutual
  pub bytes_in : Entries → ℕ
  bytes_in end = 0
  bytes_in (entry name node es) = bytes_of node + bytes_in es

  pub bytes_of : Node → ℕ
  bytes_of (file bytes) = length bytes
  bytes_of (directory es) = bytes_in es

unfoldable mutual
  pub files_in : Entries → ℕ
  files_in end = 0
  files_in (entry name node es) = files_of node + files_in es

  pub files_of : Node → ℕ
  files_of (file bytes) = 1
  files_of (directory es) = files_in es

-- A walk adds a line for each file, and kilobytes that differ from the bytes by half a kilobyte a file at most.
abbrev pub IsCounted : Summary → Summary → ℕ → ℕ → Type 0
IsCounted s t bytes files =
    (length t.lines ≡ length s.lines + files)
    × (1024 * t.total ≤ 1024 * s.total + bytes + 512 * files)
    × (1024 * s.total + bytes ≤ 1024 * t.total + 512 * files)

count_file-IsCounted :
    (name : Text) (bytes : List ℕ) (s : Summary)
    → IsCounted s (count_file name bytes s) (length bytes) 1
count_file-IsCounted name bytes s = (
  omega (arith, length-append s.lines ((kilobytes (length bytes), name) ∷ [])),
  omega arith,
  omega arith,
)

IsCounted-trans :
    (s t u : Summary) (a b m n : ℕ)
    → IsCounted s t a m
    → IsCounted t u b n
    → IsCounted s u (a + b) (m + n)
IsCounted-trans s t u a b m n (h, lo, hi) (k, lo', hi') = (omega arith, omega arith, omega arith)

mutual
  unfolding walk walk_node bytes_in bytes_of files_in files_of

  walk_entries-IsCounted :
      (es : Entries) (rel : Text) (s : Summary)
      → IsCounted s (walk rel es s) (bytes_in es) (files_in es)
  walk_entries-IsCounted end rel s = (omega arith, omega arith, omega arith)
  walk_entries-IsCounted (entry name node es) rel s =
      IsCounted-trans s (walk_node (rel ++ name) node s)
        (walk rel es (walk_node (rel ++ name) node s)) _ _ _ _
        (walk_node-IsCounted node (rel ++ name) s)
        (walk_entries-IsCounted es rel (walk_node (rel ++ name) node s))

  walk_node-IsCounted :
      (node : Node) (name : Text) (s : Summary)
      → IsCounted s (walk_node name node s) (bytes_of node) (files_of node)
  walk_node-IsCounted (file bytes) name s = count_file-IsCounted name bytes s
  walk_node-IsCounted (directory es) name s = walk_entries-IsCounted es (name ++ codes "/") s

-- The summary of a directory has a line for each file below it, and its total of rounded kilobytes is within half a
-- kilobyte for each file of the bytes that the files have.
pub walk-IsCounted :
    (es : Entries)
    → IsCounted
        (record { total = 0; lines = [] })
        (walk [] es (record { total = 0; lines = [] }))
        (bytes_in es)
        (files_in es)
walk-IsCounted es = walk_entries-IsCounted es [] (record { total = 0; lines = [] })
