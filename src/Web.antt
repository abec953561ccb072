-- ===== src/Web.antt =====
-- The preview server of the web page: web/serve.mjs, lines 14-35. Paths are those of POSIX.
pub mod Inside
use raiz_confidential_stack.Prelude.{
  ℕ, Text, codes, same_text, starts_with, Option, none, some, List, [], ◌∷◌, ◌==◌, if◌then◌else◌,
}
use raiz_confidential_stack.Scripts.Paths.{join}
use raiz_confidential_stack.Scripts.ContentType.{type_of}

-- `TYPES`
abbrev pub types : List (Text × Text)
types =
    (codes ".html", codes "text/html; charset=utf-8")
    ∷ (codes ".png", codes "image/png")
    ∷ (codes ".svg", codes "image/svg+xml")
    ∷ []

-- What a request is answered with.
pub data Answer : Type 0 where
  forbidden : Answer
  missing : (rel : Text) → Answer
  served : (file content_type : Text) (body : List ℕ) → Answer

-- `rel.replace(/^\/+/, "")`
unfoldable pub strip_slashes : Text → Text
strip_slashes [] = []
strip_slashes (c ∷ s) = let rest = strip_slashes s in if c == b'/' then rest else c ∷ s

-- `path.join(HERE, rel === "/" ? "index.html" : …)`
unfoldable pub file_of : Text → Text → Text
unfolding join strip_slashes
file_of here rel =
    join here (if same_text rel (codes "/") then codes "index.html" else strip_slashes rel)

-- the answer from what `readFile` gives, which throws where there is no file
unfoldable pub answer_with : Text → Text → Option (List ℕ) → Answer
unfolding type_of
answer_with rel file none = missing rel
answer_with rel file (some body) = served file (type_of types file) body

-- the handler of a request, by the path of its URL
unfoldable pub handle : Text → (Text → Option (List ℕ)) → Text → Answer
unfolding file_of answer_with
handle here read rel =
    let file = file_of here rel in
    let answer = answer_with rel file (read file) in
    if starts_with file here then answer else forbidden
