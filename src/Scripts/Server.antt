-- ===== src/Scripts/Server.antt =====
-- The static server of scripts/prover-bench/serve.mjs, lines 50-122: which file answers a path, and the
-- response, without the body. Paths are those of POSIX; the roots are absolute and have no slash at
-- their end.
pub mod Inside
use raiz_confidential_stack.Prelude.{
  ℕ, Text, codes, same_text, starts_with, Bool, false, not, ◌||◌, Option, none, some, List, [], ◌∷◌,
  ◌++◌, Result, ok, bind_result, if◌then◌else◌,
}
use raiz_confidential_stack.Scripts.ContentType.{type_of}
use raiz_confidential_stack.Scripts.Paths.{normalize, join, basename}

-- `safeJoin(root, rel)`
unfoldable pub safe_join : Text → Text → Option Text
unfolding join normalize
safe_join root rel =
    let p = normalize (join root rel) in
    if starts_with p (root ++ codes "/") || same_text p root then some p else none

-- The directories and files that are served.
pub record Roots : Type 0 where
  pub here : Text
  pub bb_browser : Text
  pub circuits : Text
  pub acvm_wasm : Text
  pub abi_wasm : Text

-- `TYPES`
abbrev pub types : List (Text × Text)
types =
    (codes ".html", codes "text/html; charset=utf-8")
    ∷ (codes ".js", codes "text/javascript; charset=utf-8")
    ∷ (codes ".mjs", codes "text/javascript; charset=utf-8")
    ∷ (codes ".wasm", codes "application/wasm")
    ∷ (codes ".json", codes "application/json; charset=utf-8")
    ∷ (codes ".map", codes "application/json; charset=utf-8")
    ∷ (codes ".txt", codes "text/plain; charset=utf-8")
    ∷ []

-- The head of a response, with the file that is its body.
pub record Reply : Type 0 where
  pub status : ℕ
  pub isolated : Bool
  pub cached : Bool
  pub content_type : Text
  pub file : Option Text
  pub size : ℕ

-- whether the response may be kept for an hour
unfoldable pub is_asset : Text → Bool
is_asset url =
    starts_with url (codes "/vendor/")
    || starts_with url (codes "/wasm/")
    || starts_with url (codes "/circuits/")

unfoldable pub not_found : Bool → Reply
not_found no_coi = record {
  status = 404;
  isolated = not no_coi;
  cached = false;
  content_type = codes "text/plain";
  file = none;
  size = 0;
}

-- `file ? statSync(file) : null`, with the size of what is a regular file
abbrev pub stat_of : (Text → Option ℕ) → Option Text → Option (Text × ℕ)
stat_of size none = none
stat_of size (some file) = elim (size file) [ none ↦ none | some n ↦ some (file, n) ]

-- The response for a regular file and its size, if there is one.
unfoldable pub answered : Bool → Text → Option (Text × ℕ) → Reply
unfolding is_asset not_found type_of
answered no_coi url none = not_found no_coi
answered no_coi url (some (file, n)) = record {
  status = 200;
  isolated = not no_coi;
  cached = is_asset url;
  content_type = type_of types file;
  file = some file;
  size = n;
}

-- `decode` is `decodeURIComponent`, which throws on malformed escapes.
module _ (roots : Roots) (decode : Text → Result Text) where
  -- `routeToFile(urlPath)`; `none` is its null
  unfoldable pub route_to_file : Text → Result (Option Text)
  unfolding safe_join basename join
  route_to_file url =
      if same_text url (codes "/")
      then ok (some (join roots.here (codes "index.html")))
      else if same_text url (codes "/wasm/acvm_js_bg.wasm")
      then ok (some roots.acvm_wasm)
      else if same_text url (codes "/wasm/noirc_abi_wasm_bg.wasm")
      then ok (some roots.abi_wasm)
      else if starts_with url (codes "/vendor/bb/")
      then ok (safe_join roots.bb_browser (basename url))
      else if starts_with url (codes "/circuits/")
      then ok (safe_join roots.circuits (basename url))
      else bind_result (decode url) (λ p. ok (safe_join roots.here p))

  -- the handler of a request, by the sizes of the regular files
  unfoldable pub handle : Bool → (Text → Option ℕ) → Text → Result Reply
  unfolding route_to_file answered
  handle no_coi size url =
      bind_result (route_to_file url) λ file. ok (answered no_coi url (stat_of size file))
