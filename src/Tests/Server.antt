-- ===== src/Tests/Server.antt =====
-- Requests to the bench's server.
use raiz_confidential_stack.Scripts.Server.Inside.{handle-IsServed, IsServed}
use raiz_confidential_stack.Scripts.ContentType.{
  type_of, extname, extension_of, from_last_dot, lower_case,
}
use raiz_confidential_stack.Scripts.EnvFile.{lookup}
use raiz_confidential_stack.Scripts.Paths.{
  basename, ends_with_slash, render, resolve, segments, normalize, join,
}
use raiz_confidential_stack.Web
use raiz_confidential_stack.Web.{answer_with, file_of, strip_slashes, missing, served}
use raiz_confidential_stack.Web.Inside.{handle-IsAnswered}
use raiz_confidential_stack.Scripts.Paths.Normal.{IsInside}
use raiz_confidential_stack.Scripts.Paths.Below.{IsName}
use raiz_confidential_stack.Scripts.Server.{
  not_found, safe_join, is_asset, route_to_file, answered, Reply, handle, Roots,
}
use raiz_confidential_stack.Prelude.{
  starts_with, same_text, ℕ, Text, codes, true, false, Option, none, some, List, [], ◌∷◌, ◌⊎◌,
  Result, ok, ◌≡◌, refl,
}

abbrev roots : Roots
roots = record {
  here = codes "/r/bench";
  bb_browser = codes "/r/bb";
  circuits = codes "/r/circuits";
  acvm_wasm = codes "/r/acvm.wasm";
  abi_wasm = codes "/r/abi.wasm";
}

-- Every file is there, with 5 bytes, and no path has escapes.
abbrev five : Text → Option ℕ
five file = some 5

abbrev plain : Text → Result Text
plain p = ok p

abbrev bundle : Reply
bundle = record {
  status = 200;
  isolated = true;
  cached = false;
  content_type = codes "text/javascript; charset=utf-8";
  file = some (codes "/r/bench/dist/a.js");
  size = 5;
}

bundle_run : handle roots plain false five (codes "/dist/x/../a.js") ≡ ok bundle
unfolding handle answered route_to_file is_asset safe_join join normalize segments resolve render
    ends_with_slash same_text starts_with basename type_of extname extension_of from_last_dot
    lower_case lookup
bundle_run = refl

-- A path that leads to a sibling of the page's directory is not answered.
outside_run : handle roots plain false five (codes "/../bench2/a.js") ≡ ok (not_found false)
unfolding handle answered route_to_file is_asset safe_join join normalize segments resolve render
    ends_with_slash same_text starts_with basename not_found
outside_run = refl

handle-IsServed_example :
    IsServed roots plain (codes "/r/bench/dist/a.js")
    × (five (codes "/r/bench/dist/a.js") ≡ some 5)
    × (bundle.status ≡ 200)
handle-IsServed_example =
    handle-IsServed roots plain false five (codes "/dist/x/../a.js") (codes "/r/bench/dist/a.js")
      bundle bundle_run refl

-- The page's directory /srv/web, where every file has the same byte.
abbrev page_read : Text → Option (List ℕ)
page_read file = some (60 ∷ [])

page_run :
    Web.handle (codes "/srv/web") page_read (codes "//img/Logo.PNG")
    ≡ served (codes "/srv/web/img/Logo.PNG") (codes "image/png") (60 ∷ [])
unfolding Web.handle answer_with file_of strip_slashes join normalize segments resolve render
    ends_with_slash same_text starts_with basename type_of extname extension_of from_last_dot
    lower_case lookup
page_run = refl

-- Without the parser's guarantee the test of the prefix lets a sibling directory pass.
sibling_run :
    Web.handle (codes "/srv/web") page_read (codes "/../web2/a.svg")
    ≡ served (codes "/srv/web2/a.svg") (codes "image/svg+xml") (60 ∷ [])
unfolding Web.handle answer_with file_of strip_slashes join normalize segments resolve render
    ends_with_slash same_text starts_with basename type_of extname extension_of from_last_dot
    lower_case lookup
sibling_run = refl

srv : IsName (codes "srv")
unfolding same_text
srv = (refl, ((λ e. cc e), refl))

web : IsName (codes "web")
unfolding same_text
web = (refl, ((λ e. cc e), refl))

handle-IsAnswered_example :
    (file : Text) × IsInside (render (codes "srv" ∷ codes "web" ∷ [])) file
    × (((page_read file ≡ none)
          × (Web.handle (render (codes "srv" ∷ codes "web" ∷ [])) page_read (codes "/a.svg")
              ≡ missing (codes "/a.svg")))
        ⊎ ((body : List ℕ) × (page_read file ≡ some body)
            × (Web.handle (render (codes "srv" ∷ codes "web" ∷ [])) page_read (codes "/a.svg")
                ≡ served file (type_of Web.types file) body)))
unfolding segments
handle-IsAnswered_example =
    handle-IsAnswered (codes "srv") (codes "web" ∷ []) srv (web, tt) page_read (codes "/a.svg")
      ((λ e. cc e), ((λ e. cc e), tt))
