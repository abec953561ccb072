-- ===== src/Tests/Tools.antt =====
-- The wallet's tools on a small transaction and a small tree of files.
use raiz_confidential_stack.Prelude.{
  ℕ, List, [], ◌∷◌, ◌++◌, length, replicate, codes, some, ok, refl, ◌≡◌, same_text,
}
use raiz_confidential_stack.Shim.Prover.Output.Base64.{decode}
use raiz_confidential_stack.Shim.Prover.Output.{to_base64, btoa, binary_string, letter}
use raiz_confidential_stack.Scripts.Calls.{pure, lift, ◌>>=◌}
use raiz_confidential_stack.Tools.Files.{
  file, directory, Entries, end, entry, PathOf, find, remove, put, inside, dirname, path_text,
  make_directory, copy_into,
}
use raiz_confidential_stack.Tools.Files.Find.{find-put-elsewhere}
use raiz_confidential_stack.Tools.ProverAssets.{
  Workspace, Sources, Summary, packaged, build, resolve_sources, copy_assets, copy_circuits, copy,
  bundle, summarise, walk, walk_node, wipe_generated, wipe,
}
use raiz_confidential_stack.Tools.ProverAssets.Untouched.{WritesDist, build-untouched}
use raiz_confidential_stack.Tools.ProverAssets.Packaged.{IsPackaged, build-IsPackaged}
use raiz_confidential_stack.Tools.ProverAssets.Sizes.{IsCounted, bytes_in, files_in, walk-IsCounted}
use raiz_confidential_stack.Tools.SignFixture.{
  SigningSdk, printed, to_hex, hex_digit, signed_manual, payload_of, sign_envelope, fixture,
}
use raiz_confidential_stack.Tools.SignFixture.Recipe.{IsRecipe, fixture-IsRecipe}

abbrev signed_bytes : List ℕ
signed_bytes =
    0 ∷ 0 ∷ 0 ∷ 2 ∷ 9 ∷ 8 ∷ 0 ∷ 0 ∷ 0 ∷ 1 ∷ 5 ∷ 6 ∷ 7 ∷ 8 ∷ 0 ∷ 0 ∷ 0 ∷ 0x40 ∷ replicate 64 3

-- An SDK whose hash is the length, and whose texts are their own bytes but for the envelope's.
abbrev signing_sdk : SigningSdk
signing_sdk = record {
  sha256 = λ b. length b ∷ [];
  utf8 = λ t. t;
  from_base64 = decode;
  testnet = codes "TEST";
  unsigned_xdr = to_base64 (0 ∷ 0 ∷ 0 ∷ 2 ∷ 9 ∷ 8 ∷ 0 ∷ 0 ∷ 0 ∷ 0 ∷ []);
  signed_xdr = to_base64 signed_bytes;
  tx_hash = 7 ∷ [];
  public_key = codes "GA";
  raw_public_key = replicate 28 1 ++ (5 ∷ 6 ∷ 7 ∷ 8 ∷ []);
  signature_hint = 5 ∷ 6 ∷ 7 ∷ 8 ∷ [];
  sign = λ _. replicate 64 3;
}

fixture_run : fixture signing_sdk ≡ ok (printed signing_sdk (4 ∷ []) (7 ∷ []))
unfolding fixture sign_envelope payload_of signed_manual same_text to_base64 btoa binary_string
    letter decode
fixture_run = refl

-- The hash is printed as two digits.
hash_run : (printed signing_sdk (4 ∷ []) (7 ∷ [])).tx_hash_hex ≡ codes "07"
unfolding printed to_hex hex_digit
hash_run = refl

fixture-IsRecipe_example :
    (tx : List ℕ) × IsRecipe signing_sdk (printed signing_sdk (4 ∷ []) (7 ∷ [])) tx
fixture-IsRecipe_example = fixture-IsRecipe signing_sdk _ refl fixture_run

-- A tree where every path is its own real path, with a small file at each, and a bundler that writes dist.
abbrev workspace : Workspace
workspace = record {
  realpath = λ p. ok p;
  read = λ p. ok (file (replicate 600 1));
  npx = λ _ _ es. (
    some 0,
    put (codes "dist") (directory (entry (codes "prover.js") (file (replicate 1000 2)) end)) es,
  );
}

workspace-WritesDist : WritesDist workspace
workspace-WritesDist args node_path es x apart = find-put-elsewhere x (codes "dist") _ es apart

abbrev here : PathOf
here = codes "repo" ∷ codes "wallet" ∷ codes "tools" ∷ []

-- The committed file, and an old directory that the script replaces.
abbrev before : Entries
before =
    entry (codes "raiz-shim.js") (file (replicate 2000 3))
      (entry (codes "wasm") (directory (entry (codes "old.wasm") (file []) end)) end)

abbrev summary : Summary
summary = record {
  total = 9;
  lines =
      (2, codes "raiz-shim.js")
      ∷ (1, codes "vendor/bb")
      ∷ (1, codes "wasm/acvm_js_bg.wasm")
      ∷ (1, codes "wasm/noirc_abi_wasm_bg.wasm")
      ∷ (1, codes "circuits/register.json")
      ∷ (1, codes "circuits/transfer.json")
      ∷ (1, codes "circuits/withdraw.json")
      ∷ (1, codes "dist/prover.js")
      ∷ [];
}

build_run : (build workspace here before).0 ≡ ok (packaged summary)
unfolding build resolve_sources copy_assets copy_circuits copy bundle summarise walk walk_node
    wipe_generated wipe make_directory copy_into inside put find remove dirname path_text same_text
    pure lift ◌>>=◌
build_run = refl

build-untouched_example :
    find (codes "raiz-shim.js") (build workspace here before).1 ≡ find (codes "raiz-shim.js") before
unfolding same_text
build-untouched_example =
    build-untouched workspace here workspace-WritesDist (codes "raiz-shim.js")
      (refl, refl, refl, refl) before

build-IsPackaged_example :
    (s : Sources) × ((resolve_sources workspace here before).0 ≡ ok s)
    × IsPackaged workspace here s (build workspace here before).1
    × (summary ≡ walk [] (build workspace here before).1 (record { total = 0; lines = [] }))
build-IsPackaged_example =
    build-IsPackaged workspace here workspace-WritesDist before summary build_run

walk-IsCounted_example :
    IsCounted
      (record { total = 0; lines = [] })
      (walk [] before (record { total = 0; lines = [] }))
      (bytes_in before)
      (files_in before)
walk-IsCounted_example = walk-IsCounted before
