-- ===== src/Tools/ProverAssets.antt =====
-- The assets of the prover: wallet/tools/build-prover-assets.mjs.
pub mod Untouched
pub mod Holds
pub mod Packaged
pub mod Sizes
use raiz_confidential_stack.Prelude.{
  ℕ, ◌+◌, ◌/◌, Text, codes, Option, none, some, List, [], ◌∷◌, ◌++◌, length, zero, suc, Io, Result,
  ok,
}
use raiz_confidential_stack.Scripts.Calls.{pure, lift, ◌>>=◌, ◌>>◌}
use raiz_confidential_stack.Tools.Files.{
  Node, file, directory, Entries, end, entry, PathOf, dirname, path_text, remove, make_directory,
  copy_into,
}

-- The vendor's tree on the disk, which is only read, and the bundler.
pub record Workspace : Type 0 where
  -- `realpathSync`, and the file or directory that `cpSync` finds at a path
  pub realpath : PathOf → Result PathOf
  pub read : PathOf → Result Node
  -- `spawnSync("npx", args)` with a NODE_PATH: its status, null if a signal ended it, and what it leaves in the
  -- directory of the prover
  pub npx : List Text → List PathOf → Entries → Option ℕ × Entries

-- `{ total }` and the lines of the summary: kilobytes, and the path within the directory
pub record Summary : Type 0 where
  pub total : ℕ
  pub lines : List (ℕ × Text)

-- How the script ends: `process.exit`, or the summary.
pub data Ending : Type 0 where
  exited : ℕ → Ending
  packaged : Summary → Ending

-- `Math.round(size / 1024)`
abbrev pub kilobytes : ℕ → ℕ
kilobytes size = (size + 512) / 1024

-- one file of `walk`
abbrev pub count_file : Text → List ℕ → Summary → Summary
count_file name bytes s = record {
  total = s.total + kilobytes (length bytes);
  lines = s.lines ++ ((kilobytes (length bytes), name) ∷ []);
}

-- `walk(dir, rel)`
unfoldable mutual
  pub walk : Text → Entries → Summary → Summary
  walk rel end s = s
  walk rel (entry name node es) s = walk rel es (walk_node (rel ++ name) node s)

  pub walk_node : Text → Node → Summary → Summary
  walk_node name (file bytes) s = count_file name bytes s
  walk_node name (directory es) s = walk (name ++ codes "/") es s

abbrev pub circuit_names : List Text
circuit_names = codes "register" ∷ codes "transfer" ∷ codes "withdraw" ∷ []

abbrev pub json_name : Text → Text
json_name name = name ++ codes ".json"

-- the wiping of the generated directories
unfoldable pub wipe : Entries → Entries
unfolding remove
wipe es =
    remove (codes "circuits")
      (remove (codes "wasm") (remove (codes "vendor") (remove (codes "dist") es)))

unfoldable pub wipe_generated : Io Entries (Unit {0})
unfolding wipe
wipe_generated es = (ok tt, wipe es)

-- `r.status !== 0`, and `r.status ?? 1`
abbrev pub failed_with : Option ℕ → Option ℕ
failed_with none = some 1
failed_with (some zero) = none
failed_with (some (suc n)) = some (suc n)

-- The real paths that the script starts with.
pub record Sources : Type 0 where
  pub noir_scope : PathOf
  pub bb_browser : PathOf
  pub acvm_wasm : PathOf
  pub abi_wasm : PathOf

module _ (w : Workspace) (here : PathOf) where
  open w use {realpath, read, npx}

  abbrev pub wallet_dir : PathOf
  wallet_dir = dirname here

  abbrev pub prover_dir : PathOf
  prover_dir =
      wallet_dir
      ++ (codes "app" ∷ codes "src" ∷ codes "main" ∷ codes "assets" ∷ codes "prover" ∷ [])

  abbrev pub sdk : PathOf
  sdk =
      dirname wallet_dir
      ++ (codes "vendor"
          ∷ codes "stellar-confidential-token-demo"
          ∷ codes "packages"
          ∷ codes "sdk"
          ∷ [])

  unfoldable pub resolve_sources : Io Entries Sources
  unfolding dirname
  resolve_sources =
      lift (realpath (sdk ++ (codes "node_modules" ∷ codes "@noir-lang" ∷ codes "noir_js" ∷ [])))
      >>= λ noir_js.
          let noir_scope = dirname noir_js in
          lift (
            realpath (
              sdk
              ++ (codes "node_modules"
                  ∷ codes "@aztec"
                  ∷ codes "bb.js"
                  ∷ codes "dest"
                  ∷ codes "browser"
                  ∷ [])))
          >>= λ bb.
              lift (
                realpath
                  (noir_scope ++ (codes "acvm_js" ∷ codes "web" ∷ codes "acvm_js_bg.wasm" ∷ [])))
              >>= λ acvm.
                  lift (
                    realpath (
                      noir_scope
                      ++ (codes "noirc_abi" ∷ codes "web" ∷ codes "noirc_abi_wasm_bg.wasm" ∷ [])))
                  >>= λ abi. pure (record {
                    noir_scope = noir_scope;
                    bb_browser = bb;
                    acvm_wasm = acvm;
                    abi_wasm = abi;
                  })

  -- `cpSync(source, path.join(proverDir, d, name))`
  unfoldable pub copy : PathOf → Text → Text → Io Entries (Unit {0})
  copy source d name = lift (read source) >>= copy_into d name

  unfoldable pub copy_circuits : List Text → Io Entries (Unit {0})
  copy_circuits [] = pure tt
  copy_circuits (name ∷ names) =
      copy (sdk ++ (codes "circuits" ∷ json_name name ∷ [])) (codes "circuits") (json_name name)
      >> copy_circuits names

  unfoldable pub copy_assets : Sources → Io Entries (Unit {0})
  copy_assets s = wipe_generated >>= λ _. copy s.bb_browser (codes "vendor") (codes "bb") >>= λ _.
      make_directory (codes "wasm") >>= λ _.
      copy s.acvm_wasm (codes "wasm") (codes "acvm_js_bg.wasm") >>= λ _.
      copy s.abi_wasm (codes "wasm") (codes "noirc_abi_wasm_bg.wasm") >>= λ _.
      make_directory (codes "circuits") >>= λ _. copy_circuits circuit_names

  abbrev pub bundle_args : List Text
  bundle_args =
      codes "-y"
      ∷ codes "esbuild"
      ∷ path_text (prover_dir ++ (codes "raiz-shim.js" ∷ []))
      ∷ codes "--bundle"
      ∷ codes "--format=esm"
      ∷ codes "--platform=browser"
      ∷ codes "--target=es2022"
      ∷ codes "--sourcemap"
      ∷ (codes "--inject:" ++ path_text (here ++ (codes "buffer-inject.js" ∷ [])))
      ∷ codes "--define:global=globalThis"
      ∷ (codes "--outfile=" ++ path_text (prover_dir ++ (codes "dist" ∷ codes "prover.js" ∷ [])))
      ∷ []

  unfoldable pub bundle : Sources → Io Entries (Option ℕ)
  unfolding dirname path_text
  bundle s es =
      let node_path = dirname s.noir_scope ∷ (sdk ++ (codes "node_modules" ∷ [])) ∷ [] in
      let (status, es') = npx bundle_args node_path es in (ok (failed_with status), es')

  -- the summary of the directory, unless the bundler failed
  unfoldable pub summarise : Option ℕ → Io Entries Ending
  unfolding walk walk_node
  summarise (some code) es = (ok (exited code), es)
  summarise none es = (ok (packaged (walk [] es (record { total = 0; lines = [] }))), es)

  -- the whole script
  unfoldable pub build : Io Entries Ending
  build = resolve_sources >>= λ s. copy_assets s >> (bundle s >>= summarise)
