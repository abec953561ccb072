-- ===== src/Tools/ProverAssets/Untouched.antt =====
-- What build-prover-assets.mjs leaves alone: the committed files beside the generated directories.
use raiz_confidential_stack.Prelude.{
  ℕ, Text, codes, same_text, false, Option, none, some, List, [], ◌∷◌, ◌≡◌, refl, ◌∙◌,
}
use raiz_confidential_stack.Scripts.Calls.{Keeps}
use raiz_confidential_stack.Scripts.Calls.Rules.{Keeps-pure, Keeps-lift, Keeps-bind}
use raiz_confidential_stack.Tools.Files.{Node, Entries, PathOf, find}
use raiz_confidential_stack.Tools.Files.Find.{
  find-remove-elsewhere, Keeps-make_directory, Keeps-copy_into,
}
use raiz_confidential_stack.Tools.ProverAssets.{
  Workspace, Sources, wipe, wipe_generated, resolve_sources, copy, copy_circuits, copy_assets,
  bundle, summarise, build,
}

-- A name in the directory of the prover that is none of the generated directories.
abbrev pub IsCommitted : Text → Type 0
IsCommitted x =
    (same_text (codes "dist") x ≡ false)
    × (same_text (codes "vendor") x ≡ false)
    × (same_text (codes "wasm") x ≡ false)
    × (same_text (codes "circuits") x ≡ false)

-- The bundler writes its output file and the map beside it, both in dist.
abbrev pub WritesDist : Workspace → Type 0
WritesDist w =
    (args : List Text) (node_path : List PathOf) (es : Entries) (x : Text)
    → same_text (codes "dist") x ≡ false
    → find x (w.npx args node_path es).1 ≡ find x es

module _ (w : Workspace) (here : PathOf) (o : Option Node) where
  pub Keeps-resolve_sources : (x : Text) → Keeps (λ es. find x es ≡ o) (resolve_sources w here)
  unfolding resolve_sources
  Keeps-resolve_sources x = Keeps-bind _ _ (Keeps-lift _) λ noir_js.
      Keeps-bind _ _ (Keeps-lift _) λ bb.
        Keeps-bind _ _ (Keeps-lift _) λ acvm. Keeps-bind _ _ (Keeps-lift _) λ abi. Keeps-pure _

  -- Copies into one directory keep what stands beside it.
  pub Keeps-copy :
      (x d : Text)
      → same_text d x ≡ false
      → (source : PathOf) (name : Text) → Keeps (λ es. find x es ≡ o) (copy w here source d name)
  unfolding copy
  Keeps-copy x d apart source name =
      Keeps-bind _ _ (Keeps-lift _) λ node. Keeps-copy_into x d apart o name node

  pub Keeps-copy_circuits :
      (x : Text)
      → same_text (codes "circuits") x ≡ false
      → (names : List Text) → Keeps (λ es. find x es ≡ o) (copy_circuits w here names)
  unfolding copy_circuits
  Keeps-copy_circuits x apart [] = Keeps-pure tt
  Keeps-copy_circuits x apart (name ∷ names) =
      Keeps-bind _ _ (Keeps-copy x _ apart _ _) λ _. Keeps-copy_circuits x apart names

  Keeps-wipe_generated : (x : Text) → IsCommitted x → Keeps (λ es. find x es ≡ o) wipe_generated
  unfolding wipe_generated wipe
  Keeps-wipe_generated x (dist, vendor, wasm, circuits) = record {
    kept = λ es h.
        find-remove-elsewhere x (codes "circuits") _ circuits
        ∙ find-remove-elsewhere x (codes "wasm") _ wasm
        ∙ find-remove-elsewhere x (codes "vendor") _ vendor
        ∙ find-remove-elsewhere x (codes "dist") es dist
        ∙ h;
  }

  Keeps-copy_assets :
      (x : Text)
      → IsCommitted x
      → (s : Sources) → Keeps (λ es. find x es ≡ o) (copy_assets w here s)
  unfolding copy_assets
  Keeps-copy_assets x (dist, vendor, wasm, circuits) s =
      Keeps-bind _ _ (Keeps-wipe_generated x (dist, vendor, wasm, circuits)) λ _.
        Keeps-bind _ _ (Keeps-copy x _ vendor _ _) λ _.
          Keeps-bind _ _ (Keeps-make_directory x _ wasm o) λ _.
            Keeps-bind _ _ (Keeps-copy x _ wasm _ _) λ _.
              Keeps-bind _ _ (Keeps-copy x _ wasm _ _) λ _.
                Keeps-bind _ _ (Keeps-make_directory x _ circuits o)
                  λ _. Keeps-copy_circuits x circuits _

  module _ (writes : WritesDist w) where
    pub Keeps-bundle :
        (x : Text)
        → same_text (codes "dist") x ≡ false
        → (s : Sources) → Keeps (λ es. find x es ≡ o) (bundle w here s)
    unfolding bundle
    Keeps-bundle x dist s = record { kept = λ es h. writes _ _ es x dist ∙ h }

    pub Keeps-summarise :
        (x : Text) (status : Option ℕ) → Keeps (λ es. find x es ≡ o) (summarise w here status)
    unfolding summarise
    Keeps-summarise x none = record { kept = λ es h. h }
    Keeps-summarise x (some code) = record { kept = λ es h. h }

-- Whatever the script comes to, also where a copy or the bundler fails on the way, what stands in the directory of
-- the prover at a name other than dist, vendor, wasm and circuits is what stood there before, if the bundler writes
-- in dist alone.
pub build-untouched :
    (w : Workspace) (here : PathOf)
    → WritesDist w
    → (x : Text) → IsCommitted x
    → (es : Entries) → find x (build w here es).1 ≡ find x es
unfolding build
build-untouched w here writes x committed es =
    (Keeps-bind _ _ (Keeps-resolve_sources w here (find x es) x) λ s.
        Keeps-bind _ _ (Keeps-copy_assets w here (find x es) x committed s) λ _.
          Keeps-bind _ _ (Keeps-bundle w here (find x es) writes x committed.0 s)
            λ status. Keeps-summarise w here (find x es) writes x status).kept
      es refl
