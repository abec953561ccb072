-- ===== src/Tools/ProverAssets/Packaged.antt =====
-- What build-prover-assets.mjs leaves in the directories that it generates: lines 44-76 and 107-126.
use raiz_confidential_stack.Prelude.{
  ℕ, Text, codes, same_text, false, Option, none, some, List, [], ◌∷◌, ◌++◌, ok, ◌≡◌, refl,
  ok_injective, ◌∙◌,
}
use mathlib.Core.Path.{subst}
use raiz_confidential_stack.Scripts.Calls.{Leads}
use raiz_confidential_stack.Scripts.Calls.Rules.{Keeps-bind, Leads-bind, Leads-pure}
use raiz_confidential_stack.Tools.Files.{Entries, PathOf, find, remove}
use raiz_confidential_stack.Tools.Files.Find.{
  find-remove, find-remove-elsewhere, Keeps-make_directory,
}
use raiz_confidential_stack.Tools.ProverAssets.{
  Workspace, Sources, Ending, Summary, packaged, exited, sdk, json_name, wipe, resolve_sources,
  copy, copy_circuits, copy_assets, bundle, summarise, build, walk,
}
use raiz_confidential_stack.Tools.ProverAssets.Untouched.{
  WritesDist, Keeps-copy, Keeps-copy_circuits, Keeps-bundle,
}
use raiz_confidential_stack.Tools.ProverAssets.Holds.{
  Listed, Opens, Holds, copy-Holds, copy-after, make_directory-Holds, Holds-kept, Opens-kept,
  wipe_generated-Opens,
}

module _ (w : Workspace) (here : PathOf) where
  -- The three circuits, each from its file in the SDK.
  abbrev pub circuit_source : Text → Listed
  circuit_source name = (json_name name, sdk w here ++ (codes "circuits" ∷ json_name name ∷ []))

  -- What the script is to generate beside the bundle.
  pub record IsPackaged (s : Sources) (es : Entries) : Type 0 where
    pub vendor : Holds w here (codes "vendor") ((codes "bb", s.bb_browser) ∷ []) es
    pub wasm :
        Holds w here
          (codes "wasm")
          ((codes "acvm_js_bg.wasm", s.acvm_wasm)
            ∷ (codes "noirc_abi_wasm_bg.wasm", s.abi_wasm)
            ∷ [])
          es
    pub circuits :
        Holds w here
          (codes "circuits")
          (circuit_source (codes "register")
            ∷ circuit_source (codes "transfer")
            ∷ circuit_source (codes "withdraw")
            ∷ [])
          es

  -- The wiping leaves none of the three directories.
  vendor_wiped : (es : Entries) → find (codes "vendor") (wipe es) ≡ none
  unfolding wipe same_text
  vendor_wiped es =
      find-remove-elsewhere (codes "vendor") (codes "circuits") _ refl
      ∙ find-remove-elsewhere (codes "vendor") (codes "wasm") _ refl
      ∙ find-remove (codes "vendor") (remove (codes "dist") es)

  wasm_wiped : (es : Entries) → find (codes "wasm") (wipe es) ≡ none
  unfolding wipe same_text
  wasm_wiped es =
      find-remove-elsewhere (codes "wasm") (codes "circuits") _ refl
      ∙ find-remove (codes "wasm") (remove (codes "vendor") (remove (codes "dist") es))

  circuits_wiped : (es : Entries) → find (codes "circuits") (wipe es) ≡ none
  unfolding wipe
  circuits_wiped es = find-remove (codes "circuits") _

  module _ (s : Sources) where
    copy_assets-vendor :
        Leads
          (λ _. Unit)
          (λ _. Holds w here (codes "vendor") ((codes "bb", s.bb_browser) ∷ []))
          (copy_assets w here s)
    unfolding copy_assets same_text
    copy_assets-vendor =
        Leads-bind _ _ (wipe_generated-Opens w here (codes "vendor") vendor_wiped) λ _.
          Leads-bind _ _ (copy-Holds w here (codes "vendor") (codes "bb") s.bb_browser [] tt) λ _.
            Holds-kept w here (codes "vendor") _ _ λ o.
              Keeps-bind _ _ (Keeps-make_directory (codes "vendor") (codes "wasm") refl o) λ _.
                Keeps-bind _ _ (Keeps-copy w here o (codes "vendor") (codes "wasm") refl _ _) λ _.
                  Keeps-bind _ _ (Keeps-copy w here o (codes "vendor") (codes "wasm") refl _ _) λ _.
                    Keeps-bind _ _ (Keeps-make_directory (codes "vendor") (codes "circuits") refl o)
                      λ _. Keeps-copy_circuits w here o (codes "vendor") refl _

    copy_assets-wasm :
        Leads
          (λ _. Unit)
          (λ _. Holds w here (codes "wasm") (
            (codes "acvm_js_bg.wasm", s.acvm_wasm)
            ∷ (codes "noirc_abi_wasm_bg.wasm", s.abi_wasm)
            ∷ []))
          (copy_assets w here s)
    unfolding copy_assets same_text
    copy_assets-wasm = Leads-bind _ _ (wipe_generated-Opens w here (codes "wasm") wasm_wiped) λ _.
        Leads-bind _ _
          (Opens-kept w here (codes "wasm") [] _
            λ o. Keeps-copy w here o (codes "wasm") (codes "vendor") refl _ _)
          λ _. Leads-bind _ _ (make_directory-Holds w here (codes "wasm") []) λ _.
            Leads-bind _ _
              (copy-after w here (codes "wasm") (codes "acvm_js_bg.wasm") s.acvm_wasm [] tt)
              λ _.
                Leads-bind _ _
                  (copy-after w here (codes "wasm") (codes "noirc_abi_wasm_bg.wasm") s.abi_wasm _
                    (refl, tt))
                  λ _. Holds-kept w here (codes "wasm") _ _ λ o.
                    Keeps-bind _ _ (Keeps-make_directory (codes "wasm") (codes "circuits") refl o)
                      λ _. Keeps-copy_circuits w here o (codes "wasm") refl _

    copy_assets-circuits :
        Leads
          (λ _. Unit)
          (λ _. Holds w here (codes "circuits") (
            circuit_source (codes "register")
            ∷ circuit_source (codes "transfer")
            ∷ circuit_source (codes "withdraw")
            ∷ []))
          (copy_assets w here s)
    unfolding copy_assets copy_circuits same_text
    copy_assets-circuits =
        Leads-bind _ _ (wipe_generated-Opens w here (codes "circuits") circuits_wiped) λ _.
          let aside : (d : Text)
              → same_text d (codes "circuits") ≡ false
              → (source : PathOf) (name : Text)
              → Leads (Opens w here (codes "circuits") []) (λ _. Opens w here (codes "circuits") [])
                  (copy w here source d name) =
            λ d apart source name.
              Opens-kept w here (codes "circuits") [] _
                λ o. Keeps-copy w here o (codes "circuits") d apart source name in
          Leads-bind _ _ (aside (codes "vendor") refl _ _) λ _.
            Leads-bind _ _
              (Opens-kept w here (codes "circuits") [] _
                λ o. Keeps-make_directory (codes "circuits") (codes "wasm") refl o)
              λ _. Leads-bind _ _ (aside (codes "wasm") refl _ _) λ _.
                Leads-bind _ _ (aside (codes "wasm") refl _ _) λ _.
                  Leads-bind _ _ (make_directory-Holds w here (codes "circuits") []) λ _.
                    Leads-bind _ _
                      (copy-after w here (codes "circuits") (json_name (codes "register")) _ [] tt)
                      λ _.
                        Leads-bind _ _
                          (copy-after w here (codes "circuits") (json_name (codes "transfer")) _
                            (circuit_source (codes "register") ∷ []) (refl, tt))
                          λ _.
                            Leads-bind _ _
                              (copy-after w here (codes "circuits") (json_name (codes "withdraw")) _
                                (circuit_source (codes "register")
                                  ∷ circuit_source (codes "transfer")
                                  ∷ [])
                                (refl, (refl, tt)))
                              λ _. Leads-pure tt (λ _ h. h)

  -- An ending of the script, and the directory that it leaves.
  abbrev Ends : Entries → Ending → Entries → Type 0
  Ends before (exited code) es = Unit
  Ends before (packaged summary) es =
      (s : Sources) × ((resolve_sources w here before).0 ≡ ok s)
      × IsPackaged s es
      × (summary ≡ walk [] es (record { total = 0; lines = [] }))

  copy_assets-IsPackaged :
      (s : Sources) → Leads (λ _. Unit) (λ _. IsPackaged s) (copy_assets w here s)
  copy_assets-IsPackaged s = record {
    leads = λ es h e. record {
      vendor = (copy_assets-vendor s).leads es h e;
      wasm = (copy_assets-wasm s).leads es h e;
      circuits = (copy_assets-circuits s).leads es h e;
    };
  }

  module _ (writes : WritesDist w) where
    bundle-IsPackaged : (s : Sources) → Leads (IsPackaged s) (λ _. IsPackaged s) (bundle w here s)
    unfolding same_text
    bundle-IsPackaged s =
        let kept : (d : Text) (l : List Listed)
            → same_text (codes "dist") d ≡ false
            → Leads (Holds w here d l) (λ _. Holds w here d l) (bundle w here s) =
          λ d l apart. Holds-kept w here d l _ λ o. Keeps-bundle w here o writes d apart s in
        record {
          leads = λ es p e. record {
            vendor = (kept _ _ refl).leads es p.vendor e;
            wasm = (kept _ _ refl).leads es p.wasm e;
            circuits = (kept _ _ refl).leads es p.circuits e;
          };
        }

    summarise-Ends :
        (before : Entries) (s : Sources)
        → (resolve_sources w here before).0 ≡ ok s
        → (status : Option ℕ) → Leads (IsPackaged s) (Ends before) (summarise w here status)
    unfolding summarise
    summarise-Ends before s resolved (some code) = record {
      leads = λ es {a = ending} p e. subst (λ x. Ends before x es) (ok_injective e) tt;
    }
    summarise-Ends before s resolved none = record {
      leads = λ es {a = ending} p e.
          subst (λ x. Ends before x es) (ok_injective e) (s, resolved, p, refl);
    }

    build-Ends : (before : Entries) → Leads (λ es. es ≡ before) (Ends before) (build w here)
    unfolding build
    build-Ends before =
        Leads-bind {R = λ s _. (resolve_sources w here before).0 ≡ ok s} _ _
          (record {
            leads = λ es {a = s} same e. subst (λ x. (resolve_sources w here x).0 ≡ ok s) same e;
          })
          λ s. record {
            leads = λ es resolved e.
                (Leads-bind _ _ (copy_assets-IsPackaged s) λ _.
                    Leads-bind _ _ (bundle-IsPackaged s)
                      λ status. summarise-Ends before s resolved status).leads
                  es tt e;
          }

-- Where the script ends with its summary, vendor holds the browser build that it found, wasm its two binaries and
-- circuits the three circuits, and none of them anything else, if the bundler writes in dist alone; and the summary
-- is the walk over the directory that is left.
pub build-IsPackaged :
    (w : Workspace) (here : PathOf)
    → WritesDist w
    → (es : Entries) (summary : Summary) → (build w here es).0 ≡ ok (packaged summary)
    → (s : Sources) × ((resolve_sources w here es).0 ≡ ok s)
      × IsPackaged w here s (build w here es).1
      × (summary ≡ walk [] (build w here es).1 (record { total = 0; lines = [] }))
build-IsPackaged w here writes es summary h = (build-Ends w here writes es).leads es refl h
