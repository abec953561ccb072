-- ===== src/Tools/ProverAssets/Holds.antt =====
-- What the generated directories hold after the copies of build-prover-assets.mjs, lines 65-76.
use raiz_confidential_stack.Prelude.{
  Text, same_text, All, if◌then◌else◌, false, Option, none, some, List, [], ◌∷◌, ◌++◌, ok, Io, ◌≡◌,
  refl, sym, ap, ◌∙◌,
}
use mathlib.Core.Path.{subst}
use raiz_confidential_stack.Scripts.Calls.{Keeps, Leads}
use raiz_confidential_stack.Scripts.Calls.Rules.{Leads-bind, Leads-lift}
use raiz_confidential_stack.Tools.Files.{
  Node, directory, Entries, end, entry, PathOf, find, put, inside, make_directory,
}
use raiz_confidential_stack.Tools.Files.Find.{Leads-make_directory, Leads-copy_into}
use raiz_confidential_stack.Tools.ProverAssets.{Workspace, wipe, wipe_generated, copy}

-- The name that a directory holds, and where it comes from in the vendor's tree.
abbrev pub Listed : Type 0
Listed = Text × PathOf

-- The directory holds these names, in this order, each with what was read at its source.
unfoldable pub IsCopied : Workspace → List Listed → Entries → Type 0
IsCopied w [] end = Unit
IsCopied w [] (entry name node es) = ⊥
IsCopied w (a ∷ l) end = ⊥
IsCopied w (a ∷ l) (entry name node es) = (name ≡ a.0) × (w.read a.1 ≡ ok node) × IsCopied w l es

abbrev pub IsFresh : Text → List Listed → Type 0
IsFresh name = All (λ (a : Listed). same_text a.0 name ≡ false)

put-IsCopied :
    (w : Workspace) (name : Text) (source : PathOf) (node : Node) (l : List Listed) (es : Entries)
    → IsFresh name l
    → w.read source ≡ ok node
    → IsCopied w l es
    → IsCopied w (l ++ ((name, source) ∷ [])) (put name node es)
unfolding IsCopied put
put-IsCopied w name source node [] end fresh got h = (refl, got, tt)
put-IsCopied w name source node (a ∷ l) (entry b old es) (apart, fresh) got (same, read, h) =
    let other : same_text b name ≡ false = subst (λ c. same_text c name ≡ false) (sym same) apart in
    subst
      (λ t.
        IsCopied w (a ∷ (l ++ ((name, source) ∷ [])))
          (if t then entry name node es else entry b old (put name node es)))
      (sym other) (same, read, put-IsCopied w name source node l es fresh got h)
put-IsCopied w name source node [] (entry b old es) fresh got h = elim h [ ]
put-IsCopied w name source node (a ∷ l) end fresh got h = elim h [ ]

module _ (w : Workspace) (here : PathOf) where
  -- What the directory `d` holds, where there is one; a directory that is missing holds nothing.
  abbrev pub Opens : Text → List Listed → Entries → Type 0
  Opens d l es = (inner : Entries) × IsCopied w l inner × (inside (find d es) ≡ ok inner)

  -- What the directory `d` holds, which is there.
  abbrev pub Holds : Text → List Listed → Entries → Type 0
  Holds d l es = (inner : Entries) × IsCopied w l inner × (find d es ≡ some (directory inner))

  Opens-of_Holds : (d : Text) (l : List Listed) (es : Entries) → Holds d l es → Opens d l es
  unfolding inside
  Opens-of_Holds d l es (inner, copied, h) = (inner, copied, ap inside h)

  pub copy-Holds :
      (d name : Text) (source : PathOf) (l : List Listed)
      → IsFresh name l
      → Leads (Opens d l) (λ _. Holds d (l ++ ((name, source) ∷ []))) (copy w here source d name)
  unfolding copy
  copy-Holds d name source l fresh = Leads-bind _ _ (Leads-lift (w.read source)) λ node. record {
    leads = λ es (got, (inner, copied, opens)) e. (
      put name node inner,
      put-IsCopied w name source node l inner fresh got copied,
      (Leads-copy_into d (find d es) inner opens name node).leads es refl e,
    );
  }

  -- the same where the directory is there
  pub copy-after :
      (d name : Text) (source : PathOf) (l : List Listed)
      → IsFresh name l
      → Leads (Holds d l) (λ _. Holds d (l ++ ((name, source) ∷ []))) (copy w here source d name)
  copy-after d name source l fresh = record {
    leads = λ es h e. (copy-Holds d name source l fresh).leads es (Opens-of_Holds d l es h) e;
  }

  pub make_directory-Holds :
      (d : Text) (l : List Listed) → Leads (Opens d l) (λ _. Holds d l) (make_directory d)
  make_directory-Holds d l = record {
    leads = λ es (inner, copied, opens) e.
        (inner, copied, (Leads-make_directory d (find d es) inner opens).leads es refl e);
  }

  -- A call that keeps what stands at `d` keeps what is there.
  pub Holds-kept :
      {A : Type 0} (d : Text) (l : List Listed) (m : Io Entries A)
      → ((o : Option Node) → Keeps (λ es. find d es ≡ o) m)
      → Leads (Holds d l) (λ _. Holds d l) m
  Holds-kept d l m k = record {
    leads = λ es (inner, copied, h) e. (inner, copied, (k (some (directory inner))).kept es h);
  }

  pub Opens-kept :
      {A : Type 0} (d : Text) (l : List Listed) (m : Io Entries A)
      → ((o : Option Node) → Keeps (λ es. find d es ≡ o) m)
      → Leads (Opens d l) (λ _. Opens d l) m
  Opens-kept d l m k = record {
    leads =
        λ es (inner, copied, h) e. (inner, copied, ap inside ((k (find d es)).kept es refl) ∙ h);
  }

  pub wipe_generated-Opens :
      (d : Text)
      → ((es : Entries) → find d (wipe es) ≡ none)
      → Leads (λ _. Unit) (λ _. Opens d []) wipe_generated
  unfolding wipe_generated inside IsCopied
  wipe_generated-Opens d gone = record { leads = λ es _ e. (end, tt, ap inside (gone es)) }
