-- ===== src/Tools/Files/Find.antt =====
-- What stands at a name after the operations on a directory.
use raiz_confidential_stack.Prelude.{
  Text, same_text, same_text_refl, same_text_iff, false, Option, none, some, Result, ok, err, ◌≡◌,
  refl, ap, ◌∙◌, arith,
}
use mathlib.Core.Path.{sym, subst}
use raiz_confidential_stack.Scripts.Calls.{Keeps, Leads}
use raiz_confidential_stack.Tools.Files.{
  Node, directory, Entries, end, entry, find, remove, put, inside, make_directory, copy_into,
}

pub find-put : (d : Text) (node : Node) (es : Entries) → find d (put d node es) ≡ some node
unfolding find put
find-put d node end = rw (same_text_refl d) refl
find-put d node (entry name old es) = ground (arith, find-put d node es, same_text_refl d)

pub find-put-elsewhere :
    (x d : Text) (node : Node) (es : Entries)
    → same_text d x ≡ false
    → find x (put d node es) ≡ find x es
unfolding find put
find-put-elsewhere x d node end h = rw h refl
find-put-elsewhere x d node (entry name old es) h =
    ground (arith, find-put-elsewhere x d node es h, (same_text_iff name d).0)

pub find-remove : (d : Text) (es : Entries) → find d (remove d es) ≡ none
unfolding find remove
find-remove d end = refl
find-remove d (entry name node es) = ground (arith, find-remove d es)

pub find-remove-elsewhere :
    (x d : Text) (es : Entries) → same_text d x ≡ false → find x (remove d es) ≡ find x es
unfolding find remove
find-remove-elsewhere x d end h = refl
find-remove-elsewhere x d (entry name node es) h =
    ground (arith, find-remove-elsewhere x d es h, (same_text_iff name d).0)

-- The operations on one directory keep what stands at another name.
module _ (x d : Text) (apart : same_text d x ≡ false) (o : Option Node) where
  pub Keeps-make_directory : Keeps (λ es. find x es ≡ o) (make_directory d)
  unfolding make_directory
  Keeps-make_directory = record { kept = λ es h. go es h (inside (find d es)) }
    where
      go :
          (es : Entries)
          → find x es ≡ o
          → (r : Result Entries)
          → find x (
              let q : Result (Unit {0}) × Entries = elim r [
                | ok inner ↦ (ok tt, put d (directory inner) es)
                | err e ↦ (err e, es)
              ] in
              q.1)
            ≡ o
      go es h (ok inner) = find-put-elsewhere x d (directory inner) es apart ∙ h
      go es h (err e) = h

  pub Keeps-copy_into :
      (name : Text) (node : Node) → Keeps (λ es. find x es ≡ o) (copy_into d name node)
  unfolding copy_into
  Keeps-copy_into name node = record { kept = λ es h. go es h (inside (find d es)) }
    where
      go :
          (es : Entries)
          → find x es ≡ o
          → (r : Result Entries)
          → find x (
              let q : Result (Unit {0}) × Entries = elim r [
                | ok inner ↦ (ok tt, put d (directory (put name node inner)) es)
                | err e ↦ (err e, es)
              ] in
              q.1)
            ≡ o
      go es h (ok inner) = find-put-elsewhere x d (directory (put name node inner)) es apart ∙ h
      go es h (err e) = h

-- What they leave at the name itself.
module _ (d : Text) (m : Option Node) (inner : Entries) (opens : inside m ≡ ok inner) where
  pub Leads-make_directory :
      Leads (λ es. find d es ≡ m) (λ _ es. find d es ≡ some (directory inner)) (make_directory d)
  unfolding make_directory
  Leads-make_directory = record {
    leads = λ es h e.
        subst
          (λ r.
            find d (
              let q : Result (Unit {0}) × Entries = elim r [
                | ok inner ↦ (ok tt, put d (directory inner) es)
                | err e ↦ (err e, es)
              ] in
              q.1)
            ≡ some (directory inner))
          (sym (ap inside h ∙ opens)) (find-put d (directory inner) es);
  }

  pub Leads-copy_into :
      (name : Text) (node : Node)
      → Leads
          (λ es. find d es ≡ m)
          (λ _ es. find d es ≡ some (directory (put name node inner)))
          (copy_into d name node)
  unfolding copy_into
  Leads-copy_into name node = record {
    leads = λ es h e.
        subst
          (λ r.
            find d (
              let q : Result (Unit {0}) × Entries = elim r [
                | ok inner ↦ (ok tt, put d (directory (put name node inner)) es)
                | err e ↦ (err e, es)
              ] in
              q.1)
            ≡ some (directory (put name node inner)))
          (sym (ap inside h ∙ opens)) (find-put d (directory (put name node inner)) es);
  }
