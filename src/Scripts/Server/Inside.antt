-- ===== src/Scripts/Server/Inside.antt =====
-- No path that scripts/prover-bench/serve.mjs answers leads out of its roots.
use raiz_confidential_stack.Prelude.{
  Option-cases, bind_result-eq-ok, ℕ, Text, codes, same_text, same_text_iff, starts_with, Bool,
  true, false, ◌||◌, Option, none, some, ◌∷◌, ◌++◌, All, Result, ok, err, bind_result,
  if◌then◌else◌, ◌≡◌, ◌⊎◌, inl, inr, refl, ap, sym, ◌∙◌, Bool-cases, append_assoc,
}
use mathlib.Core.Path.{subst}
use raiz_confidential_stack.Scripts.Paths.{segments, normalize, join, basename}
use raiz_confidential_stack.Scripts.Paths.Normal.{
  IsStep, IsInside, normalize-All, tail-IsStep, below, starts_with-split,
}
use raiz_confidential_stack.Scripts.Server.{
  answered, stat_of, not_found, safe_join, Roots, route_to_file, Reply, handle,
}

safe_join-IsInside : (root rel p : Text) → safe_join root rel ≡ some p → IsInside root p
unfolding safe_join
safe_join-IsInside root rel p h = go (normalize (join root rel)) (normalize-All (join root rel)) h
  where
    go :
        (q : Text)
        → All IsStep (segments q)
        → (if starts_with q (root ++ codes "/") || same_text q root then some q else none) ≡ some p
        → (p ≡ root) ⊎ ((rest : Text) × (p ≡ root ++ b'/' ∷ rest) × All IsStep (segments rest))
    go q a h = elim (Bool-cases (starts_with q (root ++ codes "/"))) [
      | inl e ↦
          (let same : q ≡ p = cc (rw e at h) in
            let (rest, e') = starts_with-split q (root ++ codes "/") e in
            let split : q ≡ root ++ b'/' ∷ rest = e' ∙ append_assoc root (codes "/") rest in
            inr (
              rest,
              sym same ∙ split,
              below root rest (
                  tail-IsStep (segments (root ++ b'/' ∷ rest))
                    (subst (λ z. All IsStep (segments z)) split a)),
            ))
      | inr e ↦ elim (Bool-cases (same_text q root)) [
        | inl f ↦
            (let same : q ≡ p = cc (rw (e, f) at h) in inl (sym same ∙ (same_text_iff q root).0 f))
        | inr f ↦ cc (rw (e, f) at h)
      ]
    ]

module _ (roots : Roots) (decode : Text → Result Text) where
  -- The files that may be served.
  pub data IsServed : Text → Type 0 where
    acvm : IsServed roots.acvm_wasm
    abi : IsServed roots.abi_wasm
    index : IsServed (join roots.here (codes "index.html"))
    from_page : (p : Text) → IsInside roots.here p → IsServed p
    from_bb : (p : Text) → IsInside roots.bb_browser p → IsServed p
    from_circuits : (p : Text) → IsInside roots.circuits p → IsServed p

  if-served :
      (b : Bool) (x y : Result (Option Text)) (f : Text)
      → (x ≡ ok (some f) → IsServed f)
      → (y ≡ ok (some f) → IsServed f)
      → (if b then x else y) ≡ ok (some f)
      → IsServed f
  if-served true x y f hx hy h = hx h
  if-served false x y f hx hy h = hy h

  joined :
      (root rel f : Text)
      → ((p : Text) → IsInside root p → IsServed p)
      → Result.ok (safe_join root rel) ≡ ok (some f)
      → IsServed f
  joined root rel f served h =
      let e : safe_join root rel ≡ some f = cc h in served f (safe_join-IsInside root rel f e)

  decoded :
      (r : Result Text) (f : Text)
      → bind_result r (λ p. ok (safe_join roots.here p)) ≡ ok (some f)
      → IsServed f
  decoded (ok p) f h = joined roots.here p f IsServed.from_page h
  decoded (err e) f h = cc

  fixed : (file f : Text) → IsServed file → Result.ok (some file) ≡ ok (some f) → IsServed f
  fixed file f served h = let e : file ≡ f = cc h in subst IsServed e served

  route_to_file-IsServed :
      (url f : Text) → route_to_file roots decode url ≡ ok (some f) → IsServed f
  unfolding route_to_file
  route_to_file-IsServed url f =
      if-served _ _ _ f (fixed (join roots.here (codes "index.html")) f IsServed.index) (
        if-served _ _ _ f (fixed roots.acvm_wasm f IsServed.acvm) (
          if-served _ _ _ f (fixed roots.abi_wasm f IsServed.abi) (
            if-served _ _ _ f (joined roots.bb_browser (basename url) f IsServed.from_bb) (
              if-served _ _ _ f (joined roots.circuits (basename url) f IsServed.from_circuits)
                (decoded (decode url) f)))))

  stat_of-some :
      (size : Text → Option ℕ) (o : Option Text) (f : Text) (n : ℕ)
      → stat_of size o ≡ some (f, n)
      → (o ≡ some f) × (size f ≡ some n)
  stat_of-some size none f n h = cc
  stat_of-some size (some g) f n h = elim (Option-cases (size g)) [
    | inl e ↦ cc (rw (e, stat_of) at h)
    | inr (m, e) ↦
        (let same : some (g, m) ≡ some (f, n) = rw (e, stat_of) at h in
          let file : g ≡ f = cc same in
          let length : m ≡ n = cc same in (ap some file, ap size (sym file) ∙ e ∙ ap some length))
  ]

  -- Where the bench's server answers with a file, that is one of its three fixed files, or a regular
  -- file that stays below the page's directory, the proof library's or the circuits', behind which
  -- its path has no `..`, whatever the request's path decodes to; the status is 200 and the length
  -- is the file's size.
  pub handle-IsServed :
      (no_coi : Bool) (size : Text → Option ℕ) (url f : Text) (r : Reply)
      → handle roots decode no_coi size url ≡ ok r
      → r.file ≡ some f
      → IsServed f × (size f ≡ some r.size) × (r.status ≡ 200)
  unfolding handle answered not_found
  handle-IsServed no_coi size url f r h e =
      let (o, ho, h1) =
        bind_result-eq-ok (route_to_file roots decode url)
          (λ file. ok (answered no_coi url (stat_of size file))) h in
      found o ho (stat_of size o) refl (cc h1)
    where
      found :
          (o : Option Text)
          → route_to_file roots decode url ≡ ok o
          → (st : Option (Text × ℕ)) → stat_of size o ≡ st
          → answered no_coi url st ≡ r
          → IsServed f × (size f ≡ some r.size) × (r.status ≡ 200)
      found o ho none s a = cc (a, e)
      found o ho (some (g, n)) s a =
          let (so, sn) = stat_of-some size o g n s in
          let file : g ≡ f = cc (a, e) in
          let length : n ≡ r.size = ap (λ x. x.size) a in
          (
            route_to_file-IsServed url f (ho ∙ ap ok (so ∙ ap some file)),
            ap size (sym file) ∙ sn ∙ ap some length,
            sym (ap (λ x. x.status) a),
          )
