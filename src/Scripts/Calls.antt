-- ===== src/Scripts/Calls.antt =====
-- Calls in sequence, as the scripts of scripts/ct-flow and scripts/prover-bench make them, with what a call ensures
-- of what it returns and what it keeps of the state it runs on, by one rule for each way to build a call. The
-- operations are shut, so that the rules apply to a block as it is written.
pub mod Rules
use raiz_confidential_stack.Prelude.{Bool, true, false, Result, ok, err, Error, Io, ◌≡◌, refl}

module _ {W : Type 0} where
  unfoldable pub pure : {A : Type 0} → A → Io W A
  pure a w = (ok a, w)

  unfoldable pub lift : {A : Type 0} → Result A → Io W A
  lift r w = (r, w)

  unfoldable pub throw_if : Bool → Error → Io W (Unit {0})
  throw_if true e w = (err e, w)
  throw_if false e w = (ok tt, w)

  infixl 5 ◌>>=◌ ◌>>◌
  unfoldable pub ◌>>=◌ : {A B : Type 0} → Io W A → (A → Io W B) → Io W B
  ◌>>=◌ m f w = let (r, w') = m w in elim r [ ok a ↦ f a w' | err e ↦ (err e, w') ]

  abbrev pub ◌>>◌ : {A B : Type 0} → Io W A → Io W B → Io W B
  m >> k = m >>= λ _. k

  -- `try { m } finally { release }`: an error of the release replaces what `m` ended with
  unfoldable pub finally : {A : Type 0} → Io W A → Io W (Unit {0}) → Io W A
  finally m release w =
      let (r, w') = m w in let (q, w'') = release w' in (elim q [ ok _ ↦ r | err e ↦ err e ], w'')

  -- Whatever the call returns satisfies `P`.
  pub record Ensures {A : Type 0} (P : A → Type 0) (m : Io W A) : Type 0 where
    pub at : (w : W) {a : A} → (m w).0 ≡ ok a → P a

  -- Whatever the call returns satisfies `Q`, with the state that it leaves.
  pub record Returns {A : Type 0} (Q : A → W → Type 0) (m : Io W A) : Type 0 where
    pub leaves : (w : W) {a : A} → (m w).0 ≡ ok a → Q a (m w).1

  -- From a state with `P`, what the call returns satisfies `Q` with the state that it leaves.
  pub record Leads {A : Type 0} (P : W → Type 0) (Q : A → W → Type 0) (m : Io W A) : Type 0 where
    pub leads : (w : W) {a : A} → P w → (m w).0 ≡ ok a → Q a (m w).1

  -- The call keeps `P`, whether it returns or throws.
  pub record Keeps {A : Type 0} (P : W → Type 0) (m : Io W A) : Type 0 where
    pub kept : (w : W) → P w → P (m w).1

  -- Inversion of a sequence that returned.
  pub >>=-inv :
      {A B : Type 0} (m : Io W A) (f : A → Io W B) (w : W) {b : B}
      → ((m >>= f) w).0 ≡ ok b
      → (a : A) × ((m w).0 ≡ ok a) × ((f a (m w).1).0 ≡ ok b) × ((m >>= f) w ≡ f a (m w).1)
  unfolding ◌>>=◌
  >>=-inv {A} {B} m f w {b} h = go (m w) h
    where
      go :
          (p : Result A × W)
          → (let q : Result B × W = elim p.0 [ ok a ↦ f a p.1 | err e ↦ (err e, p.1) ] in q.0)
            ≡ ok b
          → (a : A) × (p.0 ≡ ok a)
            × ((f a p.1).0 ≡ ok b)
            × (let q : Result B × W = elim p.0 [ ok x ↦ f x p.1 | err e ↦ (err e, p.1) ] in
                q ≡ f a p.1)
      go (ok a, w') e = (a, refl, e, refl)
      go (err e, w') h' = cc

  -- A release that returns leaves the outcome as it was.
  pub finally-eq-ok :
      {A : Type 0} (m : Io W A) (release : Io W (Unit {0})) (w : W) {a : A}
      → (finally m release w).0 ≡ ok a
      → ((m w).0 ≡ ok a) × ((finally m release w).1 ≡ (release (m w).1).1)
  unfolding finally
  finally-eq-ok {A} m release w {a} h = (go (release (m w).1).0 h, refl)
    where
      go :
          (q : Result (Unit {0}))
          → (elim q [ ok _ ↦ (m w).0 | err e ↦ err e ]) ≡ ok a
          → (m w).0 ≡ ok a
      go (ok _) e = e
      go (err e) h' = cc h'
