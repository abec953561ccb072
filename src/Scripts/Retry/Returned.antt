-- ===== src/Scripts/Retry/Returned.antt =====
-- A value that `retry` returns comes from one of its attempts.
use raiz_confidential_stack.Prelude.{
  ℕ, zero, suc, ◌+◌, ◌-◌, ◌*◌, ◌^◌, Text, codes, Bool, Result, ok, err, Error, Io, ltb,
  if◌then◌else◌, ◌≡◌, refl, ap, ◌∙◌, Bool-cases, inl, inr,
}
use raiz_confidential_stack.Scripts.Retry.{after_attempt, attempt, retry_unless}

module _ {W A : Type 0} (wait : ℕ → W → W) (fatal : Error → Bool) (label : Text) (tries base : ℕ)
    (fn : Io W A) (a : A) where
  after_attempt-returned :
      (again : Error → Io W A) (i : ℕ) (w : W) (p : Result A × W)
      → fn w ≡ p
      → ((e : Error) (w' : W) → (again e w').0 ≡ ok a → (v : W) × ((fn v).0 ≡ ok a))
      → (after_attempt wait fatal again tries base i p).0 ≡ ok a
      → (v : W) × ((fn v).0 ≡ ok a)
  unfolding after_attempt
  after_attempt-returned again i w (ok b, w') e next h = (w, ap (λ r. r.0) e ∙ h)
  after_attempt-returned again i w (err x, w') e next h = elim (Bool-cases (fatal x)) [
    | inl bad ↦ cc (rw bad at h)
    | inr soft ↦ next x (if ltb i tries then wait (base * 2 ^ (i - 1)) w' else w') (rw soft at h)
  ]

  attempt-returned :
      (left i : ℕ) (last : Error) (w : W)
      → (attempt wait fatal label tries base fn left i last w).0 ≡ ok a
      → (v : W) × ((fn v).0 ≡ ok a)
  unfolding attempt
  attempt-returned zero i last w h = cc
  attempt-returned (suc left) i last w h =
      after_attempt-returned (attempt wait fatal label tries base fn left (i + 1)) i w (fn w) refl
        (attempt-returned left (i + 1)) h

  -- Where `retry` returns a value, one of its attempts returned it.
  pub retry_unless-returned :
      (w : W)
      → (retry_unless wait fatal label tries base fn w).0 ≡ ok a
      → (v : W) × ((fn v).0 ≡ ok a)
  unfolding retry_unless
  retry_unless-returned w h = attempt-returned tries 1 (Error.external (codes "undefined")) w h
