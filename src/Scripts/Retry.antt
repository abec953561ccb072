-- ===== src/Scripts/Retry.antt =====
-- The `retry` of the scripts: scripts/receipt/_vendor.mjs lines 106-120, scripts/ct-flow/_shared.mjs
-- lines 108-123 and scripts/verify-goal-total/verify-goal-total.mjs lines 93-107. `wait ms` is the
-- world after `setTimeout`; what is printed is left out.
pub mod Attempts
pub mod Returned
use raiz_confidential_stack.Prelude.{
  ℕ, zero, suc, ◌+◌, ◌-◌, ◌*◌, ◌^◌, Text, codes, Bool, false, Result, ok, err, Error, Io, ltb,
  if◌then◌else◌,
}

module _ {W A : Type 0} (wait : ℕ → W → W) (fatal : Error → Bool) where
  -- What follows an attempt: its result, its error if that is fatal, or the next round, after a
  -- delay unless the round was the last.
  unfoldable pub after_attempt :
      (Error → Io W A) → (tries base_delay i : ℕ) → Result A × W → Result A × W
  after_attempt again tries base i (ok a, w) = (ok a, w)
  after_attempt again tries base i (err e, w) =
      if fatal e
      then (err e, w)
      else again e (if ltb i tries then wait (base * 2 ^ (i - 1)) w else w)

  -- The loop `for (let i = 1; i <= tries; i++)`, with `left` rounds to go and the last error.
  unfoldable pub attempt : Text → (tries base_delay : ℕ) → Io W A → (left i : ℕ) → Error → Io W A
  unfolding after_attempt
  attempt label tries base fn zero i last w = (err (Error.gave_up label tries last), w)
  attempt label tries base fn (suc left) i last w =
      let again = attempt label tries base fn left (i + 1) in
      after_attempt again tries base i (fn w)

  -- `retry(label, fn, { tries, baseDelayMs, fatalIf })` of the receipt scripts
  unfoldable pub retry_unless : Text → (tries base_delay : ℕ) → Io W A → Io W A
  unfolding attempt
  retry_unless label tries base fn =
      attempt label tries base fn tries 1 (Error.external (codes "undefined"))

abbrev pub never : Error → Bool
never e = false

module _ {W A : Type 0} (wait : ℕ → W → W) where
  -- `retry` of ct-flow: four attempts
  unfoldable pub retry_shared : Text → Io W A → Io W A
  unfolding retry_unless
  retry_shared label fn = retry_unless wait never label 4 3000 fn

  -- `retry` of verify-goal-total: three attempts
  unfoldable pub retry : Text → Io W A → Io W A
  unfolding retry_unless
  retry label fn = retry_unless wait never label 3 3000 fn
