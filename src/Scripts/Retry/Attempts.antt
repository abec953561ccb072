-- ===== src/Scripts/Retry/Attempts.antt =====
-- What `retry` does, by its attempts.
use raiz_confidential_stack.Prelude.{
  lt→ltb, ℕ, suc, ◌+◌, ◌-◌, ◌*◌, ◌^◌, ◌<◌, ◌≡◌, refl, ◌∙◌, Text, codes, Bool, true, false, Result,
  ok, err, Error, Io, arith,
}
use mathlib.Core.Path.{ap, ap₂}
use raiz_confidential_stack.Scripts.Retry.{after_attempt, attempt, retry_unless}

module _ {W A : Type 0} (wait : ℕ → W → W) (fatal : Error → Bool) (base : ℕ) (fn : Io W A) where
  -- `count` attempts in a row failed in a way that may be tried again, and after the k-th of them the
  -- code waited `base * 2 ^ (k - 1)` milliseconds.
  pub data Failing : ℕ → W → W → Type 0 where
    no_attempt : (w : W) → Failing 0 w w
    one_more :
        {count : ℕ} {w w' w'' : W} (e : Error)
        → Failing count w w'
        → fn w' ≡ (err e, w'')
        → fatal e ≡ false
        → Failing (suc count) w (wait (base * 2 ^ count) w'')

  module _ (label : Text) (tries : ℕ) where
    rounds : (left i : ℕ) → Error → Io W A
    rounds = attempt wait fatal label tries base fn

    after : (left i : ℕ) → Result A × W → Result A × W
    unfolding rounds
    after left i = after_attempt wait fatal (rounds left (i + 1)) tries base i

    rounds-suc :
        (left i : ℕ) (last : Error) (w : W) → rounds (suc left) i last w ≡ after left i (fn w)
    unfolding rounds attempt after
    rounds-suc left i last w = refl

    after-soft :
        (left i : ℕ) (e : Error) (w : W)
        → fatal e ≡ false
        → i < tries
        → after left i (err e, w) ≡ rounds left (i + 1) e (wait (base * 2 ^ (i - 1)) w)
    unfolding after after_attempt
    after-soft left i e w soft more = rw (soft, lt→ltb i tries more)

    rounds-soft :
        (left i : ℕ) (last e : Error) (w w' : W)
        → fn w ≡ (err e, w')
        → fatal e ≡ false
        → i < tries
        → rounds (suc left) i last w ≡ rounds left (i + 1) e (wait (base * 2 ^ (i - 1)) w')
    rounds-soft left i last e w w' h soft more =
        rounds-suc left i last w ∙ ap (after left i) h ∙ after-soft left i e w' soft more

    -- Failing attempts lead from the first round to the round behind them.
    rounds-Failing :
        {count : ℕ} {w w' : W} (last : Error)
        → Failing count w w'
        → count < tries
        → (e : Error) × (rounds tries 1 last w ≡ rounds (tries - count) (count + 1) e w')
    rounds-Failing last (no_attempt w) more =
        (last, ap₂ (λ n i. rounds n i last w) (omega arith) (omega arith))
    rounds-Failing last (one_more {count} {w} {w'} {w''} e before h soft) more =
        let (last', e1) = rounds-Failing last before (omega arith) in
        let left : tries - count ≡ suc (tries - suc count) = omega arith in
        let delay : count + 1 - 1 ≡ count = omega arith in
        (
          e,
          e1
              ∙ ap (λ n. rounds n (count + 1) last' w') left
              ∙ rounds-soft (tries - suc count) (count + 1) last' e w' w'' h soft (omega arith)
              ∙ ap₂ (λ k d. rounds (tries - suc count) k e (wait (base * 2 ^ d) w'')) (omega arith)
                  delay,
        )

    rounds-next :
        {count : ℕ} {w w' : W} (last : Error)
        → Failing count w w'
        → count < tries
        → rounds tries 1 last w ≡ after (tries - suc count) (count + 1) (fn w')
    rounds-next {count} {w} {w'} last before more =
        let (e, e1) = rounds-Failing last before more in
        let left : tries - count ≡ suc (tries - suc count) = omega arith in
        e1
        ∙ ap (λ n. rounds n (count + 1) e w') left
        ∙ rounds-suc (tries - suc count) (count + 1) e w'

    after-ok : (left i : ℕ) (a : A) (w : W) → after left i (ok a, w) ≡ (ok a, w)
    unfolding after after_attempt
    after-ok left i a w = refl

    after-fatal :
        (left i : ℕ) (e : Error) (w : W) → fatal e ≡ true → after left i (err e, w) ≡ (err e, w)
    unfolding after after_attempt
    after-fatal left i e w h = rw h

    after-last :
        (e : Error) (w : W)
        → fatal e ≡ false
        → after 0 tries (err e, w) ≡ (err (Error.gave_up label tries e), w)
    unfolding after after_attempt rounds attempt
    after-last e w soft = ground arith

    -- How the attempt behind `count` failing ones ends the call: it returned, its error is fatal, or
    -- it was the last try.
    pub data Ends (count : ℕ) : Result A × W → Result A × W → Type 0 where
      returned : (a : A) (w : W) → Ends count (ok a, w) (ok a, w)
      refused : (e : Error) (w : W) → fatal e ≡ true → Ends count (err e, w) (err e, w)
      exhausted :
          (e : Error) (w : W)
          → fatal e ≡ false
          → count + 1 ≡ tries
          → Ends count (err e, w) (err (Error.gave_up label tries e), w)

    after-Ends :
        (count : ℕ) {r out : Result A × W}
        → Ends count r out
        → after (tries - suc count) (count + 1) r ≡ out
    after-Ends count (returned a w) = after-ok (tries - suc count) (count + 1) a w
    after-Ends count (refused e w bad) = after-fatal (tries - suc count) (count + 1) e w bad
    after-Ends count (exhausted e w soft last) =
        ap₂ (λ n i. after n i (err e, w)) (omega arith) last ∙ after-last e w soft

    -- `retry` after fewer failing attempts than it has tries: a call that returns ends it with that
    -- value, an error marked as fatal ends it with that error, and another error of the last try
    -- ends it with the label, the number of tries and that error. No call and no delay comes after.
    pub retry_unless-Failing :
        {count : ℕ} {w w' : W} {r out : Result A × W}
        → Failing count w w'
        → count < tries
        → fn w' ≡ r
        → Ends count r out
        → retry_unless wait fatal label tries base fn w ≡ out
    unfolding retry_unless rounds
    retry_unless-Failing {count} {w} {w'} before more e ends =
        rounds-next (Error.external (codes "undefined")) before more
        ∙ ap (after (tries - suc count) (count + 1)) e
        ∙ after-Ends count ends
