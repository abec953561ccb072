-- ===== src/Scripts/Calls/Rules.antt =====
-- One rule for each way to build a call, for what it ensures, keeps and leads to.
use raiz_confidential_stack.Prelude.{
  Bool, true, false, Result, ok, err, Error, Io, ◌≡◌, refl, sym, if◌then◌else◌, Said,
}
use mathlib.Core.Path.{subst}
use raiz_confidential_stack.Scripts.Calls.{
  pure, lift, throw_if, ◌>>=◌, finally, Ensures, Returns, Leads, Keeps, >>=-inv,
}

module _ {W A : Type 0} where
  pub Ensures-any : (m : Io W A) → Ensures (λ _. Unit) m
  Ensures-any m = record { at = λ w h. tt }

  -- what a call returned, it was asked for at some moment
  pub Ensures-Said : (m : Io W A) → Ensures (Said m) m
  Ensures-Said m = record { at = λ w h. (w, h) }

  pub Ensures-lift : (r : Result A) → Ensures (λ a. r ≡ ok a) (lift {W = W} r)
  unfolding lift
  Ensures-lift r = record { at = λ w h. h }

  pub Ensures-weaken :
      {P Q : A → Type 0} (m : Io W A) → ((a : A) → P a → Q a) → Ensures P m → Ensures Q m
  Ensures-weaken m imp e = record { at = λ w {a = b} h. imp b (e.at w h) }

  pub Ensures-pure : {P : A → Type 0} (a : A) → P a → Ensures P (pure {W = W} a)
  unfolding pure
  Ensures-pure {P} a p = record { at = λ w {a = b} h. let same : a ≡ b = cc h in subst P same p }

  pub Ensures-if :
      {P : A → Type 0} (b : Bool) (m n : Io W A)
      → Ensures P m
      → Ensures P n
      → Ensures P (if b then m else n)
  Ensures-if true m n em en = em
  Ensures-if false m n em en = en

  pub Keeps-pure : {P : W → Type 0} (a : A) → Keeps P (pure a)
  unfolding pure
  Keeps-pure a = record { kept = λ w h. h }

  pub Leads-pure :
      {P : W → Type 0} {Q : A → W → Type 0} (a : A) → ((w : W) → P w → Q a w) → Leads P Q (pure a)
  unfolding pure
  Leads-pure {P} {Q} a imp = record {
    leads = λ w {a = b} h e. let same : a ≡ b = cc e in subst (λ x. Q x w) same (imp w h);
  }

  pub Keeps-lift : {P : W → Type 0} (r : Result A) → Keeps P (lift r)
  unfolding lift
  Keeps-lift r = record { kept = λ w h. h }

  pub Leads-lift : {P : W → Type 0} (r : Result A) → Leads P (λ a w. (r ≡ ok a) × P w) (lift r)
  unfolding lift
  Leads-lift r = record { leads = λ w h e. (e, h) }

  pub Keeps-if :
      {P : W → Type 0} (b : Bool) (m n : Io W A)
      → Keeps P m
      → Keeps P n
      → Keeps P (if b then m else n)
  Keeps-if true m n km kn = km
  Keeps-if false m n km kn = kn

  pub Keeps-finally :
      {P : W → Type 0} (m : Io W A) (release : Io W (Unit {0}))
      → Keeps P m
      → Keeps P release
      → Keeps P (finally m release)
  unfolding finally
  Keeps-finally m release km kr = record { kept = λ s h. kr.kept (m s).1 (km.kept s h) }

module _ {W : Type 0} where
  pub Keeps-throw_if : {P : W → Type 0} (b : Bool) (e : Error) → Keeps P (throw_if b e)
  unfolding throw_if
  Keeps-throw_if true e = record { kept = λ w h. h }
  Keeps-throw_if false e = record { kept = λ w h. h }

  pub throw_if-inv :
      (b : Bool) (e : Error) (w : W)
      → (throw_if b e w).0 ≡ ok tt
      → (b ≡ false) × ((throw_if b e w).1 ≡ w)
  unfolding throw_if
  throw_if-inv true e w h = cc h
  throw_if-inv false e w h = (refl, refl)

module _ {W A B : Type 0} where
  pub Ensures-bind :
      {Q : A → Type 0} {P : B → Type 0} (m : Io W A) (f : A → Io W B)
      → Ensures Q m
      → ((a : A) → Q a → Ensures P (f a))
      → Ensures P (m >>= f)
  Ensures-bind m f em ef = record {
    at = λ w h. let (a, got, rest, _) = >>=-inv m f w h in (ef a (em.at w got)).at (m w).1 rest;
  }

  -- where nothing is asked of the first call
  pub Ensures-then :
      {P : B → Type 0} (m : Io W A) (f : A → Io W B)
      → ((a : A) → Ensures P (f a))
      → Ensures P (m >>= f)
  Ensures-then m f ef = Ensures-bind m f (Ensures-any m) (λ a _. ef a)

  pub Returns-bind :
      {R : A → Type 0} {Q : B → W → Type 0} (m : Io W A) (f : A → Io W B)
      → Ensures R m
      → ((a : A) → R a → Returns Q (f a))
      → Returns Q (m >>= f)
  Returns-bind {R} {Q} m f em rf = record {
    leaves = λ w {a = b} h.
        let (a, got, rest, same) = >>=-inv m f w h in
        subst (λ r. Q b r.1) (sym same) ((rf a (em.at w got)).leaves (m w).1 rest);
  }

  pub Leads-bind :
      {P : W → Type 0} {R : A → W → Type 0} {Q : B → W → Type 0} (m : Io W A) (f : A → Io W B)
      → Leads P R m
      → ((a : A) → Leads (R a) Q (f a))
      → Leads P Q (m >>= f)
  Leads-bind {P} {R} {Q} m f lm lf = record {
    leads = λ w {a = b} h e.
        let (a, got, rest, same) = >>=-inv m f w e in
        subst (λ r. Q b r.1) (sym same) ((lf a).leads (m w).1 (lm.leads w h got) rest);
  }

  -- where the first call keeps what holds, and its value is of a kind
  pub Leads-after :
      {P : W → Type 0} {R : A → Type 0} {Q : B → W → Type 0} (m : Io W A) (f : A → Io W B)
      → Keeps P m
      → Ensures R m
      → ((a : A) → R a → Leads P Q (f a))
      → Leads P Q (m >>= f)
  Leads-after {P} {R} {Q} m f km em lf = record {
    leads = λ w {a = b} h e.
        let (a, got, rest, same) = >>=-inv m f w e in
        subst (λ r. Q b r.1) (sym same) ((lf a (em.at w got)).leads (m w).1 (km.kept w h) rest);
  }

  -- What follows a call may use what the call ensures.
  pub Keeps-using :
      {P : W → Type 0} {R : A → Type 0} (m : Io W A) (f : A → Io W B)
      → Keeps P m
      → Ensures R m
      → ((a : A) → R a → Keeps P (f a))
      → Keeps P (m >>= f)
  unfolding ◌>>=◌
  Keeps-using {P} m f km em kf = record {
    kept = λ w h. go (m w) (km.kept w h) (λ a e. kf a (em.at w e));
  }
    where
      go :
          (p : Result A × W)
          → P p.1
          → ((a : A) → p.0 ≡ ok a → Keeps P (f a))
          → P (let q : Result B × W = elim p.0 [ ok a ↦ f a p.1 | err e ↦ (err e, p.1) ] in q.1)
      go (ok a, w') h k = (k a refl).kept w' h
      go (err e, w') h k = h

  -- the same, for the value that the call returned
  pub Keeps-from :
      {P : W → Type 0} (m : Io W A) (f : A → Io W B) (w : W) (a : A)
      → (m w).0 ≡ ok a
      → P (m w).1
      → Keeps P (f a)
      → P ((m >>= f) w).1
  unfolding ◌>>=◌
  Keeps-from {P} m f w a e h kf = go (m w) e h
    where
      go :
          (p : Result A × W)
          → p.0 ≡ ok a
          → P p.1
          → P (let q : Result B × W = elim p.0 [ ok a ↦ f a p.1 | err e ↦ (err e, p.1) ] in q.1)
      go (ok b, w') e h = let same : a ≡ b = cc e in subst (λ x. P (f x w').1) same (kf.kept w' h)
      go (err x, w') e h = cc e

  -- What holds behind a call holds behind the sequence, if what follows keeps it.
  pub Keeps-after :
      {P : W → Type 0} (m : Io W A) (f : A → Io W B) (w : W)
      → P (m w).1
      → ((a : A) → Keeps P (f a))
      → P ((m >>= f) w).1
  unfolding ◌>>=◌
  Keeps-after {P} m f w h kf = go (m w) h
    where
      go :
          (p : Result A × W)
          → P p.1
          → P (let q : Result B × W = elim p.0 [ ok a ↦ f a p.1 | err e ↦ (err e, p.1) ] in q.1)
      go (ok a, w') h = (kf a).kept w' h
      go (err e, w') h = h

  pub Keeps-bind :
      {P : W → Type 0} (m : Io W A) (f : A → Io W B)
      → Keeps P m
      → ((a : A) → Keeps P (f a))
      → Keeps P (m >>= f)
  Keeps-bind m f km kf = record { kept = λ w h. Keeps-after m f w (km.kept w h) kf }

pub ruleset keeps_rules =
    (Keeps-pure, Keeps-lift, Keeps-if, Keeps-throw_if, Keeps-finally, Keeps-bind)
