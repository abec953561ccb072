-- ===== src/Prelude/Outcome.antt =====
-- What a call returns or throws, and an asynchronous call over the state of the world outside.
use Prim.Native.Nat.{ℕ}
use mathlib.Core.Path.{◌≡◌, refl, ap}
use mathlib.Core.Logic.{◌⊎◌, inl, inr}
use mathlib.Core.Bool.{Bool, true, false}
use raiz_confidential_stack.Prelude.Strings.{Text}
use raiz_confidential_stack.Prelude.Int.{ℤ}

-- The exceptions of the source, one constructor for each `throw`, with what its message shows.
-- `external` is what the code's dependencies throw: the vendor's packages, the network, the engine.
pub data Error : Type 0 where
  external : Text → Error
  -- the codecs of raiz-shim.js
  invalid_integer : Text → Text → Error
  not_integer_text not_point not_strkey missing_param : Text → Error
  -- proofs
  unknown_kind no_proof_needed : Text → Error
  circuit_status : Text → ℕ → Error
  -- builders
  not_positive : ℤ → Error
  insufficient_spendable : ℤ → ℤ → Error
  sender_not_registered recipient_not_registered : Text → Error
  simulation_failed : Text → Text → Error
  -- event sources
  missing_field : Text → Error
  not_json : ℕ → Text → Error
  bad_status : ℕ → Text → Error
  too_many_pages : Error
  -- the goal's total
  from_ledger_required goal_id_required no_events : Error
  goal_not_registered : Text → Error
  backs_other_account view_key_differs registry_key_differs verification_failed : Error
  -- scripts
  gave_up : Text → ℕ → Error → Error
  missing_env : Text → Error
  missing_file : Text → Error
  friendbot_status : ℕ → Error
  no_deployment : Error
  unexpected_output : Text → Error
  state_mismatch : Error
  no_transfer : Error
  ephemeral_mismatch : Error
  assertion_failed : Text → Error
  type_error : Error

pub data Result (A : Type 0) : Type 0 where
  ok : A → Result A
  err : Error → Result A

pub ok_injective : {A : Type 0} {a b : A} → ok a ≡ ok b → a ≡ b
ok_injective h = cc h

abbrev pub bind_result : {A B : Type 0} → Result A → (A → Result B) → Result B
bind_result (ok a) f = f a
bind_result (err e) f = err e

abbrev pub is_ok : {A : Type 0} → Result A → Bool
is_ok (ok _) = true
is_ok (err _) = false

pub Result-cases :
    {A : Type 0} (r : Result A) → ((a : A) × (r ≡ ok a)) ⊎ ((e : Error) × (r ≡ err e))
Result-cases (ok a) = inl (a, refl)
Result-cases (err e) = inr (e, refl)

-- A call over the outer world `W`: the network, the clock, the engine's caches.
abbrev pub Io : Type 0 → Type 0 → Type 0
Io W A = W → Result A × W

module _ {W : Type 0} where
  abbrev pub pure : {A : Type 0} → A → Io W A
  pure a w = (ok a, w)

  abbrev pub lift : {A : Type 0} → Result A → Io W A
  lift r w = (r, w)

  abbrev pub throw : {A : Type 0} → Error → Io W A
  throw e w = (err e, w)

  abbrev pub throw_if : Bool → Error → Io W (Unit {0})
  throw_if true e w = (err e, w)
  throw_if false e w = (ok tt, w)

  infixl 5 ◌>>=◌ ◌>>◌
  abbrev pub ◌>>=◌ : {A B : Type 0} → Io W A → (A → Io W B) → Io W B
  ◌>>=◌ m f w = let (r, w') = m w in elim r [ ok a ↦ f a w' | err e ↦ (err e, w') ]

  abbrev pub ◌>>◌ : {A B : Type 0} → Io W A → Io W B → Io W B
  m >> k = m >>= λ _. k

  -- Inversion of a call that returned.
  pub >>=-eq-ok :
      {A B : Type 0} (m : Io W A) (f : A → Io W B) (w : W) {b : B}
      → ((m >>= f) w).0 ≡ ok b
      → (a : A) × ((m w).0 ≡ ok a) × ((f a (m w).1).0 ≡ ok b)
  >>=-eq-ok {A} {B} m f w {b} h = go (m w) h
    where
      go :
          (p : Result A × W)
          → (let (r, w') = p in
              let q : Result B × W = elim r [ ok a ↦ f a w' | err e ↦ (err e, w') ] in q.0)
            ≡ ok b
          → (a : A) × (p.0 ≡ ok a) × ((f a p.1).0 ≡ ok b)
      go (ok a, w') e = (a, refl, e)
      go (err e, w') h' = cc

  -- What holds behind a call holds behind the sequence, if what follows keeps it.
  pub >>=-keeps :
      {A B : Type 0} (P : W → Type 0) (m : Io W A) (f : A → Io W B) (w : W)
      → P (m w).1
      → ((a : A) (w' : W) → P w' → P (f a w').1)
      → P ((m >>= f) w).1
  >>=-keeps {A} {B} P m f w h k = go (m w) h
    where
      go :
          (p : Result A × W)
          → P p.1
          → P (
              let (r, w') = p in
              let q : Result B × W = elim r [ ok a ↦ f a w' | err e ↦ (err e, w') ] in q.1)
      go (ok a, w') h = k a w' h
      go (err e, w') h = h

  -- What a call does once its first part has returned, or thrown.
  pub >>=-of_ok :
      {A B : Type 0} (m : Io W A) (f : A → Io W B) (w : W) (a : A)
      → (m w).0 ≡ ok a
      → (m >>= f) w ≡ f a (m w).1
  >>=-of_ok {A} {B} m f w a h = go (m w) h
    where
      go :
          (p : Result A × W)
          → p.0 ≡ ok a
          → (let (r, w') = p in
              let q : Result B × W = elim r [ ok x ↦ f x w' | err e ↦ (err e, w') ] in q)
            ≡ f a p.1
      go (ok x, w') e = let same : x ≡ a = cc e in ap (λ y. f y w') same
      go (err x, w') e = cc

  pub >>=-of_err :
      {A B : Type 0} (m : Io W A) (f : A → Io W B) (w : W) (e : Error)
      → (m w).0 ≡ err e
      → (m >>= f) w ≡ (err e, (m w).1)
  >>=-of_err {A} {B} m f w e h = go (m w) h
    where
      go :
          (p : Result A × W)
          → p.0 ≡ err e
          → (let (r, w') = p in
              let q : Result B × W = elim r [ ok x ↦ f x w' | err x ↦ (err x, w') ] in q)
            ≡ (err e, p.1)
      go (ok x, w') h' = cc
      go (err x, w') h' = let same : x ≡ e = cc h' in ap (λ y. (err y, w')) same

pub bind_result-eq-ok :
    {A B : Type 0} (r : Result A) (f : A → Result B) {b : B}
    → bind_result r f ≡ ok b
    → (a : A) × (r ≡ ok a) × (f a ≡ ok b)
bind_result-eq-ok (ok a) f h = (a, refl, h)
bind_result-eq-ok (err e) f h = cc

-- At some state of the world, the call `m` returns `a`.
abbrev pub Said : {W A : Type 0} → Io W A → A → Type 0
Said {W} m a = (w : W) × ((m w).0 ≡ ok a)
