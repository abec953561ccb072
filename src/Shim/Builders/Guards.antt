-- ===== src/Shim/Builders/Guards.antt =====
-- What the builders of raiz-shim.js (lines 435-526) never build.
use raiz_confidential_stack.Prelude.{
  ℕ, pos, ◌≤ℤ◌, Bool, true, false, Result, ok, Error, lift, throw_if, ◌>>=◌, ◌≡◌, refl, ap, sym,
  ◌∙◌, >>=-eq-ok, >>=-of_ok,
}
use raiz_confidential_stack.Values.{Value}
use raiz_confidential_stack.Vendor.{Vendor, Synced}
use raiz_confidential_stack.Shim.Codec.{parse_params}
use raiz_confidential_stack.Shim.Prover.Engine.{Platform, Session, outside}
use raiz_confidential_stack.Shim.Builders.{Num, Unsigned, sync_state}
use raiz_confidential_stack.Shim.Builders.Sent.{IsAnswered, IsSent}
use raiz_confidential_stack.Shim.Builders.Proving.{
  to_sign_of, register_call, register_account, Order, Applicant, Registration, Transfer, Parties,
  read_order, read_applicant, register_unless, register_applicant, register_of_params,
  prepare_register,
}

throw_if-world : {W : Type 0} (b : Bool) (e : Error) (w : W) → (throw_if b e w).1 ≡ w
throw_if-world true e w = refl
throw_if-world false e w = refl

module _ (V : Vendor) where
  module _ (platform : Platform) where
    -- What has held of the request `json` when the transfer `t` was built.
    pub record Covered (json : Value) (t : Transfer) (s : Session V) : Type 0 where
      pub params : Value
      pub order : Order
      pub keys : V.Keys
      pub state : Synced
      pub parties : Parties V
      pub parsed : parse_params V json ≡ ok params
      pub read : read_order params ≡ ok order
      pub synced : (sync_state V order.client params order.from s.world).0 ≡ ok (keys, state)
      pub both_registered : IsAnswered V order parties
      pub positive : pos 1 ≤ℤ order.amount
      pub covered : order.amount ≤ℤ state.spendable.v
      pub sent : IsSent V platform order keys state parties t

    -- What the chain has said of an account whose registration was prepared, and what became of it.
    pub data Answered (a : Applicant) (s : Session V) (out : Result Registration × Session V)
        : Type 0 where
      there_already :
          (V.is_registered a.client a.account s.world).0 ≡ ok true
          → out ≡ (
            ok (Registration.already_registered a.account),
            (outside V (V.is_registered a.client a.account) s).1,
          )
          → Answered a s out
      to_be_signed :
          (V.is_registered a.client a.account s.world).0 ≡ ok false
          → (tx : Unsigned) (auditor_id : Num) (n : ℕ)
          → out.0 ≡ ok (Registration.to_sign tx auditor_id n)
          → Answered a s out

    answered :
        (p : Value) (a : Applicant) (b : Bool) (s : Session V) (r : Registration)
        (out : Result Registration × Session V)
        → (V.is_registered a.client a.account s.world).0 ≡ ok b
        → out
          ≡ register_unless V platform p a b (outside V (V.is_registered a.client a.account) s).1
        → out.0 ≡ ok r
        → Answered a s out
    unfolding register_unless register_account
    answered p a true s r out hb e h = Answered.there_already hb e
    answered p a false s r out hb e h =
        let s1 = (outside V (V.is_registered a.client a.account) s).1 in
        let m = register_call V platform p a in
        let h' : ((m >>= to_sign_of V platform) s1).0 ≡ ok r = ap (λ x. x.0) (sym e) ∙ h in
        let ((tx, id, n), hx, _) = >>=-eq-ok m (to_sign_of V platform) s1 h' in
        Answered.to_be_signed hb tx id n
          (ap (λ x. x.0) (e ∙ >>=-of_ok m (to_sign_of V platform) s1 (tx, id, n) hx))

    -- Where a registration is prepared, the chain has answered whether the account is registered. If
    -- it is, that is the result, and the session is the one behind the question: nothing was loaded
    -- or proved. If it is not, the result is a call to sign.
    pub prepare_register-Answered :
        (json : Value) (s : Session V) (r : Registration)
        → (prepare_register V platform json s).0 ≡ ok r
        → (p : Value) × (a : Applicant) × (parse_params V json ≡ ok p)
          × (read_applicant p ≡ ok a)
          × Answered a s (prepare_register V platform json s)
    unfolding prepare_register register_of_params register_applicant outside
    prepare_register-Answered json s r h =
        let (p, hp, h1) =
          >>=-eq-ok (lift (parse_params V json)) (register_of_params V platform) s h in
        let (a, ha, h2) =
          >>=-eq-ok (lift (read_applicant p)) (register_applicant V platform p) s h1 in
        let m = outside V (V.is_registered a.client a.account) in
        let (b, hb, h3) = >>=-eq-ok m (register_unless V platform p a) s h2 in
        let whole : prepare_register V platform json s ≡ register_unless V platform p a b (m s).1 =
          >>=-of_ok (lift (parse_params V json)) (register_of_params V platform) s p hp
          ∙ >>=-of_ok (lift (read_applicant p)) (register_applicant V platform p) s a ha
          ∙ >>=-of_ok m (register_unless V platform p a) s b hb in
        (p, a, hp, ha, answered p a b s r (prepare_register V platform json s) hb whole h)
