-- ===== src/Scripts/VerifyGoal/Agreement.antt =====
-- verify-goal-total.mjs and `goalTotal` of raiz-shim.js count alike: a run of the script that exits
-- with 0 sees the sums that the app reports, and the comparison that the app makes agrees.
use raiz_confidential_stack.Prelude.{
  ℤ, ◌+ℤ◌, Text, same_text, false, List, [], ◌∷◌, ◌++◌, Result, ok, err, bind_result, ◌≡◌, refl, ap,
  arith, length, length-append, Bool-cases, inl, inr,
}
use mathlib.Core.Path.{ap₂, subst}
use raiz_confidential_stack.Vendor.{
  Vendor, Account, Event, deposit, transfer, withdraw, merge, other,
}
use raiz_confidential_stack.Shim.Goal.Ledger.{Row, Tally, empty_tally, apply_event, replay, pay_out}
use raiz_confidential_stack.Scripts.VerifyGoal
use raiz_confidential_stack.Shim.Goal.Checks.{compare_openings, disagrees}
use raiz_confidential_stack.Scripts.VerifyGoal.{
  Line, Sums, no_sums, count_event, count_events, mismatch,
}

-- The same four sums, the same flag, and as many rows.
pub record Agrees (t : Tally) (s : Sums) : Type 0 where
  pub same_spend_v : t.spend_v ≡ s.spend_v
  pub same_spend_r : t.spend_r ≡ s.spend_r
  pub same_recv_v : t.recv_v ≡ s.recv_v
  pub same_recv_r : t.recv_r ≡ s.recv_r
  pub same_provable : t.spendable_provable ≡ s.spendable_provable
  pub same_rows : length t.timeline ≡ length s.contributions

-- Both go on, and agree, or both throw the same.
abbrev pub AgreeResults : Result Tally → Result Sums → Type 0
AgreeResults (ok t) (ok s) = Agrees t s
AgreeResults (err e) (err f) = e ≡ f
AgreeResults _ _ = ⊥

rows_grow :
    {A B : Type 0} (xs : List A) (ys : List B) (x : A) (y : B)
    → length xs ≡ length ys
    → length (xs ++ x ∷ []) ≡ length (ys ++ y ∷ [])
rows_grow xs ys x y h = omega (arith, length-append xs (x ∷ []), length-append ys (y ∷ []))

bind-Agrees :
    {A : Type 0} (r : Result A) (f : A → Result Tally) (g : A → Result Sums)
    → ((a : A) → AgreeResults (f a) (g a))
    → AgreeResults (bind_result r f) (bind_result r g)
bind-Agrees (ok a) f g h = h a
bind-Agrees (err e) f g h = refl

bind_both :
    (r : Result Tally) (r' : Result Sums) (f : Tally → Result Tally) (g : Sums → Result Sums)
    → AgreeResults r r'
    → ((t : Tally) (s : Sums) → Agrees t s → AgreeResults (f t) (g s))
    → AgreeResults (bind_result r f) (bind_result r' g)
bind_both (ok t) (ok s) f g a h = h t s a
bind_both (err e) (err x) f g a h = a
bind_both (ok t) (err x) f g a h = absurd a
bind_both (err e) (ok s) f g a h = absurd a

module _ (V : Vendor) (k1 : ℤ) (goal : Text) where
  open V use {Point, Cipher, audit_recipient, audit_sender, audit_withdraw}

  paid_out :
      (t : Tally) (s : Sums)
      → Agrees t s
      → (balance : ℤ) (row : Row) (line : Line)
      → Agrees (pay_out balance row t) (record s {
        spend_v = balance;
        spendable_provable = false;
        contributions = s.contributions ++ line ∷ [];
      })
  unfolding pay_out
  paid_out t s a balance row line = record {
    same_spend_v = refl;
    same_spend_r = a.same_spend_r;
    same_recv_v = a.same_recv_v;
    same_recv_r = a.same_recv_r;
    same_provable = refl;
    same_rows = rows_grow t.timeline s.contributions row line a.same_rows;
  }

  count_event-Agrees :
      (ev : Event Cipher) (t : Tally) (s : Sums)
      → Agrees t s
      → AgreeResults (apply_event V k1 goal ev t) (count_event V k1 goal ev s)
  unfolding apply_event count_event
  count_event-Agrees (deposit at from to amount) t s a = elim (Bool-cases (same_text to goal)) [
    | inl mine ↦ rw mine (record {
      same_spend_v = a.same_spend_v;
      same_spend_r = a.same_spend_r;
      same_recv_v = ap (λ x. x +ℤ amount) a.same_recv_v;
      same_recv_r = a.same_recv_r;
      same_provable = a.same_provable;
      same_rows = rows_grow t.timeline s.contributions _ _ a.same_rows;
    })
    | inr foreign ↦ rw foreign a
  ]
  count_event-Agrees (transfer at from to c) t s a = elim (Bool-cases (same_text to goal)) [
    | inl mine ↦ rw mine (
        bind-Agrees (audit_recipient k1 c) _ _ λ (amount, r). record {
          same_spend_v = a.same_spend_v;
          same_spend_r = a.same_spend_r;
          same_recv_v = ap (λ x. x +ℤ amount) a.same_recv_v;
          same_recv_r = ap (λ x. x +ℤ r) a.same_recv_r;
          same_provable = a.same_provable;
          same_rows = rows_grow t.timeline s.contributions _ _ a.same_rows;
        })
    | inr out ↦ elim (Bool-cases (same_text from goal)) [
      | inl paid ↦
          rw (out, paid)
            (bind-Agrees (audit_sender k1 c) _ _ λ (amount, balance). paid_out t s a balance _ _)
      | inr foreign ↦ rw (out, foreign) a
    ]
  ]
  count_event-Agrees (withdraw at from to amount c) t s a =
      elim (Bool-cases (same_text from goal)) [
        | inl paid ↦
            rw paid (bind-Agrees (audit_withdraw k1 c) _ _ λ balance. paid_out t s a balance _ _)
        | inr foreign ↦ rw foreign a
      ]
  count_event-Agrees (merge at account) t s a = elim (Bool-cases (same_text account goal)) [
    | inl mine ↦ rw mine (record {
      same_spend_v = ap₂ (λ x y. x +ℤ y) a.same_spend_v a.same_recv_v;
      same_spend_r = ap₂ (λ x y. x +ℤ y) a.same_spend_r a.same_recv_r;
      same_recv_v = refl;
      same_recv_r = refl;
      same_provable = a.same_provable;
      same_rows = rows_grow t.timeline s.contributions _ _ a.same_rows;
    })
    | inr foreign ↦ rw foreign a
  ]
  count_event-Agrees (other at kind) t s a = a

  count_events-Agrees :
      (events : List (Event Cipher)) (t : Tally) (s : Sums)
      → Agrees t s
      → AgreeResults (replay V k1 goal events t) (count_events V k1 goal events s)
  unfolding replay count_events
  count_events-Agrees [] t s a = a
  count_events-Agrees (ev ∷ events) t s a =
      bind_both (apply_event V k1 goal ev t) (count_event V k1 goal ev s) (replay V k1 goal events)
        (count_events V k1 goal events) (count_event-Agrees ev t s a)
        (λ t' s' a'. count_events-Agrees events t' s' a')

  no_sums-Agrees : Agrees empty_tally no_sums
  no_sums-Agrees = record {
    same_spend_v = refl;
    same_spend_r = refl;
    same_recv_v = refl;
    same_recv_r = refl;
    same_provable = refl;
    same_rows = refl;
  }

  -- The script's test for a mismatch is the app's.
  mismatch-disagrees :
      (t : Tally) (s : Sums) (account : Account Point)
      → Agrees t s
      → mismatch V s account ≡ disagrees V t (compare_openings V t account false)
  unfolding mismatch disagrees compare_openings VerifyGoal.same_point
  mismatch-disagrees t s account a =
      rw (a.same_spend_v, a.same_spend_r, a.same_recv_v, a.same_recv_r, a.same_provable)

  replayed_alike :
      (r : Result Tally) (s : Sums) → AgreeResults r (ok s) → (t : Tally) × (r ≡ ok t) × Agrees t s
  replayed_alike (ok t) s a = (t, refl, a)
  replayed_alike (err e) s a = absurd a

  -- Over the same events and key, script and app throw the same error, or reach the same four sums
  -- and the same flag, with as many rows.
  pub count_events-replay :
      (events : List (Event Cipher))
      → AgreeResults (replay V k1 goal events empty_tally) (count_events V k1 goal events no_sums)
  count_events-replay events = count_events-Agrees events empty_tally no_sums no_sums-Agrees

  -- Where the script's count succeeds, so does the app's replay, with the same sums, and the script
  -- finds a mismatch with an account exactly if the app's first comparison disagrees.
  pub count_events-mismatch :
      (events : List (Event Cipher)) (account : Account Point) {s : Sums}
      → count_events V k1 goal events no_sums ≡ ok s
      → (t : Tally) × (replay V k1 goal events empty_tally ≡ ok t)
        × Agrees t s
        × (mismatch V s account ≡ disagrees V t (compare_openings V t account false))
  count_events-mismatch events account {s} h =
      let (t, e, a) = replayed_alike (replay V k1 goal events empty_tally) s (
        subst (AgreeResults (replay V k1 goal events empty_tally)) h
          (count_events-Agrees events empty_tally no_sums no_sums-Agrees)) in
      (t, e, a, mismatch-disagrees t s account a)
