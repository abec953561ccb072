-- ===== src/Scripts/Audit/Total.antt =====
-- The total of audit.mjs against the one of `goalTotal` (raiz-shim.js).
use raiz_confidential_stack.Prelude.{
  ℤ, pos, ◌+ℤ◌, Text, same_text, true, false, List, [], ◌∷◌, Result, ok, err, bind_result, ◌≡◌,
  refl, ap, ◌∙◌, sym, arith, Bool-cases, inl, inr, +ℤ_assoc, +ℤ_zero,
}
use raiz_confidential_stack.Vendor.{Vendor, Place, Event, deposit, transfer, withdraw, merge, other}
use raiz_confidential_stack.Shim.Goal.Ledger.{
  Row, aporte, Tally, empty_tally, apply_event, replay, receive, pay_out,
}
use raiz_confidential_stack.Shim.Codec.{dec}
use raiz_confidential_stack.Scripts.Audit.{add_incoming, take_checkpoint, add_event, add_events}

module _ (V : Vendor) (k1 : ℤ) (goal : Text) where
  open V use {Cipher, audit_recipient}

  -- The goal sends nothing in this event.
  abbrev pub KeepsMoney : Event Cipher → Type 0
  KeepsMoney (transfer at from to c) = same_text from goal ≡ false
  KeepsMoney (withdraw at from to amount c) = same_text from goal ≡ false
  KeepsMoney _ = Unit

  abbrev pub AllKeepMoney : List (Event Cipher) → Type 0
  AllKeepMoney [] = Unit
  AllKeepMoney (ev ∷ events) = KeepsMoney ev × AllKeepMoney events

  -- One count is ahead of the other by nothing, or both throw the same.
  abbrev pub SameTotal : Result Tally → Result ℤ → Type 0
  SameTotal (ok t) (ok n) = t.spend_v +ℤ t.recv_v ≡ n
  SameTotal (err e) (err f) = e ≡ f
  SameTotal _ _ = ⊥

  take_checkpoint_foreign :
      (from : Text) (c : Cipher) (n : ℤ)
      → same_text from goal ≡ false
      → take_checkpoint V k1 goal from c n ≡ ok n
  unfolding take_checkpoint
  take_checkpoint_foreign from c n h = rw h

  incoming :
      (r : Result (ℤ × ℤ)) (t : Tally) (n : ℤ) (row : ℤ → Row) (from : Text) (c : Cipher)
      → same_text from goal ≡ false
      → t.spend_v +ℤ t.recv_v ≡ n
      → SameTotal
          (bind_result r (λ (amount, r_tx). ok (receive amount (t.recv_r +ℤ r_tx) (row amount) t)))
          (bind_result
            (bind_result r (λ (amount, r_tx). ok (n +ℤ amount)))
            (take_checkpoint V k1 goal from c))
  unfolding receive
  incoming (ok (amount, r_tx)) t n row from c keeps h =
      rw (take_checkpoint_foreign from c (n +ℤ amount) keeps)
        (sym (+ℤ_assoc t.spend_v t.recv_v amount) ∙ ap (λ x. x +ℤ amount) h)
  incoming (err e) t n row from c keeps h = refl

  add_event-SameTotal :
      (ev : Event Cipher) (t : Tally) (n : ℤ)
      → KeepsMoney ev
      → t.spend_v +ℤ t.recv_v ≡ n
      → SameTotal (apply_event V k1 goal ev t) (add_event V k1 goal ev n)
  unfolding apply_event add_event
  add_event-SameTotal (deposit at from to amount) t n keeps h =
      elim (Bool-cases (same_text to goal)) [
        | inl mine ↦ rw mine (sym (+ℤ_assoc t.spend_v t.recv_v amount) ∙ ap (λ x. x +ℤ amount) h)
        | inr foreign ↦ rw foreign h
      ]
  add_event-SameTotal (transfer at from to c) t n keeps h = elim (Bool-cases (same_text to goal)) [
    | inl mine ↦
        rw mine (
          incoming (audit_recipient k1 c) t n (λ amount. aporte from (dec amount) at) from c keeps
            h)
    | inr foreign ↦ rw (foreign, keeps) h
  ]
  add_event-SameTotal (withdraw at from to amount c) t n keeps h = rw keeps h
  add_event-SameTotal (merge at account) t n keeps h = elim (Bool-cases (same_text account goal)) [
    | inl mine ↦ rw mine (+ℤ_zero (t.spend_v +ℤ t.recv_v) ∙ h)
    | inr foreign ↦ rw foreign h
  ]
  add_event-SameTotal (other at kind) t n keeps h = h

  step_both :
      (r : Result Tally) (r' : Result ℤ) (f : Tally → Result Tally) (g : ℤ → Result ℤ)
      → SameTotal r r'
      → ((t : Tally) (n : ℤ) → t.spend_v +ℤ t.recv_v ≡ n → SameTotal (f t) (g n))
      → SameTotal (bind_result r f) (bind_result r' g)
  step_both (ok t) (ok n) f g h next = next t n h
  step_both (err e) (err x) f g h next = h
  step_both (ok t) (err x) f g h next = absurd h
  step_both (err e) (ok n) f g h next = absurd h

  add_events-SameTotal :
      (events : List (Event Cipher)) (t : Tally) (n : ℤ)
      → AllKeepMoney events
      → t.spend_v +ℤ t.recv_v ≡ n
      → SameTotal (replay V k1 goal events t) (add_events V k1 goal events n)
  unfolding replay add_events
  add_events-SameTotal [] t n keeps h = h
  add_events-SameTotal (ev ∷ events) t n (keep, keeps) h =
      step_both (apply_event V k1 goal ev t) (add_event V k1 goal ev n) (replay V k1 goal events)
        (add_events V k1 goal events) (add_event-SameTotal ev t n keep h)
        (λ t' n' h'. add_events-SameTotal events t' n' keeps h')

  -- Over events in which the goal sends nothing, audit.mjs and the app's replay end with the same
  -- total, or throw the same error.
  pub add_events-replay :
      (events : List (Event Cipher))
      → AllKeepMoney events
      → SameTotal (replay V k1 goal events empty_tally) (add_events V k1 goal events (pos 0))
  add_events-replay events keeps =
      add_events-SameTotal events empty_tally (pos 0) keeps (+ℤ_zero (pos 0))

  -- An outgoing transfer makes audit.mjs forget what is still waiting in the receiving balance:
  -- whatever it had counted, its total falls short of the app's by exactly that amount.
  pub add_event_forgets_pending :
      (at : Place) (from to : Text) (c : Cipher) (t : Tally) (n : ℤ) {t' : Tally} {n' : ℤ}
      → same_text to goal ≡ false
      → same_text from goal ≡ true
      → apply_event V k1 goal (transfer at from to c) t ≡ ok t'
      → add_event V k1 goal (transfer at from to c) n ≡ ok n'
      → t'.spend_v +ℤ t'.recv_v ≡ n' +ℤ t.recv_v
  unfolding apply_event add_event add_incoming take_checkpoint pay_out
  add_event_forgets_pending at from to c t n out paid e e' = ground arith
