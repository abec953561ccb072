-- ===== src/Shim/Goal/Amounts.antt =====
-- The amounts of `goalTotal` (raiz-shim.js): the total against the rows that are shown, and the events
-- that do not concern the goal.
use raiz_confidential_stack.Prelude.{
  ℤ, pos, ◌+ℤ◌, int_laws, Text, same_text, Bool, true, false, ◌||◌, Option, none, some, List, [],
  ◌∷◌, ◌++◌, ok, bind_result, bind_result-eq-ok, ◌≡◌, refl, ap, ◌∙◌, sym, arith, Bool-cases, inl,
  inr, +ℤ_assoc, +ℤ_zero, if◌then◌else◌,
}
use mathlib.Core.Path.{fun_ext, subst}
use mathlib.Core.Bool.{false≢true}
use raiz_confidential_stack.Values.{Value}
use raiz_confidential_stack.Vendor.{Vendor, Place, Event, deposit, transfer, withdraw, merge, other}
use raiz_confidential_stack.Shim.Codec.{read_big_int, dec}
use raiz_confidential_stack.Shim.Codec.RoundTrip.{read_big_int-dec}
use raiz_confidential_stack.Shim.Goal.Ledger.{
  Row, deposit_row, aporte, cosecha, salida, retiro, Tally, empty_tally, receive, harvest, pay_out,
  apply_event, replay,
}
use raiz_confidential_stack.Shim.Goal.Total.{Report, goal_total}
use raiz_confidential_stack.Shim.Goal.Verdict.{goal_total-verified}

abbrev or_zero : Option ℤ → ℤ
or_zero none = pos 0
or_zero (some n) = n

-- The amount that a text stands for, as `BigInt` reads it; 0 if it is none.
abbrev pub read_amount : Text → ℤ
read_amount s = or_zero (read_big_int s)

read_amount-dec : (n : ℤ) → read_amount (dec n) ≡ n
read_amount-dec n = ap or_zero (read_big_int-dec n)

-- The amount that a row of `contributions` shows.
unfoldable pub stroops : Row → ℤ
stroops (deposit_row from s at) = read_amount s
stroops (aporte from s at) = read_amount s
stroops _ = pos 0

unfoldable pub sum_rows : List Row → ℤ
sum_rows [] = pos 0
sum_rows (row ∷ rows) = stroops row +ℤ sum_rows rows

sum_rows-append :
    (rows : List Row) (row : Row) → sum_rows (rows ++ row ∷ []) ≡ sum_rows rows +ℤ stroops row
unfolding sum_rows
sum_rows-append [] row = omega int_laws
sum_rows-append (r ∷ rows) row = rw (sum_rows-append rows row) (omega int_laws)

-- As long as nothing was paid out, the two values add up to the rows.
abbrev IsBalanced : Tally → Type 0
IsBalanced t = t.spendable_provable ≡ true → t.spend_v +ℤ t.recv_v ≡ sum_rows t.contributions

receive-IsBalanced :
    (amount r : ℤ) (row : Row) (t : Tally)
    → stroops row ≡ amount
    → IsBalanced t
    → IsBalanced (receive amount r row t)
unfolding receive
receive-IsBalanced amount r row t e h p =
    rw (sum_rows-append t.contributions row, e)
      (sym (+ℤ_assoc t.spend_v t.recv_v amount) ∙ ap (λ x. x +ℤ amount) (h p))

harvest-IsBalanced : (row : Row) (t : Tally) → IsBalanced t → IsBalanced (harvest row t)
unfolding harvest
harvest-IsBalanced row t h p = +ℤ_zero (t.spend_v +ℤ t.recv_v) ∙ h p

module _ (V : Vendor) (k1 : ℤ) (goal : Text) where
  open V use {Cipher, World, audit_recipient, audit_sender, audit_withdraw}

  pay_out-IsBalanced : (balance : ℤ) (row : Row) (t : Tally) → IsBalanced (pay_out balance row t)
  unfolding pay_out
  pay_out-IsBalanced balance row t p = absurd (false≢true p)

  stroops-dec : (from : Text) (n : ℤ) (at : Place) → stroops (deposit_row from (dec n) at) ≡ n
  unfolding stroops
  stroops-dec from n at = read_amount-dec n

  stroops-aporte : (from : Text) (n : ℤ) (at : Place) → stroops (aporte from (dec n) at) ≡ n
  unfolding stroops
  stroops-aporte from n at = read_amount-dec n

  keep : {t t' : Tally} → ok t ≡ ok t' → IsBalanced t → IsBalanced t'
  keep {t} {t'} e h = let same : t ≡ t' = cc e in subst IsBalanced same h

  apply_event-IsBalanced :
      (ev : Event Cipher) (t : Tally) {t' : Tally}
      → apply_event V k1 goal ev t ≡ ok t'
      → IsBalanced t
      → IsBalanced t'
  unfolding apply_event receive harvest pay_out
  apply_event-IsBalanced (deposit at from to amount) t e h = elim (Bool-cases (same_text to goal)) [
    | inl mine ↦ keep (rw mine at e) (
        receive-IsBalanced amount t.recv_r (deposit_row from (dec amount) at) t
          (stroops-dec from amount at) h)
    | inr foreign ↦ keep (rw foreign at e) h
  ]
  apply_event-IsBalanced (transfer at from to c) t e h = elim (Bool-cases (same_text to goal)) [
    | inl mine ↦
        let ((amount, r), e1, e2) =
          bind_result-eq-ok (audit_recipient k1 c)
            (λ (amount, r). ok (receive amount (t.recv_r +ℤ r) (aporte from (dec amount) at) t))
            (rw mine at e) in
        keep e2 (
          receive-IsBalanced amount (t.recv_r +ℤ r) (aporte from (dec amount) at) t
            (stroops-aporte from amount at) h)
    | inr out ↦ elim (Bool-cases (same_text from goal)) [
      | inl paid ↦
          let ((amount, balance), e1, e2) =
            bind_result-eq-ok (audit_sender k1 c)
              (λ (amount, balance). ok (pay_out balance (salida to (dec amount) at) t))
              (rw (out, paid) at e) in
          keep e2 (pay_out-IsBalanced balance (salida to (dec amount) at) t)
      | inr foreign ↦ keep (rw (out, foreign) at e) h
    ]
  ]
  apply_event-IsBalanced (withdraw at from to amount c) t e h =
      elim (Bool-cases (same_text from goal)) [
        | inl paid ↦
            let (balance, e1, e2) =
              bind_result-eq-ok (audit_withdraw k1 c)
                (λ balance. ok (pay_out balance (retiro to (dec amount) at) t)) (rw paid at e) in
            keep e2 (pay_out-IsBalanced balance (retiro to (dec amount) at) t)
        | inr foreign ↦ keep (rw foreign at e) h
      ]
  apply_event-IsBalanced (merge at account) t e h = elim (Bool-cases (same_text account goal)) [
    | inl mine ↦ keep (rw mine at e) (harvest-IsBalanced (cosecha account at) t h)
    | inr foreign ↦ keep (rw foreign at e) h
  ]
  apply_event-IsBalanced (other at kind) t e h = keep e h

  replay-IsBalanced :
      (evs : List (Event Cipher)) (t : Tally) {t' : Tally}
      → replay V k1 goal evs t ≡ ok t'
      → IsBalanced t
      → IsBalanced t'
  unfolding replay
  replay-IsBalanced [] t e h = keep e h
  replay-IsBalanced (ev ∷ evs) t e h =
      let (t1, e1, e2) = bind_result-eq-ok (apply_event V k1 goal ev t) (replay V k1 goal evs) e in
      replay-IsBalanced evs t1 e2 (apply_event-IsBalanced ev t e1 h)

  -- Does an event name the goal where the replay looks?
  unfoldable pub touches : Event Cipher → Bool
  touches (deposit at from to amount) = same_text to goal
  touches (transfer at from to c) = same_text to goal || same_text from goal
  touches (withdraw at from to amount c) = same_text from goal
  touches (merge at account) = same_text account goal
  touches (other at kind) = false

  unfoldable pub touching : List (Event Cipher) → List (Event Cipher)
  unfolding touches
  touching [] = []
  touching (ev ∷ evs) = let rest = touching evs in if touches ev then ev ∷ rest else rest

  apply_event-foreign :
      (ev : Event Cipher) (t : Tally) → touches ev ≡ false → apply_event V k1 goal ev t ≡ ok t
  unfolding apply_event touches
  apply_event-foreign (deposit at from to amount) t h = ground arith
  apply_event-foreign (transfer at from to c) t h = ground arith
  apply_event-foreign (withdraw at from to amount c) t h = ground arith
  apply_event-foreign (merge at account) t h = ground arith
  apply_event-foreign (other at kind) t h = refl

  -- The replay of a token's whole history gives what the replay of the events that name the goal
  -- gives, in their order: all others change nothing.
  pub replay-touching :
      (evs : List (Event Cipher)) (t : Tally)
      → replay V k1 goal evs t ≡ replay V k1 goal (touching evs) t
  unfolding replay touching
  replay-touching [] t = refl
  replay-touching (ev ∷ evs) t = elim (Bool-cases (touches ev)) [
    | inl mine ↦
        rw mine
          (ap (bind_result (apply_event V k1 goal ev t)) (fun_ext (λ t'. replay-touching evs t')))
    | inr foreign ↦ rw (foreign, apply_event-foreign ev t foreign) (replay-touching evs t)
  ]

module _ (V : Vendor) where
  -- Where the goal has paid nothing out, the verified total is the sum of the amounts of the rows
  -- that the report shows, as they are printed there.
  pub goal_total-sum_rows :
      (json : Value) (w : V.World) {rep : Report}
      → (goal_total V json w).0 ≡ ok rep
      → rep.verified ≡ true
      → rep.fully_point_verified ≡ true
      → read_amount rep.total_stroops ≡ sum_rows rep.contributions
  unfolding sum_rows ◌+ℤ◌
  goal_total-sum_rows json w {rep} h flag full =
      let (p, q, e, e', backed) = goal_total-verified V json w h flag in
      let t = backed.tally in
      let balanced =
        replay-IsBalanced V q.k1 q.goal backed.history empty_tally {t' = t} backed.replayed
          (λ p'. refl) (sym backed.full ∙ full) in
      ap read_amount backed.total
      ∙ read_amount-dec (t.spend_v +ℤ t.recv_v)
      ∙ balanced
      ∙ ap sum_rows (sym backed.rows)
