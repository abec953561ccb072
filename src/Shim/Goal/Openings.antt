-- ===== src/Shim/Goal/Openings.antt =====
-- What the wrapper contract does to the two commitments of a goal's account, event by event, and
-- the replay of raiz-shim.js as a refinement of it.
use raiz_confidential_stack.Prelude.{
  inr, inl, ◌⊎◌, +ℤ_zero, ◌∙◌, ap, ℤ, pos, ◌+ℤ◌, Text, same_text, true, false, List, [], ◌∷◌, ok,
  ◌≡◌, refl,
}
use raiz_confidential_stack.Vendor.{Vendor, Event, Place, deposit, transfer, withdraw, merge, other}
use raiz_confidential_stack.Shim.Goal.Ledger.{
  Tally, deposit_row, aporte, cosecha, salida, retiro, receive, harvest, pay_out, apply_event,
  replay,
}
use raiz_confidential_stack.Shim.Codec.{dec}

-- The two commitments of an account.
pub record Balances (P : Type 0) : Type 0 where
  pub spendable : P
  pub receiving : P

-- Pedersen commitments add up: the sum of two points is a commitment to the sums, for every point
-- with the coordinates of a commitment.
pub record IsHomomorphic (V : Vendor) (add : V.Point → V.Point → V.Point) : Type 0 where
  pub add_commit :
      (p q : V.Point) (a b c d : ℤ)
      → V.coords p ≡ V.coords (V.commit a b)
      → V.coords q ≡ V.coords (V.commit c d)
      → V.coords (add p q) ≡ V.coords (V.commit (a +ℤ c) (b +ℤ d))

module _ (V : Vendor) (add : V.Point → V.Point → V.Point) (k1 : ℤ) (goal : Text) where
  open V use {Point, Cipher, coords, commit, audit_recipient, audit_sender, audit_withdraw}

  -- The contract on one event, for the account of the goal. The recipient's channel of a transfer
  -- carries the opening of what the transfer adds; an outflow leaves a commitment to the balance
  -- that the sender's channel carries, under randomness of the owner. A transfer from the goal to
  -- itself is taken for a credit alone, as the replay takes it.
  pub data Applied : Event Cipher → Balances Point → Balances Point → Type 0 where
    deposited :
        (b : Balances Point) (at : Place) (from to : Text) (amount : ℤ)
        → same_text to goal ≡ true
        → Applied
            (deposit at from to amount)
            b
            (record b { receiving = add b.receiving (commit amount (pos 0)) })
    received :
        (b : Balances Point) (at : Place) (from to : Text) (c : Cipher) (amount r : ℤ)
        → same_text to goal ≡ true
        → audit_recipient k1 c ≡ ok (amount, r)
        → Applied
            (transfer at from to c)
            b
            (record b { receiving = add b.receiving (commit amount r) })
    merged :
        (b : Balances Point) (at : Place) (account : Text)
        → same_text account goal ≡ true
        → Applied
            (merge at account)
            b
            (record { spendable = add b.spendable b.receiving; receiving = commit (pos 0) (pos 0) })
    sent :
        (b : Balances Point) (at : Place) (from to : Text) (c : Cipher) (amount balance r : ℤ)
        → same_text to goal ≡ false
        → same_text from goal ≡ true
        → audit_sender k1 c ≡ ok (amount, balance)
        → Applied (transfer at from to c) b (record b { spendable = commit balance r })
    withdrawn :
        (b : Balances Point) (at : Place) (from to : Text) (c : Cipher) (amount balance r : ℤ)
        → same_text from goal ≡ true
        → audit_withdraw k1 c ≡ ok balance
        → Applied (withdraw at from to amount c) b (record b { spendable = commit balance r })
    other_deposit :
        (b : Balances Point) (at : Place) (from to : Text) (amount : ℤ)
        → same_text to goal ≡ false
        → Applied (deposit at from to amount) b b
    other_transfer :
        (b : Balances Point) (at : Place) (from to : Text) (c : Cipher)
        → same_text to goal ≡ false
        → same_text from goal ≡ false
        → Applied (transfer at from to c) b b
    other_withdraw :
        (b : Balances Point) (at : Place) (from to : Text) (amount : ℤ) (c : Cipher)
        → same_text from goal ≡ false
        → Applied (withdraw at from to amount c) b b
    other_merge :
        (b : Balances Point) (at : Place) (account : Text)
        → same_text account goal ≡ false
        → Applied (merge at account) b b
    other_event : (b : Balances Point) (at : Place) (kind : Text) → Applied (other at kind) b b

  pub data AppliedAll : List (Event Cipher) → Balances Point → Balances Point → Type 0 where
    done : (b : Balances Point) → AppliedAll [] b b
    step :
        {ev : Event Cipher} {evs : List (Event Cipher)} {b b' b'' : Balances Point}
        → Applied ev b b'
        → AppliedAll evs b' b''
        → AppliedAll (ev ∷ evs) b b''

  -- The tally opens the two commitments. Of the spendable one it always knows the value, and the
  -- randomness as long as the goal has paid nothing out.
  pub record IsOpening (t : Tally) (b : Balances Point) : Type 0 where
    pub receiving_open : coords b.receiving ≡ coords (commit t.recv_v t.recv_r)
    pub spendable_r : ℤ
    pub spendable_value : coords b.spendable ≡ coords (commit t.spend_v spendable_r)
    pub spendable_open : (t.spendable_provable ≡ false) ⊎ (spendable_r ≡ t.spend_r)

  merged_r :
      (t : Tally) (r : ℤ)
      → (t.spendable_provable ≡ false) ⊎ (r ≡ t.spend_r)
      → (t.spendable_provable ≡ false) ⊎ (r +ℤ t.recv_r ≡ t.spend_r +ℤ t.recv_r)
  merged_r t r (inl paid_out) = inl paid_out
  merged_r t r (inr e) = inr (ap (λ x. x +ℤ t.recv_r) e)

  module _ (hom : IsHomomorphic V add) where
    apply_event-IsOpening :
        {ev : Event Cipher} {b b' : Balances Point} (t : Tally)
        → Applied ev b b'
        → IsOpening t b
        → (t' : Tally) × (apply_event V k1 goal ev t ≡ ok t') × IsOpening t' b'
    unfolding apply_event receive harvest pay_out
    apply_event-IsOpening t (deposited b at from to amount h) o = (
      receive amount t.recv_r (deposit_row from (dec amount) at) t,
      rw h,
      record {
        receiving_open =
            hom.add_commit _ _ _ _ _ _ o.receiving_open refl
            ∙ ap (λ r. coords (commit (t.recv_v +ℤ amount) r)) (+ℤ_zero t.recv_r);
        spendable_r = o.spendable_r;
        spendable_value = o.spendable_value;
        spendable_open = o.spendable_open;
      },
    )
    apply_event-IsOpening t (received b at from to c amount r h e) o = (
      receive amount (t.recv_r +ℤ r) (aporte from (dec amount) at) t,
      rw (h, e),
      record {
        receiving_open = hom.add_commit _ _ _ _ _ _ o.receiving_open refl;
        spendable_r = o.spendable_r;
        spendable_value = o.spendable_value;
        spendable_open = o.spendable_open;
      },
    )
    apply_event-IsOpening t (merged b at account h) o = (
      harvest (cosecha account at) t,
      rw h,
      record {
        receiving_open = refl;
        spendable_r = o.spendable_r +ℤ t.recv_r;
        spendable_value = hom.add_commit _ _ _ _ _ _ o.spendable_value o.receiving_open;
        spendable_open = merged_r t o.spendable_r o.spendable_open;
      },
    )
    apply_event-IsOpening t (sent b at from to c amount balance r h h' e) o = (
      pay_out balance (salida to (dec amount) at) t,
      rw (h, h', e),
      record {
        receiving_open = o.receiving_open;
        spendable_r = r;
        spendable_value = refl;
        spendable_open = inl refl;
      },
    )
    apply_event-IsOpening t (withdrawn b at from to c amount balance r h e) o = (
      pay_out balance (retiro to (dec amount) at) t,
      rw (h, e),
      record {
        receiving_open = o.receiving_open;
        spendable_r = r;
        spendable_value = refl;
        spendable_open = inl refl;
      },
    )
    apply_event-IsOpening t (other_deposit b at from to amount h) o = (t, rw h, o)
    apply_event-IsOpening t (other_transfer b at from to c h h') o = (t, rw (h, h'), o)
    apply_event-IsOpening t (other_withdraw b at from to amount c h) o = (t, rw h, o)
    apply_event-IsOpening t (other_merge b at account h) o = (t, rw h, o)
    apply_event-IsOpening t (other_event b at kind) o = (t, refl, o)

    -- The replay follows the contract: over a history that the contract has applied, it reads every
    -- event, and its sums open the two commitments that the contract is left with.
    pub replay-IsOpening :
        {evs : List (Event Cipher)} {b b' : Balances Point} (t : Tally)
        → AppliedAll evs b b'
        → IsOpening t b
        → (t' : Tally) × (replay V k1 goal evs t ≡ ok t') × IsOpening t' b'
    unfolding replay
    replay-IsOpening t (done b) o = (t, refl, o)
    replay-IsOpening t (step a rest) o =
        let (t', e, o') = apply_event-IsOpening t a o in
        let (t'', e', o'') = replay-IsOpening t' rest o' in (t'', rw e e', o'')
