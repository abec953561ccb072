-- ===== src/Shim/Goal/Ledger.antt =====
-- The replay of `goalTotal`, raiz-shim.js lines 812-856: the openings of the goal's two
-- commitments, and the rows shown to the user, from the public events.
use raiz_confidential_stack.Prelude.{
  ℤ, pos, ◌+ℤ◌, Text, same_text, Bool, true, false, List, [], ◌∷◌, ◌++◌, Result, ok, bind_result,
  if◌then◌else◌,
}
use raiz_confidential_stack.Vendor.{Vendor, Place, Event, deposit, transfer, withdraw, merge, other}
use raiz_confidential_stack.Shim.Codec.{dec}

-- A row of `timeline`, with the texts that the source puts into it; the first two kinds are
-- also rows of `contributions`.
pub data Row : Type 0 where
  deposit_row : (from stroops : Text) → Place → Row
  aporte : (from stroops : Text) → Place → Row
  cosecha : (account : Text) → Place → Row
  salida : (to stroops : Text) → Place → Row
  retiro : (to stroops : Text) → Place → Row

-- The variables of the loop.
pub record Tally : Type 0 where
  pub spend_v : ℤ
  pub spend_r : ℤ
  pub recv_v : ℤ
  pub recv_r : ℤ
  pub spendable_provable : Bool
  pub contributions : List Row
  pub timeline : List Row

abbrev pub empty_tally : Tally
empty_tally = record {
  spend_v = pos 0;
  spend_r = pos 0;
  recv_v = pos 0;
  recv_r = pos 0;
  spendable_provable = true;
  contributions = [];
  timeline = [];
}

-- `contributions.push(c); timeline.push(c)` beside a credit to the receiving balance, with the new
-- sum of the randomness
unfoldable pub receive : ℤ → ℤ → Row → Tally → Tally
receive amount recv_r row t = record t {
  recv_v = t.recv_v +ℤ amount;
  recv_r = recv_r;
  contributions = t.contributions ++ row ∷ [];
  timeline = t.timeline ++ row ∷ [];
}

-- the branch of a merge
unfoldable pub harvest : Row → Tally → Tally
harvest row t = record t {
  spend_v = t.spend_v +ℤ t.recv_v;
  spend_r = t.spend_r +ℤ t.recv_r;
  recv_v = pos 0;
  recv_r = pos 0;
  timeline = t.timeline ++ row ∷ [];
}

-- the branches of an outflow
unfoldable pub pay_out : ℤ → Row → Tally → Tally
pay_out balance row t = record t {
  spend_v = balance;
  spendable_provable = false;
  timeline = t.timeline ++ row ∷ [];
}

module _ (V : Vendor) (k1 : ℤ) (goal : Text) where
  open V use {Cipher, audit_recipient, audit_sender, audit_withdraw}

  -- the body of `for (const ev of events)`
  unfoldable pub apply_event : Event Cipher → Tally → Result Tally
  unfolding receive harvest pay_out
  apply_event (deposit at from to amount) t =
      if same_text to goal
      then ok (receive amount t.recv_r (deposit_row from (dec amount) at) t)
      else ok t
  apply_event (transfer at from to c) t =
      if same_text to goal
      then bind_result (audit_recipient k1 c)
          (λ (amount, r_tx). ok (receive amount (t.recv_r +ℤ r_tx) (aporte from (dec amount) at) t))
      else if same_text from goal
      then bind_result (audit_sender k1 c)
          (λ (amount, balance). ok (pay_out balance (salida to (dec amount) at) t))
      else ok t
  apply_event (withdraw at from to amount c) t =
      if same_text from goal
      then bind_result (audit_withdraw k1 c)
          (λ balance. ok (pay_out balance (retiro to (dec amount) at) t))
      else ok t
  apply_event (merge at account) t =
      if same_text account goal then ok (harvest (cosecha account at) t) else ok t
  apply_event (other at kind) t = ok t

  -- the loop
  unfoldable pub replay : List (Event Cipher) → Tally → Result Tally
  replay [] t = ok t
  replay (ev ∷ events) t = bind_result (apply_event ev t) (λ t'. replay events t')
