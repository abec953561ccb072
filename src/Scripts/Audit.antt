-- ===== src/Scripts/Audit.antt =====
-- scripts/ct-flow/audit.mjs, lines 66-93: the goal's total rebuilt from public events and the view key,
-- and its comparison with the owner's balance.
pub mod Total
pub mod Report
pub mod Agreement
use raiz_confidential_stack.Prelude.{
  ℤ, pos, ◌+ℤ◌, ◌-ℤ◌, eqb_ℤ, Text, same_text, Bool, List, [], ◌∷◌, Result, ok, bind_result,
  if◌then◌else◌,
}
use raiz_confidential_stack.Vendor.{Vendor, Event, deposit, transfer, withdraw, merge, other}

module _ (V : Vendor) (k1 : ℤ) (goal : Text) where
  open V use {Cipher, audit_recipient, audit_sender}

  -- `if (ev.type === "transfer" && ev.to === goalAddr)`
  unfoldable pub add_incoming : Text → Cipher → ℤ → Result ℤ
  add_incoming to c total =
      if same_text to goal
      then bind_result (audit_recipient k1 c) (λ (amount, r_tx). ok (total +ℤ amount))
      else ok total

  -- `if (ev.type === "transfer" && ev.from === goalAddr)`
  unfoldable pub take_checkpoint : Text → Cipher → ℤ → Result ℤ
  take_checkpoint from c total =
      if same_text from goal
      then bind_result (audit_sender k1 c) (λ (amount, balance). ok balance)
      else ok total

  -- the body of `for (const ev of events)`: four tests, each on its own
  unfoldable pub add_event : Event Cipher → ℤ → Result ℤ
  unfolding add_incoming take_checkpoint
  add_event (deposit at from to amount) total =
      if same_text to goal then ok (total +ℤ amount) else ok total
  add_event (transfer at from to c) total =
      bind_result (add_incoming to c total) (take_checkpoint from c)
  add_event (withdraw at from to amount c) total =
      if same_text from goal then ok (total -ℤ amount) else ok total
  add_event (merge at account) total = ok total
  add_event (other at kind) total = ok total

  unfoldable pub add_events : List (Event Cipher) → ℤ → Result ℤ
  add_events [] total = ok total
  add_events (ev ∷ events) total =
      bind_result (add_event ev total) (λ total'. add_events events total')

  -- `total === ownerValue`
  unfoldable pub matches_owner : List (Event Cipher) → ℤ → Result Bool
  matches_owner events owner_value =
      bind_result (add_events events (pos 0)) (λ total. ok (eqb_ℤ total owner_value))
