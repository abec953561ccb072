-- ===== src/Scripts/VerifyGoal.antt =====
-- scripts/verify-goal-total/verify-goal-total.mjs, lines 87-238: the total of a goal from public chain
-- data and the published view key. A call of `main` that throws exits with 1.
pub mod Agreement
use raiz_confidential_stack.Prelude.{
  ℕ, ℤ, pos, ◌+ℤ◌, Text, codes, same_text, Bool, true, false, not, ◌&&◌, ◌||◌, ◌==◌, Option, none,
  some, List, [], ◌∷◌, ◌++◌, Result, ok, err, Error, bind_result, Io, pure, lift, throw_if, ◌>>=◌,
  ◌>>◌, if◌then◌else◌, take,
}
use raiz_confidential_stack.Vendor.{
  Vendor, Client, Account, GoalRecord, Event, deposit, transfer, withdraw, merge, other,
}
use raiz_confidential_stack.Scripts.Retry.{retry}
use raiz_confidential_stack.Scripts.Format.{fmt_xlm, short}

-- The configuration: config.json, or what the command line puts in its place.
pub record Config : Type 0 where
  pub client : Client
  pub goal : Text
  pub view_key : ℤ
  pub from_ledger : ℕ
  pub goal_meta : Option Text
  pub goal_meta_id : ℕ

-- A line of `contributions`, by the texts that it is made of.
pub data Line : Type 0 where
  deposit_line : (ledger : ℕ) (from amount tx : Text) → Line
  aporte_line : (ledger : ℕ) (from amount tx : Text) → Line
  merge_line : (ledger : ℕ) → Line
  outgoing_line : (ledger : ℕ) (amount tx : Text) → Line
  withdraw_line : (ledger : ℕ) (amount tx : Text) → Line

-- The accumulators.
pub record Sums : Type 0 where
  pub spend_v : ℤ
  pub spend_r : ℤ
  pub recv_v : ℤ
  pub recv_r : ℤ
  pub spendable_provable : Bool
  pub contributions : List Line

abbrev pub no_sums : Sums
no_sums = record {
  spend_v = pos 0;
  spend_r = pos 0;
  recv_v = pos 0;
  recv_r = pos 0;
  spendable_provable = true;
  contributions = [];
}

-- What the script prints at its end and exits with 0: the total, whether the spendable commitment
-- was checked, and the ledger.
pub record Printed : Type 0 where
  pub total : Text
  pub fully_checked : Bool
  pub ledger : ℕ

module _ (V : Vendor) where
  open V use {
    World, Point, Cipher, coords, commit, point_from_bytes, auditor_public_key, audit_recipient,
    audit_sender, audit_withdraw, confidential_balance, auditor_key, latest_ledger, get_goal,
    fetch_events,
  }

  unfoldable pub same_point : Point → Point → Bool
  same_point a b = ((coords a).0 == (coords b).0) && ((coords a).1 == (coords b).1)

  module _ (view_key : ℤ) (goal : Text) where
    -- the body of `for (const ev of events)`
    unfoldable pub count_event : Event Cipher → Sums → Result Sums
    count_event (deposit at from to amount) s =
        if same_text to goal
        then ok (record s {
          recv_v = s.recv_v +ℤ amount;
          contributions =
              s.contributions
              ++ deposit_line at.ledger (short from) (fmt_xlm amount) (take 8 at.tx_hash) ∷ [];
        })
        else ok s
    count_event (transfer at from to c) s =
        if same_text to goal
        then bind_result (audit_recipient view_key c) (λ (amount, r_tx). ok (record s {
          recv_v = s.recv_v +ℤ amount;
          recv_r = s.recv_r +ℤ r_tx;
          contributions =
              s.contributions
              ++ aporte_line at.ledger (short from) (fmt_xlm amount) (take 8 at.tx_hash) ∷ [];
        }))
        else if same_text from goal
        then bind_result (audit_sender view_key c) (λ (amount, balance). ok (record s {
          spend_v = balance;
          spendable_provable = false;
          contributions =
              s.contributions ++ outgoing_line at.ledger (fmt_xlm amount) (take 8 at.tx_hash) ∷ [];
        }))
        else ok s
    count_event (withdraw at from to amount c) s =
        if same_text from goal
        then bind_result (audit_withdraw view_key c) (λ balance. ok (record s {
          spend_v = balance;
          spendable_provable = false;
          contributions =
              s.contributions ++ withdraw_line at.ledger (fmt_xlm amount) (take 8 at.tx_hash) ∷ [];
        }))
        else ok s
    count_event (merge at account) s =
        if same_text account goal
        then ok (record s {
          spend_v = s.spend_v +ℤ s.recv_v;
          spend_r = s.spend_r +ℤ s.recv_r;
          recv_v = pos 0;
          recv_r = pos 0;
          contributions = s.contributions ++ merge_line at.ledger ∷ [];
        })
        else ok s
    count_event (other at kind) s = ok s

    unfoldable pub count_events : List (Event Cipher) → Sums → Result Sums
    count_events [] s = ok s
    count_events (ev ∷ events) s = bind_result (count_event ev s) (λ s'. count_events events s')

  abbrev is_quiet : List Line → Bool
  is_quiet [] = true
  is_quiet (_ ∷ _) = false

  -- the comparison of step 3, for the account that step 1 read
  unfoldable pub spend_ok : Sums → Account Point → Bool
  unfolding same_point
  spend_ok s acc = s.spendable_provable && same_point (commit s.spend_v s.spend_r) acc.spendable

  unfoldable pub recv_ok : Sums → Account Point → Bool
  unfolding same_point
  recv_ok s acc = same_point (commit s.recv_v s.recv_r) acc.receiving

  -- `(spendableProvable && !spendOk) || !recvOk`
  unfoldable pub mismatch : Sums → Account Point → Bool
  unfolding spend_ok recv_ok
  mismatch s acc = (s.spendable_provable && not (spend_ok s acc)) || not (recv_ok s acc)

  module _ (wait : ℕ → World → World) (cfg : Config) where
    -- step 1, the goal registry: any difference throws
    unfoldable pub check_goal : GoalRecord → Result (Unit {0})
    unfolding same_point
    check_goal g = bind_result (point_from_bytes g.view_key) (λ stored.
        if not (same_text g.goal_account cfg.goal)
        then err Error.backs_other_account
        else if not (same_point stored (auditor_public_key cfg.view_key))
        then err Error.view_key_differs
        else ok tt)

    unfoldable pub check_registry : Io World (Unit {0})
    check_registry = elim cfg.goal_meta [
      | none ↦ pure tt
      | some contract ↦ do
        g ← retry wait (codes "goal_meta.get_goal") (get_goal cfg.client contract cfg.goal_meta_id)
        lift (check_goal g)
    ]

    -- step 1, the account and the wrapper's registry of auditors
    unfoldable pub read_account : Io World (Account Point)
    read_account = do
      found ←
          retry wait (codes "confidential_balance(goal)") (confidential_balance cfg.client cfg.goal)
      account ←
          lift (elim found [ none ↦ err (Error.goal_not_registered cfg.goal) | some a ↦ ok a ])
      key ← retry wait (codes "auditor_key") (auditor_key cfg.client account.auditor_id)
      throw_if (not (same_point key (auditor_public_key cfg.view_key))) Error.registry_key_differs
      pure account

    -- step 2
    unfoldable pub count_history : Io World Sums
    count_history = do
      (events, _) ←
          retry wait (codes "getEvents") (fetch_events cfg.client cfg.from_ledger cfg.client.token)
      s ← lift (count_events cfg.view_key cfg.goal events no_sums)
      throw_if (is_quiet s.contributions) Error.no_events
      pure s

    -- step 3, and the line that is printed last
    unfoldable pub settle : Account Point → Sums → ℕ → Result Printed
    settle account s ledger =
        if mismatch s account
        then err Error.verification_failed
        else ok (record {
          total = fmt_xlm (s.spend_v +ℤ s.recv_v);
          fully_checked = s.spendable_provable;
          ledger = ledger;
        })

    unfoldable pub main : Io World Printed
    main = do
      check_registry
      account ← read_account
      s ← count_history
      ledger ← retry wait (codes "latestLedger") (latest_ledger cfg.client)
      lift (settle account s ledger)
