-- ===== src/Shim/Goal/Honest.antt =====
-- An honest chain passes the checks of `goalTotal` (raiz-shim.js) on the commitments, also where a
-- transaction lands between the reading of the account and the reading of the events.
use raiz_confidential_stack.Prelude.{
  ℤ, pos, Text, Bool, true, false, none, some, List, ok, ◌≡◌, refl, sym, ap, ◌∙◌, arith, ◌⊎◌, inl,
  inr, Bool-cases, not, pure, >>=-of_ok,
}
use raiz_confidential_stack.Vendor.{Vendor, Client, Account, Event}
use raiz_confidential_stack.Shim.Goal.Ledger.{Tally, empty_tally, replay}
use raiz_confidential_stack.Shim.Goal.Checks.{
  Verdict, second_look_of, compare_openings, disagrees, verify_openings, all_passed,
  commitment_checks,
}
use raiz_confidential_stack.Shim.Goal.Openings.{
  Balances, IsHomomorphic, AppliedAll, IsOpening, replay-IsOpening,
}
use raiz_confidential_stack.Shim.Goal.Proved.{same_point_complete, commitment_checks-passed}

-- The account that the chain returns holds these commitments.
pub record Holds {P : Type 0} (acc : Account P) (b : Balances P) : Type 0 where
  pub spendable_held : acc.spendable ≡ b.spendable
  pub receiving_held : acc.receiving ≡ b.receiving

module _ (V : Vendor) (add : V.Point → V.Point → V.Point) (k1 : ℤ) (goal : Text) where
  open V use {World, Point, Cipher, coords, commit, confidential_balance}

  -- A new account: two commitments to nothing.
  abbrev pub opened : Balances Point
  opened = record { spendable = commit (pos 0) (pos 0); receiving = commit (pos 0) (pos 0) }

  empty_tally-IsOpening : IsOpening V add k1 goal empty_tally opened
  empty_tally-IsOpening = record {
    receiving_open = refl;
    spendable_r = pos 0;
    spendable_value = refl;
    spendable_open = inr refl;
  }

  known_r :
      (t : Tally) {b : Balances Point} (o : IsOpening V add k1 goal t b)
      → t.spendable_provable ≡ true
      → o.spendable_r ≡ t.spend_r
  known_r t o p = go o.spendable_open
    where
      go : (t.spendable_provable ≡ false) ⊎ (o.spendable_r ≡ t.spend_r) → o.spendable_r ≡ t.spend_r
      go (inl paid_out) = cc
      go (inr e) = e

  compare_openings-IsOpening :
      (t : Tally) (b : Balances Point) (acc : Account Point) (again : Bool)
      → IsOpening V add k1 goal t b
      → Holds acc b
      → disagrees V t (compare_openings V t acc again) ≡ false
  unfolding disagrees compare_openings
  compare_openings-IsOpening t b acc again o held =
      let recv =
        same_point_complete V (commit t.recv_v t.recv_r) acc.receiving
          (sym o.receiving_open ∙ ap coords (sym held.receiving_held)) in
      elim (Bool-cases t.spendable_provable) [
        | inl p ↦
            let spend = same_point_complete V (commit t.spend_v t.spend_r) acc.spendable (
              ap (λ r. coords (commit t.spend_v r)) (sym (known_r t o p))
              ∙ sym o.spendable_value
              ∙ ap coords (sym held.spendable_held)) in
            ground arith
        | inr paid_out ↦ ground arith
      ]

  agreed_checks :
      (t : Tally) (v : Verdict V)
      → disagrees V t v ≡ false
      → all_passed (commitment_checks V t v none) ≡ true
  agreed_checks t v agree = commitment_checks-passed V t v none ∙ ap not agree

  -- The first look, or the second, compares with an account that holds what the tally opens.
  verify_openings-IsOpening :
      (client : Client) (t : Tally) (b : Balances Point) (account acc : Account Point) (w : World)
      → IsOpening V add k1 goal t b
      → Holds account b ⊎ (Holds acc b × ((confidential_balance client goal w).0 ≡ ok (some acc)))
      → (v : Verdict V) × ((verify_openings V client goal t account w).0 ≡ ok v)
        × (all_passed (commitment_checks V t v none) ≡ true)
  unfolding verify_openings
  verify_openings-IsOpening client t b account acc w o (inl held) =
      let agree = compare_openings-IsOpening t b account false o held in
      (compare_openings V t account false, rw agree, agreed_checks t _ agree)
  verify_openings-IsOpening client t b account acc w o (inr (held, e)) =
      elim (Bool-cases (disagrees V t (compare_openings V t account false))) [
        | inl stale ↦ (
          compare_openings V t acc true,
          rw stale (
              ap (λ p. p.0)
                (>>=-of_ok (confidential_balance client goal)
                  (λ found. pure (second_look_of V t (compare_openings V t account false) found)) w
                  (some acc) e)),
          agreed_checks t _ (compare_openings-IsOpening t b acc true o held),
        )
        | inr agree ↦ (compare_openings V t account false, rw agree, agreed_checks t _ agree)
      ]

  module _ (hom : IsHomomorphic V add) (client : Client) where
    -- Over any history that the contract has applied to a new account, the replay succeeds, and the
    -- checks on the commitments pass if the account that was read first holds what the history leaves,
    -- or if a second read returns one that does.
    pub verify_openings-honest :
        (evs : List (Event Cipher)) (b : Balances Point) (account acc : Account Point) (w : World)
        → AppliedAll V add k1 goal evs opened b
        → Holds account b ⊎ (Holds acc b × ((confidential_balance client goal w).0 ≡ ok (some acc)))
        → (t : Tally) × (replay V k1 goal evs empty_tally ≡ ok t)
          × ((v : Verdict V) × ((verify_openings V client goal t account w).0 ≡ ok v)
              × (all_passed (commitment_checks V t v none) ≡ true))
    verify_openings-honest evs b account acc w applied held =
        let (t, e, o) =
          replay-IsOpening V add k1 goal hom empty_tally applied empty_tally-IsOpening in
        (t, e, verify_openings-IsOpening client t b account acc w o held)
