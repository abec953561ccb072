-- ===== src/Shim/Goal/Proved.antt =====
-- What the checks of `goalTotal` (raiz-shim.js) on the commitments mean: where none fails, the sums
-- open both commitments of an account that was read.
use raiz_confidential_stack.Values.{Num}
use raiz_confidential_stack.Prelude.{
  ◌⊎◌, Text, Bool, true, false, not, ◌&&◌, Option, none, some, List, [], ◌∷◌, ◌++◌, ok, ◌≡◌, refl,
  sym, ◌∙◌, arith, Bool-cases, inl, inr, >>=-eq-ok, pure,
}
use raiz_confidential_stack.Vendor.{Vendor, Client, Account}
use raiz_confidential_stack.Shim.Goal.Ledger.{Tally}
use mathlib.Core.Path.{subst}
use mathlib.Core.Bool.{false≢true}
use raiz_confidential_stack.Shim.Goal.Checks.{
  second_look_of, Check, Verdict, did_not_fail, all_passed, same_point, compare_openings, disagrees,
  verify_openings, commitment_checks,
}

-- A check that ran and failed.
pub data HasFailed : List Check → Type 0 where
  here : {c : Check} {cs : List Check} → c.passed ≡ some false → HasFailed (c ∷ cs)
  there : {c : Check} {cs : List Check} → HasFailed cs → HasFailed (c ∷ cs)

pub did_not_fail-false : (c : Check) → did_not_fail c ≡ false → c.passed ≡ some false
unfolding did_not_fail
did_not_fail-false c h = ground arith

pub all_passed-append :
    (cs ds : List Check) → all_passed (cs ++ ds) ≡ (all_passed cs && all_passed ds)
unfolding all_passed
all_passed-append [] ds = refl
all_passed-append (c ∷ cs) ds = ground (arith, all_passed-append cs ds)

-- If not all checks passed, one is on the list with its failure.
pub all_passed-HasFailed : (cs : List Check) → all_passed cs ≡ false → HasFailed cs
unfolding all_passed
all_passed-HasFailed [] h = cc
all_passed-HasFailed (c ∷ cs) h = elim (Bool-cases (did_not_fail c)) [
  | inl passed ↦ HasFailed.there (all_passed-HasFailed cs (ground arith))
  | inr failed ↦ HasFailed.here (did_not_fail-false c failed)
]

module _ (V : Vendor) where
  open V use {World, Point, coords, commit, confidential_balance}

  pub same_point_sound : (a b : Point) → same_point V a b ≡ true → coords a ≡ coords b
  unfolding same_point
  same_point_sound a b h = ground arith

  pub same_point_complete : (a b : Point) → coords a ≡ coords b → same_point V a b ≡ true
  unfolding same_point
  same_point_complete a b h = ground arith

  -- The checks on the commitments pass exactly if the comparison of the third step found nothing.
  pub commitment_checks-passed :
      (t : Tally) (v : Verdict V) (stale : Option Num)
      → all_passed (commitment_checks V t v stale) ≡ not (disagrees V t v)
  unfolding all_passed commitment_checks disagrees
  commitment_checks-passed t v stale = ground arith

  -- The chain gave this account to a read of the goal's balance.
  abbrev pub WasRead : Client → Text → Account Point → Type 0
  WasRead client goal acc = (w : World) × ((confidential_balance client goal w).0 ≡ ok (some acc))

  -- The tally's sums open the account's commitments, the spendable one unless money has left.
  pub record IsProved (t : Tally) (acc : Account Point) : Type 0 where
    pub receiving_proved : coords (commit t.recv_v t.recv_r) ≡ coords acc.receiving
    pub spendable_proved :
        (t.spendable_provable ≡ false)
        ⊎ (coords (commit t.spend_v t.spend_r) ≡ coords acc.spendable)

  compare_openings-IsProved :
      (t : Tally) (acc : Account Point) (again : Bool)
      → disagrees V t (compare_openings V t acc again) ≡ false
      → IsProved t acc
  unfolding compare_openings disagrees
  compare_openings-IsProved t acc again h = record {
    receiving_proved = same_point_sound _ _ (ground arith);
    spendable_proved = elim (Bool-cases t.spendable_provable) [
      | inl p ↦ inr (same_point_sound _ _ (ground arith))
      | inr paid_out ↦ inl paid_out
    ];
  }

  first_look-IsProved :
      (client : Client) (goal : Text) (t : Tally) (acc : Account Point) (again : Bool)
      {v : Verdict V}
      → WasRead client goal acc
      → compare_openings V t acc again ≡ v
      → disagrees V t v ≡ false
      → WasRead client goal v.account × IsProved t v.account
  unfolding compare_openings
  first_look-IsProved client goal t acc again read e agree =
      subst (λ v. WasRead client goal v.account × IsProved t v.account) e
        (read, compare_openings-IsProved t acc again (rw e agree))

  second_look-IsProved :
      (client : Client) (goal : Text) (t : Tally) (first : Verdict V)
      (again : Option (Account Point)) (w : World) {v : Verdict V}
      → (confidential_balance client goal w).0 ≡ ok again
      → disagrees V t first ≡ true
      → second_look_of V t first again ≡ v
      → disagrees V t v ≡ false
      → WasRead client goal v.account × IsProved t v.account
  second_look-IsProved client goal t first none w read bad e agree =
      absurd (false≢true (sym agree ∙ rw (← e) bad))
  second_look-IsProved client goal t first (some acc) w read bad e agree =
      first_look-IsProved client goal t acc true (w, read) e agree

  pub verify_openings-IsProved :
      (client : Client) (goal : Text) (t : Tally) (account : Account Point) (w : World)
      {v : Verdict V}
      → WasRead client goal account
      → (verify_openings V client goal t account w).0 ≡ ok v
      → disagrees V t v ≡ false
      → WasRead client goal v.account × IsProved t v.account
  unfolding verify_openings
  verify_openings-IsProved client goal t account w {v} read h agree =
      elim (Bool-cases (disagrees V t (compare_openings V t account false))) [
        | inr good ↦
            first_look-IsProved client goal t account false {v = v} read (cc (rw good at h)) agree
        | inl bad ↦
            let (again, e, e') =
              >>=-eq-ok (confidential_balance client goal)
                (λ found. pure (second_look_of V t (compare_openings V t account false) found)) w
                (rw bad at h) in
            second_look-IsProved client goal t (compare_openings V t account false) again w {v = v}
              e bad (cc e') agree
      ]
