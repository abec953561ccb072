-- ===== src/Shim/Goal/Checks.antt =====
-- The checks of `goalTotal`, raiz-shim.js lines 568-572, 751-769 and 868-908, and their verdict.
use raiz_confidential_stack.Values.{Num}
use raiz_confidential_stack.Prelude.{
  ℕ, Text, same_text, Bool, true, false, not, ◌&&◌, ◌||◌, ◌==◌, Option, none, some, List, [], ◌∷◌,
  Result, ok, err, Io, pure, ◌>>=◌, if◌then◌else◌, every,
}
use raiz_confidential_stack.Vendor.{Vendor, Client, Account, GoalRecord}
use raiz_confidential_stack.Shim.Codec.{dec}
use raiz_confidential_stack.Shim.Goal.Ledger.{Tally}

-- The names that the source gives its checks; a registry check shows the auditor id.
pub data CheckName : Type 0 where
  backs_goal goal_meta_key registry_key_unread spendable_commitment receiving_commitment : CheckName
  registry_key : ℕ → CheckName

-- The values that a check's detail shows.
pub data Detail : Type 0 where
  backed : ℕ → (name target : Text) → Detail
  backs_other : ℕ → (account : Text) → Detail
  same_registry_point same_auditor_point : Detail
  skipped_no_goal_meta skipped_no_auditor : Detail
  matches : (stroops : Text) → (reread : Bool) → Detail
  mismatch : (stroops : Text) → (stale : Option Num) → Detail
  not_provable : (stroops : Text) → Detail

-- `ok` is `none` for a check that was skipped.
pub record Check : Type 0 where
  pub name : CheckName
  pub passed : Option Bool
  pub detail : Detail

-- `c.ok !== false`
unfoldable pub did_not_fail : Check → Bool
did_not_fail c = elim c.passed [ none ↦ true | some b ↦ b ]

-- `checks.every((c) => c.ok !== false)`
unfoldable pub all_passed : List Check → Bool
unfolding did_not_fail
all_passed = every did_not_fail

module _ (V : Vendor) where
  open V use {World, Point, coords, commit, point_from_bytes, confidential_balance}

  unfoldable pub same_point : Point → Point → Bool
  same_point a b = ((coords a).0 == (coords b).0) && ((coords a).1 == (coords b).1)

  -- the two checks on the record of `goal_meta`
  unfoldable pub goal_meta_checks : Text → ℕ → GoalRecord → Point → Result (List Check)
  unfolding same_point
  goal_meta_checks goal goal_id g k1_point =
      let backs = same_text g.goal_account goal in
      elim (point_from_bytes g.view_key) [
        | err e ↦ err e
        | ok stored ↦ ok (
            record {
              name = backs_goal;
              passed = some backs;
              detail =
                  if backs
                  then backed goal_id g.name (dec g.target)
                  else backs_other goal_id g.goal_account;
            }
            ∷ record {
              name = goal_meta_key;
              passed = some (same_point stored k1_point);
              detail = same_registry_point;
            }
            ∷ [])
      ]

  -- What the third step finds: the account whose commitments were compared, the two comparisons,
  -- and whether it had to read the account again.
  pub record Verdict : Type 0 where
    pub account : Account Point
    pub spend_ok : Bool
    pub recv_ok : Bool
    pub reread : Bool

  unfoldable pub compare_openings : Tally → Account Point → Bool → Verdict
  unfolding same_point
  compare_openings t acc reread = record {
    account = acc;
    spend_ok = t.spendable_provable && same_point (commit t.spend_v t.spend_r) acc.spendable;
    recv_ok = same_point (commit t.recv_v t.recv_r) acc.receiving;
    reread = reread;
  }

  -- `(spendableProvable && !spendOk) || !recvOk`
  unfoldable pub disagrees : Tally → Verdict → Bool
  disagrees t v = (t.spendable_provable && not v.spend_ok) || not v.recv_ok

  -- the account that was read again, if it was there
  abbrev pub second_look_of : Tally → Verdict → Option (Account Point) → Verdict
  second_look_of t first none = first
  second_look_of t first (some acc) = compare_openings t acc true

  -- compare, and where that fails read the account once more and compare again
  unfoldable pub verify_openings : Client → Text → Tally → Account Point → Io World Verdict
  unfolding compare_openings disagrees
  verify_openings client goal t account =
      let first = compare_openings t account false in
      if disagrees t first
      then confidential_balance client goal >>= (λ again. pure (second_look_of t first again))
      else pure first

  -- the two checks on the commitments
  unfoldable pub commitment_checks : Tally → Verdict → Option Num → List Check
  commitment_checks t v stale =
      (if t.spendable_provable
        then record {
          name = spendable_commitment;
          passed = some v.spend_ok;
          detail =
              if v.spend_ok
              then matches (dec t.spend_v) v.reread
              else mismatch (dec t.spend_v) stale;
        }
        else record {
          name = spendable_commitment;
          passed = none;
          detail = not_provable (dec t.spend_v);
        })
      ∷ record {
        name = receiving_commitment;
        passed = some v.recv_ok;
        detail =
            if v.recv_ok then matches (dec t.recv_v) v.reread else mismatch (dec t.recv_v) stale;
      }
      ∷ []
