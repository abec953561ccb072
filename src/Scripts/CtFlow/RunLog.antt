-- ===== src/Scripts/CtFlow/RunLog.antt =====
-- run-log.json of scripts/ct-flow/flow.mjs, as its fields, and the constants of the run (lines 38-43, 92-107, 188-193).
use raiz_confidential_stack.Prelude.{ℕ, ℤ, pos, Text, Bool, List}

-- `DEPOSIT` and `TRANSFER`, in stroops
abbrev pub deposit_amount : ℤ
deposit_amount = pos 1000000000

abbrev pub transfer_amount : ℤ
transfer_amount = pos 250000000

abbrev pub marta_auditor_id : ℕ
marta_auditor_id = 0

abbrev pub goal_auditor_id : ℕ
goal_auditor_id = 1

-- What an entry of the log holds beside the transaction, without the time of the proof.
pub data Extra : Type 0 where
  registered : (auditor_id proof_bytes : ℕ) → Extra
  deposited : (amount_stroops : ℤ) → Extra
  transferred : (proof_bytes : ℕ) → Extra
  plain : Extra

-- An entry of `log.steps`.
pub record Entry : Type 0 where
  pub name : Text
  pub tx_hash : Text
  pub ledger : ℕ
  pub explorer : Text
  pub extra : Extra

-- `log.finalBalances`
pub record Balances : Type 0 where
  pub marta_spendable : ℤ
  pub goal_spendable : ℤ
  pub marta_matches_chain : Bool
  pub goal_matches_chain : Bool

pub record RunLog : Type 0 where
  pub network : Text
  pub token : Text
  pub marta : Text
  pub goal : Text
  pub marta_auditor : ℕ
  pub goal_auditor : ℕ
  pub deposit_stroops : ℤ
  pub transfer_stroops : ℤ
  pub steps : List Entry
  pub final_balances : Balances
