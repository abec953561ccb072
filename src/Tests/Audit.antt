-- ===== src/Tests/Audit.antt =====
-- audit.mjs on the demo's history.
use raiz_confidential_stack.Prelude.{
  ℕ, ℤ, pos, codes, same_text, starts_with, trim, trim_start, is_space, Bool, true, some, [], ok,
  Result, ◌≡◌, refl, ◌+ℤ◌,
}
use raiz_confidential_stack.Shim.Codec.{big_of_text, read_big_int}
use raiz_confidential_stack.Shim.Events.Raw.{big_int}
use raiz_confidential_stack.Scripts.EnvFile.{
  lookup, insert, load_env_deploy, load_lines, split_lines, match_line, split_entry, is_key_char,
  is_dot,
}
use raiz_confidential_stack.Scripts.Retry.{retry_shared, retry_unless, attempt, after_attempt}
use raiz_confidential_stack.Scripts.Calls.{pure, lift, ◌>>=◌}
use raiz_confidential_stack.Scripts.CtFlow.{Machine, outside, load_env, load_deployment_json}
use raiz_confidential_stack.Scripts.CtFlow.RunLog.{RunLog}
use raiz_confidential_stack.Scripts.Audit.{add_incoming, take_checkpoint, add_event, add_events}
use raiz_confidential_stack.Scripts.Audit.Report.{
  Report, secret_of, read_run_log, find_transfer, scope_keys, report_of, audit_with, audit,
}
use raiz_confidential_stack.Scripts.Audit.Agreement.{IsAudited, audit-IsAudited}
use raiz_confidential_stack.Tests.Demo.{goal}
use raiz_confidential_stack.Tests.CtFlow.{toolkit, deployment}

-- The log of a run that left the goal with 14.
abbrev log : RunLog
log = record {
  network = codes "testnet";
  token = codes "CTOKEN";
  marta = codes "A";
  goal = goal;
  marta_auditor = 0;
  goal_auditor = 1;
  deposit_stroops = pos 5;
  transfer_stroops = pos 7;
  steps = [];
  final_balances = record {
    marta_spendable = pos 0;
    goal_spendable = pos 14;
    marta_matches_chain = true;
    goal_matches_chain = true;
  };
}

abbrev machine : Machine ℕ RunLog
machine = record {
  world = 0;
  env_file = some (codes "CT_GOAL_VIEWKEY_SECRET_HEX=5\nCT_AUDITOR0_SECRET_HEX=6\n");
  deployment = some deployment;
  run_log = some log;
}

abbrev both : ℤ → ℤ × ℤ → Result Bool
both k c = ok true

abbrev printed : Report
printed = record {
  total = pos 14;
  owner_value = pos 14;
  matches = true;
  transfer_tx = codes "tx";
  channels_agree = true;
  custodian_amount = pos 7;
  custodian_balance = pos 3;
  same_amount = true;
}

audit_run : (audit toolkit both machine).0 ≡ ok printed
unfolding audit audit_with report_of scope_keys find_transfer read_run_log secret_of add_events
    add_event add_incoming take_checkpoint load_env load_deployment_json outside retry_shared
    retry_unless attempt after_attempt load_env_deploy load_lines split_lines match_line split_entry
    is_key_char is_dot lookup insert big_int big_of_text read_big_int trim trim_start is_space
    starts_with same_text pure lift ◌>>=◌ ◌+ℤ◌
audit_run = refl

audit-IsAudited_example : IsAudited toolkit both machine printed
audit-IsAudited_example = audit-IsAudited toolkit both machine printed audit_run
