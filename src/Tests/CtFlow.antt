-- ===== src/Tests/CtFlow.antt =====
-- The scripts of ct-flow on the demo's vendor: every call succeeds and is counted.
use raiz_confidential_stack.Prelude.{
  ℕ, pos, Text, codes, same_text, starts_with, trim, trim_start, is_space, Bool, true, false, none,
  some, [], ◌∷◌, ok, ◌≡◌, refl, if◌then◌else◌,
}
use mathlib.Core.Path.{subst}
use raiz_confidential_stack.Vendor.{Vendor, Synced}
use raiz_confidential_stack.Shim.Codec.{big_of_text, read_big_int}
use raiz_confidential_stack.Shim.Events.Raw.{big_int}
use raiz_confidential_stack.Scripts.EnvFile.{
  lookup, insert, merge, load_env_deploy, load_lines, split_lines, match_line, split_entry,
  is_key_char, is_dot, save_env_deploy, body, join_entries,
}
use raiz_confidential_stack.Scripts.Retry.{retry_shared, retry_unless, attempt, after_attempt}
use raiz_confidential_stack.Scripts.Calls.{pure, lift, throw_if, finally, ◌>>=◌}
use raiz_confidential_stack.Scripts.Secrets.{scalars, stored, keep, ensure_keypair, ensure_scalar}
use raiz_confidential_stack.Scripts.Secrets.Stable.{IsPrintable, PrintsBack}
use raiz_confidential_stack.Scripts.CtFlow
use raiz_confidential_stack.Scripts.CtFlow.{
  Toolkit, DeploymentJson, AuditorKey, Machine, keypairs, outside, load_env, save_env,
  load_deployment_json, save_deployment_json, enable_threaded_proving, friendbot_fund,
  ask_friendbot, tx_ledger, threads,
}
use raiz_confidential_stack.Scripts.CtFlow.Flow.{
  flow, open_accounts, fund_accounts, write_run_log, finish, cycle, destroy_provers, with_accounts,
}
use raiz_confidential_stack.Scripts.CtFlow.Steps.{
  Accounts, set_up, step, register_new, register_party, register_both, deposit_marta, merge_account,
  transfer_marta, read_balances, run_steps,
}
use raiz_confidential_stack.Scripts.CtFlow.RunLog.{RunLog}
use raiz_confidential_stack.Scripts.CtFlow.Flow.Recorded.{flow-IsRecorded, IsRecorded}
use raiz_confidential_stack.Scripts.CtFlow.Flow.Saved.{IsSaved, open_accounts-IsSaved_always}
use raiz_confidential_stack.Tests.Demo.{demo, call_of}

-- The demo's vendor, with a print of the scalar that it draws.
abbrev pub vendor : Vendor
vendor = record demo { to_hex32 = λ _. codes "0x5" }

abbrev synced : Synced
synced = record {
  spendable = record { v = pos 1000000000; r = pos 3 };
  receiving = record { v = pos 0; r = pos 0 };
  synced_ledger = 90;
}

abbrev pub toolkit : Toolkit vendor
toolkit = record {
  Keypair = Bool;
  Signer = Text;
  random_keypair = call_of true;
  keypair_of_secret = λ t. if same_text t (codes "S1") then ok true else ok false;
  secret = λ b. if b then codes "S1" else codes "S2";
  public_key = λ b. if b then codes "G1" else codes "G2";
  keypair_signer = λ s _. ok s;
  wait = λ ms n. n;
  cpus = 8;
  encode = λ s. s;
  import_bb_node = call_of tt;
  set_backend_threads = λ _. call_of tt;
  transaction_ledger = λ _ _. call_of 95;
  Prover = Text;
  circuit_prover = λ name. ok name;
  prove = λ _ _. call_of (1 ∷ 2 ∷ []);
  destroy = λ _. call_of tt;
  Engine = Text;
  state_engine = λ _ _ address _. address;
  sync_engine = λ _. call_of synced;
  verify_against_chain = λ _. call_of true;
  submit_register = λ _ _ _ _ _ _. call_of (codes "registered");
  submit_deposit = λ _ _ _ _ _. call_of (codes "deposited");
  submit_merge = λ _ _ _. call_of (codes "merged");
  submit_transfer = λ _ _ _ _ _ _. call_of (codes "transferred");
  viewing_key = λ _. (8, 8);
}

pub scalars-IsPrintable : IsPrintable (scalars vendor)
unfolding is_dot big_int big_of_text read_big_int trim trim_start is_space starts_with
scalars-IsPrintable w s drawn =
    let same : pos 5 ≡ s = cc drawn in
    subst (PrintsBack (scalars vendor)) same (λ e. cc e, refl, refl)

pub keypairs-IsPrintable : IsPrintable (keypairs toolkit)
unfolding is_dot same_text
keypairs-IsPrintable w true drawn = (λ e. cc e, refl, refl)
keypairs-IsPrintable w false drawn = (λ e. cc e, refl, refl)

abbrev pub deployment : DeploymentJson
deployment = record {
  network = codes "testnet";
  rpc = CtFlow.rpc_url;
  network_passphrase = CtFlow.passphrase;
  deployed_at_ledger = 80;
  deployer = codes "G1";
  token = codes "CTOKEN";
  verifier = codes "CVERIFIER";
  auditor = codes "CAUDITOR";
  underlying = CtFlow.xlm_sac;
  addr_f = codes "0x1";
  auditor_keys = [];
  explorer_token = [];
  explorer_verifier = [];
  explorer_auditor = [];
}

-- Marta's secrets are in the file, the goal's are not.
abbrev machine : Machine ℕ RunLog
machine = record {
  world = 0;
  env_file = some (codes "CT_MARTA_SECRET=S2\nCT_MARTA_CONF_SK=5\n");
  deployment = some deployment;
  run_log = none;
}

flow_run : (flow toolkit machine).0 ≡ ok tt
unfolding flow with_accounts cycle finish write_run_log run_steps register_both register_party
    register_new deposit_marta merge_account transfer_marta read_balances set_up step fund_accounts
    destroy_provers open_accounts outside load_env save_env load_deployment_json
    enable_threaded_proving threads friendbot_fund ask_friendbot tx_ledger ensure_keypair
    ensure_scalar stored keep lookup insert merge load_env_deploy load_lines split_lines match_line
    split_entry is_key_char is_dot save_env_deploy body join_entries retry_shared retry_unless
    attempt after_attempt pure lift throw_if finally ◌>>=◌ big_int big_of_text read_big_int trim
    trim_start is_space starts_with same_text
flow_run = refl

flow-IsRecorded_example : IsRecorded toolkit (flow toolkit machine).1
flow-IsRecorded_example = flow-IsRecorded toolkit machine flow_run

abbrev accounts : Accounts toolkit
accounts = record { marta = false; goal = true; marta_sk = pos 5; goal_sk = pos 5 }

accounts_run : (open_accounts toolkit machine).0 ≡ ok accounts
unfolding open_accounts outside load_env save_env ensure_keypair ensure_scalar stored keep lookup
    insert merge load_env_deploy load_lines split_lines match_line split_entry is_key_char is_dot
    save_env_deploy body join_entries pure lift ◌>>=◌ big_int big_of_text read_big_int trim
    trim_start is_space starts_with same_text
accounts_run = refl

open_accounts-IsSaved_always_example :
    IsSaved toolkit accounts
      ((open_accounts toolkit >>= with_accounts toolkit deployment) machine).1.env_file
open_accounts-IsSaved_always_example =
    open_accounts-IsSaved_always toolkit machine deployment keypairs-IsPrintable scalars-IsPrintable
      accounts_run
