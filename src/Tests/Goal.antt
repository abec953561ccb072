-- ===== src/Tests/Goal.antt =====
-- The goal's total on the demo's history.
use raiz_confidential_stack.Shim.Codec.RoundTrip.{as_big-dec}
use raiz_confidential_stack.Shim.Events.Pages.Termination.{fetch_loop-ends}
use raiz_confidential_stack.Shim.Goal.Honest.{verify_openings-honest, opened}
use raiz_confidential_stack.Shim.Goal.Openings.{
  replay-IsOpening, Applied, AppliedAll, Balances, IsOpening,
}
use raiz_confidential_stack.Shim.Goal.Amounts.{
  goal_total-sum_rows, replay-touching, sum_rows, read_amount, touching,
}
use raiz_confidential_stack.Shim.Events.Pages.{start_fetching, Source, fetch_loop}
use raiz_confidential_stack.Shim.Events.Raw.{to_number}
use raiz_confidential_stack.Shim.Goal.Verdict.{goal_total-HasFailed, goal_total-verified, IsBacked}
use raiz_confidential_stack.Shim.Goal.Proved.{HasFailed}
use raiz_confidential_stack.Shim.Codec.{
  dec, required, req_str, as_strkey, read_big_int, big_of_text, as_big, parse_params,
}
use raiz_confidential_stack.Prelude.{
  negsuc, inr, ◌≢◌, starts_with, same_text, is_space, trim_start, trim, ℕ, pos, ◌+ℤ◌, Text, codes,
  true, false, none, some, [], ◌∷◌, ok, ◌≡◌, refl,
}
use raiz_confidential_stack.Values
use raiz_confidential_stack.Values.{get_field, member, Value, Num}
use raiz_confidential_stack.Vendor.{Account, Client}
use raiz_confidential_stack.Shim.Goal.Ledger.{
  pay_out, harvest, receive, apply_event, Tally, empty_tally, replay, deposit_row, aporte, cosecha,
}
use raiz_confidential_stack.Shim.Goal.Checks.{
  Verdict, same_point, did_not_fail, all_passed, commitment_checks, verify_openings, disagrees,
  compare_openings, Detail, CheckName,
}
use raiz_confidential_stack.Shim.Goal.Total.{
  stale_note, after_gathering, conclude, finish, report, replay_history, gather, read_history,
  check_auditor, registered_account, check_goal_meta, total_of_query, total_of_params, Report,
  goal_total,
}
use raiz_confidential_stack.Shim.Goal.Query.{read_query, Query}
use raiz_confidential_stack.Tests.Demo.{
  param, token, demo, history, goal, add, account, place, demo-IsHomomorphic,
}

-- The parameters under a view key.
abbrev params : Text → Values.Fields → Value
params key rest = Value.obj (
    param (codes "tokenContractId") (Value.str token) (
      param (codes "goalAccount") (Value.str goal) (
        param (codes "viewKeySecretHex") (Value.str key) (
          param (codes "fromLedger") (Value.num (Num.whole (pos 1)))
            (param (codes "rpcUrl") (Value.str (codes "rpc")) rest)))))

abbrev demo_json : Value
demo_json = params (codes "0x5") Values.Fields.end

abbrev demo_report : Report
demo_report =
    let rows =
      deposit_row (codes "A") (codes "5") (place 1)
      ∷ aporte (codes "B") (codes "7") (place 2)
      ∷ deposit_row (codes "A") (codes "2") (place 5)
      ∷ [] in
    record {
      auditor_id = 1;
      goal_name = none;
      target_stroops = none;
      total_stroops = codes "14";
      spendable_stroops = codes "12";
      receiving_stroops = codes "2";
      contributions = rows;
      timeline =
          deposit_row (codes "A") (codes "5") (place 1)
          ∷ aporte (codes "B") (codes "7") (place 2)
          ∷ cosecha goal (place 4)
          ∷ deposit_row (codes "A") (codes "2") (place 5)
          ∷ [];
      verified = true;
      fully_point_verified = true;
      verified_at_ledger = 100;
      checks =
          record {
            name = CheckName.goal_meta_key;
            passed = none;
            detail = Detail.skipped_no_goal_meta;
          }
          ∷ record {
            name = CheckName.registry_key_unread;
            passed = none;
            detail = Detail.skipped_no_auditor;
          }
          ∷ record {
            name = CheckName.spendable_commitment;
            passed = some true;
            detail = Detail.matches (codes "12") false;
          }
          ∷ record {
            name = CheckName.receiving_commitment;
            passed = some true;
            detail = Detail.matches (codes "2") false;
          }
          ∷ [];
      from_url = none;
      events_latest_ledger = Num.whole (pos 90);
      oldest_ledger = none;
      events_scanned = 5;
    }

demo_run : (goal_total demo demo_json 0).0 ≡ ok demo_report
unfolding goal_total total_of_params total_of_query parse_params read_query check_goal_meta
    registered_account check_auditor read_history gather replay_history report finish conclude
    after_gathering stale_note replay apply_event receive harvest pay_out compare_openings disagrees
    verify_openings commitment_checks all_passed did_not_fail same_point as_big big_of_text
    read_big_int as_strkey req_str required dec member get_field trim trim_start is_space same_text
    starts_with to_number ◌+ℤ◌
demo_run = refl

goal_total-verified_example :
    (p : Value) × (q : Query) × (parse_params demo demo_json ≡ ok p)
    × (read_query demo p ≡ ok q)
    × IsBacked demo q demo_report
goal_total-verified_example = goal_total-verified demo demo_json 0 demo_run refl

goal_total-sum_rows_example :
    read_amount demo_report.total_stroops ≡ sum_rows demo_report.contributions
goal_total-sum_rows_example = goal_total-sum_rows demo demo_json 0 demo_run refl refl

-- The same history under a view key that is not the one of the wrapper's registry.
abbrev other_key : Value
other_key =
    params (codes "0x6")
      (param (codes "auditorContractId") (Value.str (codes "registry")) Values.Fields.end)

abbrev failed_report : Report
failed_report = record demo_report {
  verified = false;
  checks =
      record { name = CheckName.goal_meta_key; passed = none; detail = Detail.skipped_no_goal_meta }
      ∷ record {
        name = CheckName.registry_key 1;
        passed = some false;
        detail = Detail.same_auditor_point;
      }
      ∷ record {
        name = CheckName.spendable_commitment;
        passed = some true;
        detail = Detail.matches (codes "12") false;
      }
      ∷ record {
        name = CheckName.receiving_commitment;
        passed = some true;
        detail = Detail.matches (codes "2") false;
      }
      ∷ [];
}

other_key_run : (goal_total demo other_key 0).0 ≡ ok failed_report
unfolding goal_total total_of_params total_of_query parse_params read_query check_goal_meta
    registered_account check_auditor read_history gather replay_history report finish conclude
    after_gathering stale_note replay apply_event receive harvest pay_out compare_openings disagrees
    verify_openings commitment_checks all_passed did_not_fail same_point as_big big_of_text
    read_big_int as_strkey req_str required dec member get_field trim trim_start is_space same_text
    starts_with to_number ◌+ℤ◌
other_key_run = refl

goal_total-HasFailed_example : HasFailed failed_report.checks
goal_total-HasFailed_example = goal_total-HasFailed demo other_key 0 other_key_run refl

abbrev start : Balances (ℕ × ℕ)
start = opened demo add (pos 5) goal

abbrev left : Balances (ℕ × ℕ)
left = record { spendable = account.spendable; receiving = account.receiving }

history_applied : AppliedAll demo add (pos 5) goal history start left
unfolding same_text ◌+ℤ◌
history_applied =
    AppliedAll.step (Applied.deposited start (place 1) (codes "A") goal (pos 5) refl) (
      AppliedAll.step
        (Applied.received _ (place 2) (codes "B") goal (pos 7, pos 3) (pos 7) (pos 3) refl refl)
        (AppliedAll.step
          (Applied.other_deposit _ (place 3) (codes "A") (codes "other") (pos 9) refl)
          (AppliedAll.step (Applied.merged _ (place 4) goal refl) (
            AppliedAll.step (Applied.deposited _ (place 5) (codes "A") goal (pos 2) refl)
              (AppliedAll.done left)))))

start_open : IsOpening demo add (pos 5) goal empty_tally start
start_open = record {
  receiving_open = refl;
  spendable_r = pos 0;
  spendable_value = refl;
  spendable_open = inr refl;
}

replay-IsOpening_example :
    (t : Tally) × (replay demo (pos 5) goal history empty_tally ≡ ok t)
    × IsOpening demo add (pos 5) goal t left
replay-IsOpening_example =
    replay-IsOpening demo add (pos 5) goal demo-IsHomomorphic empty_tally history_applied start_open

abbrev client : Client
client = record {
  rpc_url = codes "rpc";
  passphrase = [];
  token = codes "token";
  verifier = [];
  auditor = [];
}

abbrev stale_account : Account (ℕ × ℕ)
stale_account = record account { receiving = (0, 0) }

-- The account that was read first is the one from before the last deposit.
verify_openings-honest_example :
    (t : Tally) × (replay demo (pos 5) goal history empty_tally ≡ ok t)
    × ((v : Verdict demo) × ((verify_openings demo client goal t stale_account 0).0 ≡ ok v)
        × (all_passed (commitment_checks demo t v none) ≡ true))
verify_openings-honest_example =
    verify_openings-honest demo add (pos 5) goal demo-IsHomomorphic client history left
      stale_account account 0 history_applied
      (inr (record { spendable_held = refl; receiving_held = refl }, refl))

replay-touching_example :
    replay demo (pos 5) goal history empty_tally
    ≡ replay demo (pos 5) goal (touching demo (pos 5) goal history) empty_tally
replay-touching_example = replay-touching demo (pos 5) goal history empty_tally

as_big-dec_example : as_big (Value.str (dec (negsuc 41))) (codes "amount") ≡ ok (negsuc 41)
as_big-dec_example = as_big-dec (negsuc 41) (codes "amount")

abbrev demo_source : Source
demo_source = record {
  base_url = codes "https://memory";
  contract_id = codes "token";
  start_ledger = some 1;
  source = [];
  page_limit = 200;
}

fetch_loop-ends_example : (fetch_loop demo 501 demo_source (start_fetching demo) 0).0 ≢ ok none
fetch_loop-ends_example = fetch_loop-ends demo demo_source 0
