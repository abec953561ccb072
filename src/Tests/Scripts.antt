-- ===== src/Tests/Scripts.antt =====
-- The scripts on the demo.
use raiz_confidential_stack.Shim.Goal.Checks.{compare_openings, disagrees}
use raiz_confidential_stack.Scripts.EnvFile.RoundTrip.{load_env_deploy-save_env_deploy, IsUpdate}
use raiz_confidential_stack.Shim.Codec.{dec}
use raiz_confidential_stack.Scripts.Audit.Total.{
  add_events-replay, SameTotal, add_event_forgets_pending, AllKeepMoney,
}
use raiz_confidential_stack.Scripts.Retry.Attempts.{Ends, Failing, retry_unless-Failing}
use raiz_confidential_stack.Scripts.VerifyGoal.Agreement.{
  count_events-mismatch, Agrees, count_events-replay, AgreeResults,
}
use raiz_confidential_stack.Scripts.Audit.{add_events, take_checkpoint, add_incoming, add_event}
use raiz_confidential_stack.Shim.Goal.Ledger.{
  salida, empty_tally, replay, pay_out, Tally, apply_event,
}
use raiz_confidential_stack.Scripts.Retry.{retry_unless}
use raiz_confidential_stack.Scripts.EnvFile.{
  split_entry, match_line, split_lines, load_lines, save_env_deploy, insert, is_dot, is_key_char,
  load_env_deploy, Env, merge,
}
use raiz_confidential_stack.Prelude.{
  starts_with, ◌+ℤ◌, same_text, ℕ, zero, suc, ℤ, pos, Text, codes, Bool, true, false, Option, some,
  List, [], ◌∷◌, Result, ok, err, Error, ◌≡◌, refl, arith,
}
use raiz_confidential_stack.Vendor.{Event}
use raiz_confidential_stack.Scripts.VerifyGoal
use raiz_confidential_stack.Tests.Demo.{demo, history, goal, account, place}

abbrev empty_or : Result VerifyGoal.Sums → VerifyGoal.Sums
empty_or (ok s) = s
empty_or (err e) = VerifyGoal.no_sums

abbrev counted : VerifyGoal.Sums
counted = empty_or (VerifyGoal.count_events demo (pos 5) goal history VerifyGoal.no_sums)

counted_run : VerifyGoal.count_events demo (pos 5) goal history VerifyGoal.no_sums ≡ ok counted
unfolding VerifyGoal.count_events VerifyGoal.count_event same_text ◌+ℤ◌
counted_run = refl

count_events-replay_example :
    AgreeResults
      (replay demo (pos 5) goal history empty_tally)
      (VerifyGoal.count_events demo (pos 5) goal history VerifyGoal.no_sums)
count_events-replay_example = count_events-replay demo (pos 5) goal history

count_events-mismatch_example :
    (t : Tally) × (replay demo (pos 5) goal history empty_tally ≡ ok t)
    × Agrees t counted
    × (VerifyGoal.mismatch demo counted account
        ≡ disagrees demo t (compare_openings demo t account false))
count_events-mismatch_example = count_events-mismatch demo (pos 5) goal history account counted_run

history_keeps : AllKeepMoney demo (pos 5) goal history
unfolding same_text
history_keeps = (tt, (refl, (tt, (tt, (tt, tt)))))

add_events-replay_example :
    SameTotal demo
      (pos 5)
      goal
      (replay demo (pos 5) goal history empty_tally)
      (add_events demo (pos 5) goal history (pos 0))
add_events-replay_example = add_events-replay demo (pos 5) goal history history_keeps

abbrev waiting : Tally
waiting = record empty_tally { spend_v = pos 12; recv_v = pos 2 }

abbrev outgoing : Event (ℤ × ℤ)
outgoing = Event.transfer (place 6) goal (codes "B") (pos 5, pos 7)

abbrev paid : Tally
paid = record waiting {
  spend_v = pos 7;
  spendable_provable = false;
  timeline = salida (codes "B") (codes "5") (place 6) ∷ [];
}

paid_run : apply_event demo (pos 5) goal outgoing waiting ≡ ok paid
unfolding apply_event pay_out same_text dec
paid_run = refl

added_run : add_event demo (pos 5) goal outgoing (pos 14) ≡ ok (pos 7)
unfolding add_event add_incoming take_checkpoint same_text
added_run = refl

not_to_goal : same_text (codes "B") goal ≡ false
unfolding same_text
not_to_goal = refl

from_goal : same_text goal goal ≡ true
unfolding same_text
from_goal = refl

-- The goal pays 5 out of 12 while 2 are waiting: 9 are left, and audit.mjs says 7.
add_event_forgets_pending_example : pos 7 +ℤ pos 2 ≡ pos 7 +ℤ waiting.recv_v
add_event_forgets_pending_example =
    add_event_forgets_pending demo (pos 5) goal (place 6) goal (codes "B") (pos 5, pos 7) waiting
      (pos 14) not_to_goal from_goal paid_run added_run

-- A call that fails twice and then returns 7, by the number of its attempts; every delay is noted.
abbrev flaky : ℕ × List ℕ → Result ℕ × (ℕ × List ℕ)
flaky (zero, ds) = (err Error.no_events, (1, ds))
flaky (suc zero, ds) = (err Error.no_events, (2, ds))
flaky (suc (suc n), ds) = (ok 7, (suc (suc n), ds))

abbrev note : ℕ → ℕ × List ℕ → ℕ × List ℕ
note ms (n, ds) = (n, ms ∷ ds)

abbrev soft : Error → Bool
soft e = false

retry_unless-Failing_example :
    retry_unless note soft (codes "getEvents") 3 3000 flaky (0, []) ≡ (ok 7, (2, 6000 ∷ 3000 ∷ []))
retry_unless-Failing_example =
    retry_unless-Failing note soft 3000 flaky (codes "getEvents") 3
      (Failing.one_more Error.no_events
        (Failing.one_more Error.no_events (Failing.no_attempt (0, [])) refl refl) refl refl)
      (omega arith) refl (Ends.returned 7 (2, 6000 ∷ 3000 ∷ []))

abbrev update : Env
update = (codes "GOAL_SECRET", codes "S=1") ∷ (codes "B_2", codes "") ∷ []

abbrev old_file : Option Text
old_file = some (codes "# note\nA=1\nGOAL_SECRET=old\n")

update_valid : IsUpdate update
unfolding is_key_char is_dot
update_valid = (((λ e. cc e, refl), refl), (((λ e. cc e, refl), refl), tt))

load_env_deploy-save_env_deploy_example :
    load_env_deploy (some (save_env_deploy old_file update))
    ≡ merge (load_env_deploy old_file) update
load_env_deploy-save_env_deploy_example =
    load_env_deploy-save_env_deploy old_file update update_valid

-- The entries of the new file.
merged_run :
    merge (load_env_deploy old_file) update
    ≡ (codes "A", codes "1") ∷ (codes "GOAL_SECRET", codes "S=1") ∷ (codes "B_2", codes "") ∷ []
unfolding merge insert load_env_deploy load_lines split_lines match_line split_entry same_text
    starts_with is_dot is_key_char
merged_run = refl
