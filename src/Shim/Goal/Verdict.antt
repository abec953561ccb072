-- ===== src/Shim/Goal/Verdict.antt =====
-- What `verified` of `goalTotal` (raiz-shim.js) means: a total that is shown as verified is the sum
-- of openings of both commitments, and an honest chain is always verified.
use raiz_confidential_stack.Prelude.{
  ℕ, ◌+ℤ◌, true, false, List, ◌++◌, ok, ◌≡◌, refl, ap, ◌∙◌, arith, >>=-eq-ok, pure, lift,
}
use raiz_confidential_stack.Values.{Value}
use raiz_confidential_stack.Vendor.{Vendor, Account, Event}
use raiz_confidential_stack.Shim.Codec.{dec, parse_params}
use raiz_confidential_stack.Shim.Goal.Ledger.{Tally, empty_tally, replay}
use mathlib.Core.Path.{subst}
use raiz_confidential_stack.Shim.Goal.Checks.{
  Verdict, disagrees, verify_openings, commitment_checks,
}
use raiz_confidential_stack.Shim.Goal.Total.{
  finish, conclude, Gathered, gather, after_gathering, replay_history, Report, total_of_params,
  stale_note, Gathered, gather, replay_history, finish, conclude, after_gathering, check_goal_meta,
  registered_account, report, total_of_query, goal_total,
}
use raiz_confidential_stack.Shim.Goal.Query.{Query, read_query}
use raiz_confidential_stack.Shim.Goal.Proved.{
  HasFailed, all_passed-HasFailed, all_passed-append, commitment_checks-passed, WasRead, IsProved,
  verify_openings-IsProved,
}

module _ (V : Vendor) where
  open V use {World, Point}

  -- A report that says `verified` comes with the replay behind it.
  pub record IsBacked (q : Query) (rep : Report) : Type 0 where
    pub history : List (Event V.Cipher)
    pub tally : Tally
    pub account : Account Point
    pub replayed : replay V q.k1 q.goal history empty_tally ≡ ok tally
    pub was_read : WasRead V q.client q.goal account
    pub proved : IsProved V tally account
    pub total : rep.total_stroops ≡ dec (tally.spend_v +ℤ tally.recv_v)
    pub rows : rep.contributions ≡ tally.contributions
    pub full : rep.fully_point_verified ≡ tally.spendable_provable

  registered_account-WasRead :
      (q : Query) (w : World) {acc : Account Point}
      → (registered_account V q w).0 ≡ ok acc
      → WasRead V q.client q.goal acc
  unfolding registered_account
  registered_account-WasRead q w h = (w, ground arith)

  gather-WasRead :
      (q : Query) (w : World) {g : Gathered V}
      → (gather V q w).0 ≡ ok g
      → WasRead V q.client q.goal g.account
  unfolding gather
  gather-WasRead q w {g} h =
      registered_account-WasRead q (check_goal_meta V q w).1 {acc = g.account} (ground arith)

  replay_history-ok :
      (q : Query) (events : List (Event V.Cipher)) {t : Tally}
      → replay_history V q events ≡ ok t
      → replay V q.k1 q.goal events empty_tally ≡ ok t
  unfolding replay_history
  replay_history-ok q events h = ground arith

  -- `verified` is the conjunction of the checks, those on the commitments among them.
  report-agrees :
      (q : Query) (g : Gathered V) (t : Tally) (v : Verdict V) (ledger : ℕ)
      → (report V q g.registered g.auditor g.history t v ledger).verified ≡ true
      → disagrees V t v ≡ false
  unfolding report
  report-agrees q g t v ledger h =
      let stale = stale_note V q.events_url g.history.latest_ledger in
      ground (
        arith,
        all_passed-append (g.registered.checks ++ g.auditor) (commitment_checks V t v stale),
        commitment_checks-passed V t v stale,
      )

  -- The steps of a call that returned.
  record Run (q : Query) (w : World) (rep : Report) : Type 0 where
    gathered : Gathered V
    tally : Tally
    verdict : Verdict V
    ledger : ℕ
    was_gathered : (gather V q w).0 ≡ ok gathered
    replayed : replay V q.k1 q.goal gathered.history.events empty_tally ≡ ok tally
    was_verified :
        (verify_openings V q.client q.goal tally gathered.account (gather V q w).1).0 ≡ ok verdict
    result :
        report V q gathered.registered gathered.auditor gathered.history tally verdict ledger ≡ rep

  total_of_query-Run :
      (q : Query) (w : World) {rep : Report} → (total_of_query V q w).0 ≡ ok rep → Run q w rep
  unfolding total_of_query after_gathering conclude finish
  total_of_query-Run q w {rep} h =
      let (g, e, h1) = >>=-eq-ok (gather V q) (after_gathering V q) w h in
      let w1 = (gather V q w).1 in
      let (t, e1, h2) =
        >>=-eq-ok (lift (replay_history V q g.history.events)) (conclude V q g) w1 h1 in
      let (v, e2, h3) =
        >>=-eq-ok (verify_openings V q.client q.goal t g.account) (finish V q g t) w1 h2 in
      let (ledger, e3, h4) =
        >>=-eq-ok (V.latest_ledger q.client)
          (λ n. pure (report V q g.registered g.auditor g.history t v n))
          (verify_openings V q.client q.goal t g.account w1).1 h3 in
      record {
        gathered = g;
        tally = t;
        verdict = v;
        ledger = ledger;
        was_gathered = e;
        replayed = replay_history-ok q g.history.events e1;
        was_verified = e2;
        result = cc h4;
      }

  Run-IsBacked :
      (q : Query) (w : World) {rep : Report} → Run q w rep → rep.verified ≡ true → IsBacked q rep
  unfolding report
  Run-IsBacked q w run flag =
      let g = run.gathered in
      let (read, proved) =
        verify_openings-IsProved V q.client q.goal run.tally g.account (gather V q w).1
          {v = run.verdict} (gather-WasRead q w {g = g} run.was_gathered) run.was_verified
          (report-agrees q g run.tally run.verdict run.ledger
            (ap (λ (r : Report). r.verified) run.result ∙ flag)) in
      subst (IsBacked q) run.result (record {
        history = g.history.events;
        tally = run.tally;
        account = run.verdict.account;
        replayed = run.replayed;
        was_read = read;
        proved = proved;
        total = refl;
        rows = refl;
        full = refl;
      })

  Run-HasFailed :
      (q : Query) (w : World) {rep : Report}
      → Run q w rep
      → rep.verified ≡ false
      → HasFailed rep.checks
  unfolding report
  Run-HasFailed q w run flag =
      subst (λ (r : Report). r.verified ≡ false → HasFailed r.checks) run.result
        (all_passed-HasFailed _) flag

  goal_total-Run :
      (json : Value) (w : World) {rep : Report}
      → (goal_total V json w).0 ≡ ok rep
      → (p : Value) × (q : Query) × (parse_params V json ≡ ok p)
        × (read_query V p ≡ ok q)
        × Run q w rep
  unfolding goal_total
  goal_total-Run json w h =
      let (p, e, h1) = >>=-eq-ok (lift (parse_params V json)) (total_of_params V) w h in
      let (q, e', h2) = >>=-eq-ok (lift (read_query V p)) (total_of_query V) w h1 in
      (p, q, e, e', total_of_query-Run q w h2)

  -- A total that `goalTotal` reports as verified is backed: the call read the parameters, an account
  -- that the chain returned for the goal, and a history whose replay gave the sums; the total is the
  -- sum of the two values, the receiving commitment of that account opens to the receiving sums, and
  -- so does the spendable one to the spendable sums unless the goal has paid out.
  pub goal_total-verified :
      (json : Value) (w : World) {rep : Report}
      → (goal_total V json w).0 ≡ ok rep
      → rep.verified ≡ true
      → (p : Value) × (q : Query) × (parse_params V json ≡ ok p)
        × (read_query V p ≡ ok q)
        × IsBacked q rep
  goal_total-verified json w h flag =
      let (p, q, e, e', run) = goal_total-Run json w h in (p, q, e, e', Run-IsBacked q w run flag)

  -- Where a report is not verified, one of its checks ran and failed, and is on the list.
  pub goal_total-HasFailed :
      (json : Value) (w : World) {rep : Report}
      → (goal_total V json w).0 ≡ ok rep
      → rep.verified ≡ false
      → HasFailed rep.checks
  goal_total-HasFailed json w h flag =
      let (p, q, e, e', run) = goal_total-Run json w h in Run-HasFailed q w run flag
