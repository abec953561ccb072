-- ===== src/Shim/Goal/Total.antt =====
-- `goalTotal`, raiz-shim.js lines 735-932: its three steps and its report.
use raiz_confidential_stack.Prelude.{
  if◌then◌else◌, ℕ, suc, pos, ◌+ℤ◌, Text, Bool, true, false, Option, none, some, List, [], ◌∷◌,
  ◌++◌, Result, ok, err, Error, bind_result, Io, pure, lift, ◌>>=◌, length,
}
use raiz_confidential_stack.Values.{Value, Num}
use raiz_confidential_stack.Shim.Goal.Query.{Query, read_query}
use raiz_confidential_stack.Vendor.{Vendor, Account, Event}
use raiz_confidential_stack.Shim.Codec.{parse_params, dec}
use raiz_confidential_stack.Shim.Events.Pages.{fetch_events_from_url}
use raiz_confidential_stack.Shim.Goal.Ledger.{Row, Tally, empty_tally, replay}
use raiz_confidential_stack.Shim.Goal.Checks.{
  Check, CheckName, Detail, Verdict, all_passed, same_point, goal_meta_checks, verify_openings,
  commitment_checks,
}

-- Where the events came from.
pub record History (C : Type 0) : Type 0 where
  pub events : List (Event C)
  pub latest_ledger : Num
  pub oldest_ledger : Option Num

-- The result, without the time that the call took.
pub record Report : Type 0 where
  pub auditor_id : ℕ
  pub goal_name : Option Text
  pub target_stroops : Option Text
  pub total_stroops : Text
  pub spendable_stroops : Text
  pub receiving_stroops : Text
  pub contributions : List Row
  pub timeline : List Row
  pub verified : Bool
  pub fully_point_verified : Bool
  pub verified_at_ledger : ℕ
  pub checks : List Check
  pub from_url : Option Text
  pub events_latest_ledger : Num
  pub oldest_ledger : Option Num
  pub events_scanned : ℕ

-- `Number.isInteger(n) && n >= 0`
natural : Num → Result ℕ
natural (Num.whole (pos n)) = ok n
natural _ = err Error.goal_id_required

module _ (V : Vendor) where
  -- `useUrl && eventsLatestLedger > 0`, and then the ledger that the note names
  unfoldable pub stale_note : Option Text → Num → Option Num
  stale_note none n = none
  stale_note (some url) (Num.whole (pos (suc n))) = some (Num.whole (pos (suc n)))
  stale_note (some url) (Num.not_whole text) =
      if V.is_positive text then some (Num.not_whole text) else none
  stale_note (some url) _ = none

  open V use {
    World, Point, Cipher, auditor_public_key, confidential_balance, auditor_key, latest_ledger,
    get_goal, fetch_events,
  }

  -- What the registry of goals says: the name and the target, and the checks.
  pub record Registered : Type 0 where
    pub goal_name : Option Text
    pub target_stroops : Option Text
    pub checks : List Check

  -- step 1, the goal registry
  unfoldable pub check_goal_meta : Query → Io World Registered
  unfolding natural
  check_goal_meta q = elim q.goal_meta [
    | none ↦ pure (record {
      goal_name = none;
      target_stroops = none;
      checks =
          record {
            name = CheckName.goal_meta_key;
            passed = none;
            detail = Detail.skipped_no_goal_meta;
          }
          ∷ [];
    })
    | some contract ↦ do
      goal_id ← lift (natural q.goal_id)
      g ← get_goal q.client contract goal_id
      checks ← lift (goal_meta_checks V q.goal goal_id g (auditor_public_key q.k1))
      pure (record {
        goal_name = some g.name;
        target_stroops = some (dec g.target);
        checks = checks;
      })
  ]

  unfoldable pub registered_account : Query → Io World (Account Point)
  registered_account q = do
    found ← confidential_balance q.client q.goal
    lift (elim found [ none ↦ err (Error.goal_not_registered q.goal) | some a ↦ ok a ])

  -- step 1, the wrapper's own registry of auditors
  unfoldable pub check_auditor : Query → Account Point → Io World (List Check)
  check_auditor q account = elim q.client.auditor [
    | [] ↦ pure (
        record {
          name = CheckName.registry_key_unread;
          passed = none;
          detail = Detail.skipped_no_auditor;
        }
        ∷ [])
    | _ ∷ _ ↦ do
      key ← auditor_key q.client account.auditor_id
      pure (
          record {
            name = CheckName.registry_key account.auditor_id;
            passed = some (same_point V key (auditor_public_key q.k1));
            detail = Detail.same_auditor_point;
          }
          ∷ [])
  ]

  -- step 2, the source of the events
  unfoldable pub read_history : Query → Io World (History Cipher)
  read_history q = elim q.events_url [
    | some url ↦ do
      st ← fetch_events_from_url V (record {
        base_url = url;
        contract_id = q.client.token;
        start_ledger = some q.from_ledger;
        source = q.events_source;
        page_limit = 200;
      })
      pure (record {
        events = st.out;
        latest_ledger = st.latest_ledger;
        oldest_ledger = st.oldest_ledger;
      })
    | none ↦ do
      (events, latest) ← fetch_events q.client q.from_ledger q.client.token
      pure
          (record { events = events; latest_ledger = Num.whole (pos latest); oldest_ledger = none })
  ]

  abbrev is_quiet : List Row → Bool
  is_quiet [] = true
  is_quiet (_ ∷ _) = false

  -- The result from what the steps found.
  unfoldable pub report :
      Query → Registered → List Check → History Cipher → Tally → Verdict V → ℕ → Report
  unfolding stale_note
  report q registered auditor history t v ledger =
      let checks =
        registered.checks
        ++ auditor
        ++ commitment_checks V t v (stale_note q.events_url history.latest_ledger) in
      record {
        auditor_id = v.account.auditor_id;
        goal_name = registered.goal_name;
        target_stroops = registered.target_stroops;
        total_stroops = dec (t.spend_v +ℤ t.recv_v);
        spendable_stroops = dec t.spend_v;
        receiving_stroops = dec t.recv_v;
        contributions = t.contributions;
        timeline = t.timeline;
        verified = all_passed checks;
        fully_point_verified = t.spendable_provable;
        verified_at_ledger = ledger;
        checks = checks;
        from_url = q.events_url;
        events_latest_ledger = history.latest_ledger;
        oldest_ledger = history.oldest_ledger;
        events_scanned = length history.events;
      }

  -- What is read before the openings are compared.
  pub record Gathered : Type 0 where
    pub registered : Registered
    pub account : Account Point
    pub auditor : List Check
    pub history : History Cipher

  -- steps 1 and 2 up to the replay: the commitments are read before the events
  unfoldable pub gather : Query → Io World Gathered
  gather q = do
    registered ← check_goal_meta q
    account ← registered_account q
    auditor ← check_auditor q account
    history ← read_history q
    pure (record {
      registered = registered;
      account = account;
      auditor = auditor;
      history = history;
    })

  -- the replay, which fails if no event touches the goal
  unfoldable pub replay_history : Query → List (Event Cipher) → Result Tally
  replay_history q events =
      bind_result (replay V q.k1 q.goal events empty_tally)
        (λ t. if is_quiet t.timeline then err Error.no_events else ok t)

  unfoldable pub finish : Query → Gathered → Tally → Verdict V → Io World Report
  finish q g t v = do
    ledger ← latest_ledger q.client
    pure (report q g.registered g.auditor g.history t v ledger)

  -- step 3
  unfoldable pub conclude : Query → Gathered → Tally → Io World Report
  conclude q g t = verify_openings V q.client q.goal t g.account >>= finish q g t

  unfoldable pub after_gathering : Query → Gathered → Io World Report
  after_gathering q g = lift (replay_history q g.history.events) >>= conclude q g

  -- steps 1 to 3 behind the reading of the parameters
  unfoldable pub total_of_query : Query → Io World Report
  total_of_query q = gather q >>= after_gathering q

  unfoldable pub total_of_params : Value → Io World Report
  total_of_params p = lift (read_query V p) >>= total_of_query

  unfoldable pub goal_total : Value → Io World Report
  unfolding total_of_params
  goal_total json = lift (parse_params V json) >>= total_of_params
