-- ===== src/Scripts/CtFlow/Flow/Ran.antt =====
-- What the steps of flow.mjs do and log: scripts/ct-flow/flow.mjs, lines 57-193.

use raiz_confidential_stack.Scripts.CtFlow.Flow.Done.{
  IsSetUp, IsEntry, Enrols, IsContribution, IsCycle,
}
use raiz_confidential_stack.Prelude.{
  pos, if◌then◌else◌, sym, Text, codes, Bool, true, false, List, [], ◌∷◌, ◌++◌, Io, ◌≡◌, refl, ap,
  ◌∙◌, append_assoc, append-nil, Said,
}
use raiz_confidential_stack.Vendor.{Vendor, Client, Synced}
use raiz_confidential_stack.Scripts.Retry.{retry_shared, never}
use raiz_confidential_stack.Scripts.Retry.Returned.{retry_unless-returned}
use raiz_confidential_stack.Scripts.CtFlow.{Toolkit, DeploymentJson, client_of, tx_ledger}
use raiz_confidential_stack.Scripts.Calls.{pure, Ensures}
use raiz_confidential_stack.Scripts.Calls.Rules.{
  Ensures-pure, Ensures-bind, Ensures-then, Ensures-Said, Ensures-lift, Ensures-weaken,
}
use raiz_confidential_stack.Scripts.CtFlow.Steps.{
  Accounts, Setup, Party, set_up, step, register_new, register_party, register_both, deposit_marta,
  merge_account, transfer_marta, read_balances, run_steps,
}
use raiz_confidential_stack.Scripts.CtFlow.RunLog.{Entry, Extra, Balances}

module _ {V : Vendor} (T : Toolkit V) where
  open V use {World}

  -- What a call returned under `retry`, it returned in an attempt.
  Ensures-retry :
      {A : Type 0} (label : Text) (fn : Io World A)
      → Ensures (Said fn) (retry_shared T.wait label fn)
  unfolding retry_shared
  Ensures-retry label fn = record {
    at = λ w {a = a} h. retry_unless-returned T.wait never label 4 3000 fn a w h;
  }

  -- One more step, of a kind.
  abbrev Adds : List Entry → (Entry → Type 0) → List Entry → Type 0
  Adds steps P after = (e : Entry) × (after ≡ steps ++ e ∷ []) × P e

  step-Adds :
      (c : Client) (name hash : Text) (extra : Extra) (steps : List Entry) (call : Io World Text)
      → Said call hash
      → Ensures (Adds steps (IsEntry T c name call extra)) (step T c name hash extra steps)
  unfolding step tx_ledger
  step-Adds c name hash extra steps call said =
      Ensures-bind _ _ (Ensures-retry _ (T.transaction_ledger c hash)) (λ ledger at.
        Ensures-pure _ (
          _,
          refl,
          record {
            name_said = refl;
            hash_said = said;
            ledger_said = at;
            link_said = refl;
            extra_said = refl;
          },
        ))

  pub set_up-IsSetUp :
      (dep : DeploymentJson) (a : Accounts T) → Ensures (IsSetUp T dep a) (set_up T dep a)
  unfolding set_up
  set_up-IsSetUp dep a = Ensures-bind _ _ (Ensures-lift _) λ marta_signer h1.
      Ensures-bind _ _ (Ensures-lift _) λ goal_signer h2.
        Ensures-bind _ _ (Ensures-lift _) λ field h3.
          Ensures-bind _ _ (Ensures-lift _) λ marta_keys h4.
            Ensures-bind _ _ (Ensures-lift _) λ goal_keys h5.
              Ensures-bind _ _ (Ensures-retry _ (V.auditor_key (client_of dep) 0)) λ aud_marta h6.
                Ensures-bind _ _ (Ensures-retry _ (V.auditor_key (client_of dep) 1)) λ aud_goal h7.
                  Ensures-bind _ _ (Ensures-lift _) λ register_prover h8.
                    Ensures-bind _ _ (Ensures-lift _) λ transfer_prover h9. Ensures-pure _ (record {
                      client = refl;
                      marta_signer = h1;
                      goal_signer = h2;
                      field = field;
                      of_token = h3;
                      marta_keys = h4;
                      goal_keys = h5;
                      aud_marta = h6;
                      aud_goal = h7;
                      register_prover = h8;
                      transfer_prover = h9;
                      marta_engine = refl;
                      goal_engine = refl;
                    })

  -- A round of registrations.
  abbrev AddsParty : Setup T → Party T → List Entry → List Entry → Type 0
  AddsParty s p steps after =
      (new : List Entry) × (after ≡ steps ++ new)
      × Enrols T s p.label p.keypair p.signer p.keys p.auditor_id new

  register_new-AddsParty :
      (s : Setup T) (p : Party T) (steps : List Entry)
      → Said (V.is_registered s.client (T.public_key p.keypair)) false
      → Ensures (AddsParty s p steps) (register_new T s p steps)
  unfolding register_new
  register_new-AddsParty s p steps unknown = Ensures-bind _ _ (Ensures-Said _) λ w h1.
      Ensures-bind _ _ (Ensures-Said _) λ proof h2.
        Ensures-bind _ _
          (Ensures-retry _
            (T.submit_register s.client p.signer (T.public_key p.keypair) p.auditor_id w proof))
          λ hash h3.
            Ensures-weaken _
              (λ after (e, same, is_entry).
                (e ∷ [], same, Enrols.fresh e w proof unknown h1 h2 is_entry))
              (step-Adds s.client _ hash _ steps _ h3)

  register_party-AddsParty :
      (s : Setup T) (p : Party T) (steps : List Entry)
      → Ensures (AddsParty s p steps) (register_party T s p steps)
  unfolding register_party
  register_party-AddsParty s p steps =
      Ensures-bind _ _ (Ensures-retry _ (V.is_registered s.client (T.public_key p.keypair)))
        λ known h. go known h
    where
      go :
          (known : Bool)
          → Said (V.is_registered s.client (T.public_key p.keypair)) known
          → Ensures (AddsParty s p steps) (if known then pure steps else register_new T s p steps)
      go true h = Ensures-pure steps ([], sym (append-nil steps), Enrols.known h)
      go false h = register_new-AddsParty s p steps h

  -- The registrations of both.
  abbrev Registered : Setup T → Accounts T → List Entry → Type 0
  Registered s a steps =
      (m : List Entry) × (g : List Entry) × (steps ≡ m ++ g)
      × Enrols T s (codes "Marta") a.marta s.marta_signer s.marta_keys 0 m
      × Enrols T s (codes "goal") a.goal s.goal_signer s.goal_keys 1 g

  register_both-Registered :
      (s : Setup T) (a : Accounts T) → Ensures (Registered s a) (register_both T s a)
  unfolding register_both
  register_both-Registered s a =
      Ensures-bind _ _ (register_party-AddsParty s _ []) λ steps (m, first, em).
        Ensures-weaken _ (λ after (g, second, eg). (m, g, second ∙ ap (λ l. l ++ g) first, em, eg))
          (register_party-AddsParty s _ steps)

  transfer_marta-Adds :
      (s : Setup T) (a : Accounts T) (marta : Synced) (steps : List Entry)
      → Said (T.sync_engine s.marta_engine) marta
      → Ensures (Adds steps (IsContribution T a s)) (transfer_marta T s a marta steps)
  unfolding transfer_marta
  transfer_marta-Adds s a marta steps synced = Ensures-bind _ _ (Ensures-Said _) λ w h1.
      Ensures-bind _ _ (Ensures-Said _) λ proof h2.
        Ensures-bind _ _
          (Ensures-retry _ (
            T.submit_transfer s.client s.marta_signer (T.public_key a.marta) (T.public_key a.goal) w
              proof))
          λ hash h3.
            Ensures-weaken _
              (λ after (e, same, is_entry). (
                e,
                same,
                record {
                  marta = marta;
                  witness = w;
                  proof = proof;
                  balance = synced;
                  witness_built = h1;
                  witness_proved = h2;
                  submitted = is_entry;
                },
              ))
              (step-Adds s.client _ hash _ steps _ h3)

  deposit_marta-Adds :
      (s : Setup T) (a : Accounts T) (steps : List Entry)
      → Ensures
          (Adds steps (
            IsEntry T s.client
              (codes "deposit Marta")
              (T.submit_deposit s.client s.marta_signer
                (T.public_key a.marta)
                (T.public_key a.marta)
                (pos 1000000000))
              (Extra.deposited (pos 1000000000))))
          (deposit_marta T s a steps)
  unfolding deposit_marta
  deposit_marta-Adds s a steps =
      Ensures-bind _ _ (Ensures-retry _ _) λ hash h. step-Adds s.client _ hash _ steps _ h

  merge_account-Adds :
      (s : Setup T) (label : Text) (signer : T.Signer) (kp : T.Keypair) (steps : List Entry)
      → Ensures
          (Adds steps (
            IsEntry T s.client
              (codes "merge " ++ label)
              (T.submit_merge s.client signer (T.public_key kp))
              Extra.plain))
          (merge_account T s label signer kp steps)
  unfolding merge_account
  merge_account-Adds s label signer kp steps =
      Ensures-bind _ _ (Ensures-retry _ _) λ hash h. step-Adds s.client _ hash _ steps _ h

  -- The final balances, each by its own engine.
  record IsRead (s : Setup T) (b : Balances) : Type 0 where
    marta : Synced
    goal : Synced
    marta_synced : Said (T.sync_engine s.marta_engine) marta
    goal_synced : Said (T.sync_engine s.goal_engine) goal
    marta_balance : b.marta_spendable ≡ marta.spendable.v
    goal_balance : b.goal_spendable ≡ goal.spendable.v
    marta_checked : Said (T.verify_against_chain s.marta_engine) b.marta_matches_chain
    goal_checked : Said (T.verify_against_chain s.goal_engine) b.goal_matches_chain

  read_balances-IsRead : (s : Setup T) → Ensures (IsRead s) (read_balances T s)
  unfolding read_balances
  read_balances-IsRead s = Ensures-bind _ _ (Ensures-retry _ _) λ marta h1.
      Ensures-bind _ _ (Ensures-retry _ _) λ goal h2.
        Ensures-bind _ _ (Ensures-retry _ _) λ marta_ok h3.
          Ensures-bind _ _ (Ensures-retry _ _) λ goal_ok h4. Ensures-pure _ (record {
            marta = marta;
            goal = goal;
            marta_synced = h1;
            goal_synced = h2;
            marta_balance = refl;
            goal_balance = refl;
            marta_checked = h3;
            goal_checked = h4;
          })

  pub run_steps-IsCycle :
      (dep : DeploymentJson) (a : Accounts T) (s : Setup T)
      → Ensures (IsCycle T dep a s) (run_steps T dep a s)
  unfolding run_steps
  run_steps-IsCycle dep a s =
      Ensures-bind _ _ (register_both-Registered s a) λ steps1 (m, g, h1, em, eg).
        Ensures-bind _ _ (deposit_marta-Adds s a steps1) λ steps2 (e2, h2, p2).
          Ensures-bind _ _ (merge_account-Adds s (codes "Marta") s.marta_signer a.marta steps2)
            λ steps3 (e3, h3, p3).
              Ensures-bind _ _ (Ensures-retry _ (T.sync_engine s.marta_engine)) λ marta synced.
                Ensures-bind _ _ (transfer_marta-Adds s a marta steps3 synced)
                  λ steps4 (e4, h4, p4). Ensures-then _ _ λ seen.
                    Ensures-bind _ _
                      (merge_account-Adds s (codes "goal") s.goal_signer a.goal steps4)
                      λ steps5 (e5, h5, p5).
                        Ensures-bind _ _ (read_balances-IsRead s) λ balances read.
                          Ensures-pure _ (record {
                            marta_enrolled = m;
                            goal_enrolled = g;
                            deposit = e2;
                            merge = e3;
                            transfer = e4;
                            harvest = e5;
                            in_order = simp (h5, h4, h3, h2, h1, append_assoc);
                            marta_enrols = em;
                            goal_enrols = eg;
                            deposited = p2;
                            merged = p3;
                            contributed = p4;
                            harvested = p5;
                            marta = read.marta;
                            goal = read.goal;
                            marta_synced = read.marta_synced;
                            goal_synced = read.goal_synced;
                            marta_balance = read.marta_balance;
                            goal_balance = read.goal_balance;
                            marta_checked = read.marta_checked;
                            goal_checked = read.goal_checked;
                            token_said = refl;
                            accounts_said = (refl, refl);
                            amounts_said = (refl, refl);
                          })
