-- ===== src/Scripts/CtFlow/Steps.antt =====
-- The steps of the cycle on testnet: scripts/ct-flow/flow.mjs, lines 57-190.
use raiz_confidential_stack.Prelude.{
  ℕ, ℤ, Text, codes, none, List, [], ◌∷◌, ◌++◌, length, Io, if◌then◌else◌,
}
use raiz_confidential_stack.Scripts.Calls.{pure, lift, ◌>>=◌}
use raiz_confidential_stack.Vendor.{Vendor, Client, Synced}
use raiz_confidential_stack.Scripts.Retry.{retry_shared}
use raiz_confidential_stack.Scripts.CtFlow.{
  Toolkit, DeploymentJson, client_of, passphrase, explorer_tx, tx_ledger,
}
use raiz_confidential_stack.Scripts.CtFlow.RunLog.{
  deposit_amount, transfer_amount, marta_auditor_id, goal_auditor_id, Extra, Entry, Balances,
  RunLog,
}

module _ {V : Vendor} (T : Toolkit V) where
  open V use {
    World, Keys, Point, derive_keys, address_to_field, register_witness, transfer_witness,
    is_registered, auditor_key,
  }
  open T use {
    Keypair, Signer, Prover, Engine, wait, secret, public_key, keypair_signer, circuit_prover,
    prove, state_engine, sync_engine, verify_against_chain, submit_register, submit_deposit,
    submit_merge, submit_transfer, viewing_key,
  }

  -- The accounts, which are stable across runs.
  pub record Accounts : Type 0 where
    pub marta : Keypair
    pub goal : Keypair
    pub marta_sk : ℤ
    pub goal_sk : ℤ

  -- What the steps work with.
  pub record Setup : Type 0 where
    pub client : Client
    pub marta_signer : Signer
    pub goal_signer : Signer
    pub marta_keys : Keys
    pub goal_keys : Keys
    pub aud_marta : Point
    pub aud_goal : Point
    pub marta_engine : Engine
    pub goal_engine : Engine
    pub register_prover : Prover
    pub transfer_prover : Prover

  -- One round of the loop that registers.
  pub record Party : Type 0 where
    pub label : Text
    pub keypair : Keypair
    pub signer : Signer
    pub keys : Keys
    pub auditor_id : ℕ

  -- signers, keys, the auditors' keys, engines and provers
  unfoldable pub set_up : DeploymentJson → Accounts → Io World Setup
  set_up dep a = do
    marta_signer ← lift (keypair_signer (secret a.marta) passphrase)
    goal_signer ← lift (keypair_signer (secret a.goal) passphrase)
    addr_f ← lift (address_to_field dep.token)
    marta_keys ← lift (derive_keys a.marta_sk addr_f)
    goal_keys ← lift (derive_keys a.goal_sk addr_f)
    aud_marta ←
        retry_shared wait (codes "auditorKey(0)") (auditor_key (client_of dep) marta_auditor_id)
    aud_goal ←
        retry_shared wait (codes "auditorKey(1)") (auditor_key (client_of dep) goal_auditor_id)
    register_prover ← lift (circuit_prover (codes "register"))
    transfer_prover ← lift (circuit_prover (codes "transfer"))
    pure (record {
      client = client_of dep;
      marta_signer = marta_signer;
      goal_signer = goal_signer;
      marta_keys = marta_keys;
      goal_keys = goal_keys;
      aud_marta = aud_marta;
      aud_goal = aud_goal;
      marta_engine =
          state_engine (client_of dep) marta_keys (public_key a.marta) dep.deployed_at_ledger;
      goal_engine =
          state_engine (client_of dep) goal_keys (public_key a.goal) dep.deployed_at_ledger;
      register_prover = register_prover;
      transfer_prover = transfer_prover;
    })

  -- `step(name, r, extra)`, which appends to `log.steps`
  unfoldable pub step : Client → Text → Text → Extra → List Entry → Io World (List Entry)
  step client name hash extra steps = do
    ledger ← tx_ledger T client hash
    pure (
        steps
        ++ record {
          name = name;
          tx_hash = hash;
          ledger = ledger;
          explorer = explorer_tx hash;
          extra = extra;
        }
          ∷ [])

  -- the proof and the call, for an account that is not registered
  unfoldable pub register_new : Setup → Party → List Entry → Io World (List Entry)
  unfolding step
  register_new s p steps = do
    w ← register_witness p.keys
    proof ← prove s.register_prover w.inputs
    hash ←
        retry_shared wait (codes "register " ++ p.label)
          (submit_register s.client p.signer (public_key p.keypair) p.auditor_id w proof)
    step s.client (codes "register " ++ p.label) hash (Extra.registered p.auditor_id (length proof))
        steps

  -- the body of the loop
  unfoldable pub register_party : Setup → Party → List Entry → Io World (List Entry)
  register_party s p steps = do
    known ←
        retry_shared wait (codes "isRegistered(" ++ p.label ++ codes ")")
          (is_registered s.client (public_key p.keypair))
    if known then pure steps else register_new s p steps

  -- the two rounds
  unfoldable pub register_both : Setup → Accounts → Io World (List Entry)
  register_both s a =
      register_party s
        (record {
          label = codes "Marta";
          keypair = a.marta;
          signer = s.marta_signer;
          keys = s.marta_keys;
          auditor_id = marta_auditor_id;
        })
        []
      >>= register_party s (record {
        label = codes "goal";
        keypair = a.goal;
        signer = s.goal_signer;
        keys = s.goal_keys;
        auditor_id = goal_auditor_id;
      })

  -- 3. deposit
  unfoldable pub deposit_marta : Setup → Accounts → List Entry → Io World (List Entry)
  unfolding step
  deposit_marta s a steps = do
    hash ← retry_shared wait (codes "deposit") (
        submit_deposit s.client s.marta_signer (public_key a.marta) (public_key a.marta)
          deposit_amount)
    step s.client (codes "deposit Marta") hash (Extra.deposited deposit_amount) steps

  -- 4. and 7. merge
  unfoldable pub merge_account :
      Setup → Text → Signer → Keypair → List Entry → Io World (List Entry)
  unfolding step
  merge_account s label signer keypair steps = do
    hash ←
        retry_shared wait (codes "merge " ++ label)
          (submit_merge s.client signer (public_key keypair))
    step s.client (codes "merge " ++ label) hash Extra.plain steps

  -- 5. confidential transfer, of a balance that the engine has decrypted
  unfoldable pub transfer_marta : Setup → Accounts → Synced → List Entry → Io World (List Entry)
  unfolding step
  transfer_marta s a marta steps = do
    w ←
        transfer_witness s.marta_keys marta.spendable.v marta.spendable.r transfer_amount
          (viewing_key s.goal_keys) s.aud_goal s.aud_marta none none
    proof ← prove s.transfer_prover w.inputs
    hash ←
        retry_shared wait (codes "confidential_transfer")
          (submit_transfer s.client s.marta_signer (public_key a.marta) (public_key a.goal) w proof)
    step s.client (codes "confidential_transfer Marta→goal") hash (Extra.transferred (length proof))
        steps

  -- 8. the final balances, and whether they match the chain
  unfoldable pub read_balances : Setup → Io World Balances
  read_balances s = do
    marta ← retry_shared wait (codes "Marta final sync") (sync_engine s.marta_engine)
    goal ← retry_shared wait (codes "goal final sync") (sync_engine s.goal_engine)
    marta_ok ← retry_shared wait (codes "Marta verify") (verify_against_chain s.marta_engine)
    goal_ok ← retry_shared wait (codes "goal verify") (verify_against_chain s.goal_engine)
    pure (record {
      marta_spendable = marta.spendable.v;
      goal_spendable = goal.spendable.v;
      marta_matches_chain = marta_ok;
      goal_matches_chain = goal_ok;
    })

  -- the log, once the balances are in it
  abbrev pub log_of : DeploymentJson → Accounts → List Entry → Balances → RunLog
  log_of dep a steps balances = record {
    network = codes "testnet";
    token = dep.token;
    marta = public_key a.marta;
    goal = public_key a.goal;
    marta_auditor = marta_auditor_id;
    goal_auditor = goal_auditor_id;
    deposit_stroops = deposit_amount;
    transfer_stroops = transfer_amount;
    steps = steps;
    final_balances = balances;
  }

  -- the steps, up to the log
  unfoldable pub run_steps : DeploymentJson → Accounts → Setup → Io World RunLog
  run_steps dep a s = do
    steps1 ← register_both s a
    steps2 ← deposit_marta s a steps1
    steps3 ← merge_account s (codes "Marta") s.marta_signer a.marta steps2
    marta ← retry_shared wait (codes "Marta sync") (sync_engine s.marta_engine)
    steps4 ← transfer_marta s a marta steps3
    _ ← retry_shared wait (codes "goal sync") (sync_engine s.goal_engine)
    steps5 ← merge_account s (codes "goal") s.goal_signer a.goal steps4
    balances ← read_balances s
    pure (log_of dep a steps5 balances)
