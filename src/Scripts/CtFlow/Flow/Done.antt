-- ===== src/Scripts/CtFlow/Flow/Done.antt =====
-- What a whole cycle of flow.mjs (lines 57-193) is: the set-up, the registrations, the four calls, the balances, each by
-- the account that it is for.
use raiz_confidential_stack.Prelude.{
  ℕ, ℤ, pos, Text, codes, true, false, none, List, [], ◌∷◌, ◌++◌, length, Io, ok, ◌≡◌, Said,
}
use raiz_confidential_stack.Vendor.{Vendor, Client, Synced, Witness}
use raiz_confidential_stack.Scripts.CtFlow.{Toolkit, DeploymentJson, client_of, passphrase}
use raiz_confidential_stack.Scripts.CtFlow.Steps.{Accounts, Setup}
use raiz_confidential_stack.Scripts.CtFlow.RunLog.{Entry, Extra, RunLog}

module _ {V : Vendor} (T : Toolkit V) where
  open V use {
    World, Keys, derive_keys, address_to_field, auditor_key, is_registered, register_witness,
    transfer_witness,
  }
  open T use {
    Keypair, Signer, secret, public_key, keypair_signer, circuit_prover, prove, state_engine,
    sync_engine, verify_against_chain, submit_register, submit_deposit, submit_merge,
    submit_transfer, viewing_key, transaction_ledger,
  }

  -- Signers, keys and engines are of the accounts that they are named for, and the auditors' keys are
  -- those of 0 and 1.
  pub record IsSetUp (dep : DeploymentJson) (a : Accounts T) (s : Setup T) : Type 0 where
    pub client : s.client ≡ client_of dep
    pub marta_signer : keypair_signer (secret a.marta) passphrase ≡ ok s.marta_signer
    pub goal_signer : keypair_signer (secret a.goal) passphrase ≡ ok s.goal_signer
    pub field : ℤ
    pub of_token : address_to_field dep.token ≡ ok field
    pub marta_keys : derive_keys a.marta_sk field ≡ ok s.marta_keys
    pub goal_keys : derive_keys a.goal_sk field ≡ ok s.goal_keys
    pub aud_marta : Said (auditor_key (client_of dep) 0) s.aud_marta
    pub aud_goal : Said (auditor_key (client_of dep) 1) s.aud_goal
    pub register_prover : circuit_prover (codes "register") ≡ ok s.register_prover
    pub transfer_prover : circuit_prover (codes "transfer") ≡ ok s.transfer_prover
    pub marta_engine :
        s.marta_engine
        ≡ state_engine (client_of dep) s.marta_keys (public_key a.marta) dep.deployed_at_ledger
    pub goal_engine :
        s.goal_engine
        ≡ state_engine (client_of dep) s.goal_keys (public_key a.goal) dep.deployed_at_ledger

  -- An entry of the log is of this call: the call returned the hash, and the chain its ledger.
  pub record IsEntry (c : Client) (name : Text) (call : Io World Text) (extra : Extra) (e : Entry)
      : Type 0 where
    pub name_said : e.name ≡ name
    pub hash_said : Said call e.tx_hash
    pub ledger_said : Said (transaction_ledger c e.tx_hash) e.ledger
    pub link_said : e.explorer ≡ codes "https://stellar.expert/explorer/testnet/tx/" ++ e.tx_hash
    pub extra_said : e.extra ≡ extra

  -- What a round of registrations logs: nothing where the chain has the account already, and
  -- otherwise the submitted registration, with the proof of a witness of the account's keys.
  pub data Enrols (s : Setup T) (label : Text) (kp : Keypair) (signer : Signer) (keys : Keys)
      (id : ℕ) : List Entry → Type 0 where
    known : Said (is_registered s.client (public_key kp)) true → Enrols s label kp signer keys id []
    fresh :
        (e : Entry) (w : Witness) (proof : List ℕ)
        → Said (is_registered s.client (public_key kp)) false
        → Said (register_witness keys) w
        → Said (prove s.register_prover w.inputs) proof
        → IsEntry s.client
            (codes "register " ++ label)
            (submit_register s.client signer (public_key kp) id w proof)
            (Extra.registered id (length proof))
            e
        → Enrols s label kp signer keys id (e ∷ [])

  -- The transfer: of 25 units of Marta's synced balance, for the goal's viewing key, proved, and
  -- submitted by Marta to the goal.
  pub record IsContribution (a : Accounts T) (s : Setup T) (e : Entry) : Type 0 where
    pub marta : Synced
    pub witness : Witness
    pub proof : List ℕ
    pub balance : Said (sync_engine s.marta_engine) marta
    pub witness_built :
        Said
          (transfer_witness s.marta_keys marta.spendable.v marta.spendable.r
            (pos 250000000)
            (viewing_key s.goal_keys)
            s.aud_goal
            s.aud_marta
            none
            none)
          witness
    pub witness_proved : Said (prove s.transfer_prover witness.inputs) proof
    pub submitted :
        IsEntry s.client
          (codes "confidential_transfer Marta→goal")
          (submit_transfer s.client s.marta_signer
            (public_key a.marta)
            (public_key a.goal)
            witness
            proof)
          (Extra.transferred (length proof))
          e

  -- The log of a whole cycle.
  pub record IsCycle (dep : DeploymentJson) (a : Accounts T) (s : Setup T) (log : RunLog)
      : Type 0 where
    pub marta_enrolled : List Entry
    pub goal_enrolled : List Entry
    pub deposit : Entry
    pub merge : Entry
    pub transfer : Entry
    pub harvest : Entry
    pub in_order :
        log.steps ≡ marta_enrolled ++ (goal_enrolled ++ (deposit ∷ merge ∷ transfer ∷ harvest ∷ []))
    pub marta_enrols : Enrols s (codes "Marta") a.marta s.marta_signer s.marta_keys 0 marta_enrolled
    pub goal_enrols : Enrols s (codes "goal") a.goal s.goal_signer s.goal_keys 1 goal_enrolled
    pub deposited :
        IsEntry s.client
          (codes "deposit Marta")
          (submit_deposit s.client s.marta_signer
            (public_key a.marta)
            (public_key a.marta)
            (pos 1000000000))
          (Extra.deposited (pos 1000000000))
          deposit
    pub merged :
        IsEntry s.client
          (codes "merge Marta")
          (submit_merge s.client s.marta_signer (public_key a.marta))
          Extra.plain
          merge
    pub contributed : IsContribution a s transfer
    pub harvested :
        IsEntry s.client
          (codes "merge goal")
          (submit_merge s.client s.goal_signer (public_key a.goal))
          Extra.plain
          harvest
    pub marta : Synced
    pub goal : Synced
    pub marta_synced : Said (sync_engine s.marta_engine) marta
    pub goal_synced : Said (sync_engine s.goal_engine) goal
    pub marta_balance : log.final_balances.marta_spendable ≡ marta.spendable.v
    pub goal_balance : log.final_balances.goal_spendable ≡ goal.spendable.v
    pub marta_checked :
        Said (verify_against_chain s.marta_engine) log.final_balances.marta_matches_chain
    pub goal_checked :
        Said (verify_against_chain s.goal_engine) log.final_balances.goal_matches_chain
    pub token_said : log.token ≡ dep.token
    pub accounts_said : (log.marta ≡ public_key a.marta) × (log.goal ≡ public_key a.goal)
    pub amounts_said :
        (log.deposit_stroops ≡ pos 1000000000) × (log.transfer_stroops ≡ pos 250000000)
