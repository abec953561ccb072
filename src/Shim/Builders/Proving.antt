-- ===== src/Shim/Builders/Proving.antt =====
-- The builders that prove, raiz-shim.js lines 435-455 and 477-526, without the times.
use raiz_confidential_stack.Prelude.{
  ℕ, ℤ, pos, Text, codes, Bool, true, false, Option, none, some, [], ◌∷◌, Result, ok, err, Error,
  bind_result, Io, pure, lift, throw_if, ◌>>=◌, ◌>>◌, length, ltb_ℤ,
}
use raiz_confidential_stack.Values
use raiz_confidential_stack.Values.{Value, Num, member, or_else}
use raiz_confidential_stack.Vendor.{Vendor, Client, Account, Synced}
use raiz_confidential_stack.Shim.Codec.{parse_params, req_str, dec}
use raiz_confidential_stack.Shim.Events.Raw.{to_number}
use raiz_confidential_stack.Shim.Prover.Engine.{Platform, Session, outside, exec_and_prove}
use raiz_confidential_stack.Shim.Prover.Generate.{build_witness}
use raiz_confidential_stack.Shim.Builders.{
  Unsigned, chain_client, positive_amount, build_unsigned_invoke, sync_state,
}

-- What `prepareRegister` returns.
pub data Registration : Type 0 where
  already_registered : (account : Text) → Registration
  to_sign : Unsigned → (auditor_id : Num) → (proof_length : ℕ) → Registration

pub record Transfer : Type 0 where
  pub call : Unsigned
  pub amount_stroops : Text
  pub spendable_before_stroops : Text
  pub recipient_auditor_id : ℕ
  pub proof_length : ℕ

-- The parameters of a transfer, once they are read.
pub record Order : Type 0 where
  pub client : Client
  pub from : Text
  pub to : Text
  pub amount : ℤ

unfoldable pub read_order : Value → Result Order
unfolding chain_client positive_amount
read_order p = bind_result (chain_client p) λ client. bind_result (req_str p (codes "from")) λ from.
    bind_result (req_str p (codes "to")) λ to.
      bind_result (positive_amount p)
        λ amount. ok (record { client = client; from = from; to = to; amount = amount })

-- Whose call it is and for which registry of which wrapper.
pub record Applicant : Type 0 where
  pub client : Client
  pub account : Text

unfoldable pub read_applicant : Value → Result Applicant
unfolding chain_client
read_applicant p = bind_result (chain_client p) λ client.
    bind_result (req_str p (codes "account"))
      λ account. ok (record { client = client; account = account })

-- `{ sk: p.sk, token: p.token }`
unfoldable pub secret_and_token : Value → Result Value
secret_and_token p = bind_result (member p (codes "sk")) λ sk.
    bind_result (member p (codes "token")) λ token. ok (
      Value.obj (
        Values.Fields.field (codes "sk") sk
          (Values.Fields.field (codes "token") token Values.Fields.end)))

-- `if (!acct) throw …`
abbrev pub account_or : {P : Type 0} → Option (Account P) → Error → Result (Account P)
account_or none e = err e
account_or (some a) e = ok a

module _ (V : Vendor) where
  open V use {
    World, Point, Keys, address_scval, u32_scval, encode_register, encode_transfer, is_registered,
    confidential_balance, auditor_key, transfer_witness,
  }

  -- Both ends of a transfer and their auditors' keys.
  pub record Parties : Type 0 where
    pub from_account : Account Point
    pub to_account : Account Point
    pub aud_s : Point
    pub aud_r : Point

  unfoldable pub read_parties : Order → Io World Parties
  read_parties o = do
    from_found ← confidential_balance o.client o.from
    to_found ← confidential_balance o.client o.to
    from_account ← lift (account_or from_found (Error.sender_not_registered o.from))
    to_account ← lift (account_or to_found (Error.recipient_not_registered o.to))
    aud_s ← auditor_key o.client from_account.auditor_id
    aud_r ← auditor_key o.client to_account.auditor_id
    pure (record {
      from_account = from_account;
      to_account = to_account;
      aud_s = aud_s;
      aud_r = aud_r;
    })

  module _ (platform : Platform) where
    -- the proof and the call of a registration
    unfoldable pub register_call : Value → Applicant → Io (Session V) (Unsigned × Num × ℕ)
    unfolding secret_and_token
    register_call p a = do
      inputs ← lift (secret_and_token p)
      w ← outside V (build_witness V (codes "register") inputs)
      proof ← exec_and_prove V platform (codes "register") w.inputs
      id ← lift (member p (codes "auditorId"))
      let auditor_id = to_number V (or_else id (Value.num (Num.whole (pos 0))))
      account_arg ← lift (address_scval a.account)
      id_arg ← lift (u32_scval auditor_id)
      data_arg ← lift (encode_register w proof.bytes)
      tx ← outside V (
          build_unsigned_invoke V a.client a.account (codes "register")
            (account_arg ∷ id_arg ∷ data_arg ∷ []))
      pure (tx, auditor_id, length proof.bytes)

    abbrev pub to_sign_of : Unsigned × Num × ℕ → Io (Session V) Registration
    to_sign_of (tx, auditor_id, n) = pure (Registration.to_sign tx auditor_id n)

    unfoldable pub register_account : Value → Applicant → Io (Session V) Registration
    register_account p a = register_call p a >>= to_sign_of

    -- `if (await client.isRegistered(account))`
    unfoldable pub register_unless : Value → Applicant → Bool → Io (Session V) Registration
    register_unless p a true = pure (Registration.already_registered a.account)
    register_unless p a false = register_account p a

    unfoldable pub register_applicant : Value → Applicant → Io (Session V) Registration
    register_applicant p a = outside V (is_registered a.client a.account) >>= register_unless p a

    unfoldable pub register_of_params : Value → Io (Session V) Registration
    register_of_params p = lift (read_applicant p) >>= register_applicant p

    -- `prepareRegister(json)`
    unfoldable pub prepare_register : Value → Io (Session V) Registration
    prepare_register json = lift (parse_params V json) >>= register_of_params

    -- the witness, the proof and the call of a transfer that the balance covers
    unfoldable pub transfer_between : Order → Keys → Synced → Parties → Io (Session V) Transfer
    transfer_between o keys state parties = do
      w ← outside V (
          transfer_witness keys state.spendable.v state.spendable.r o.amount
            parties.to_account.viewing_key parties.aud_r parties.aud_s none none)
      proof ← exec_and_prove V platform (codes "transfer") w.inputs
      from_arg ← lift (address_scval o.from)
      to_arg ← lift (address_scval o.to)
      data_arg ← lift (encode_transfer w proof.bytes)
      tx ← outside V (
          build_unsigned_invoke V o.client o.from (codes "confidential_transfer")
            (from_arg ∷ to_arg ∷ data_arg ∷ []))
      pure (record {
        call = tx;
        amount_stroops = dec o.amount;
        spendable_before_stroops = dec state.spendable.v;
        recipient_auditor_id = parties.to_account.auditor_id;
        proof_length = length proof.bytes;
      })

    -- the transfer behind the synced state: first of all, does the balance cover it?
    unfoldable pub transfer_synced : Order → Keys × Synced → Io (Session V) Transfer
    transfer_synced o (keys, state) =
        throw_if (ltb_ℤ state.spendable.v o.amount)
          (Error.insufficient_spendable state.spendable.v o.amount)
        >> (outside V (read_parties o) >>= transfer_between o keys state)

    unfoldable pub transfer_order : Value → Order → Io (Session V) Transfer
    transfer_order p o = outside V (sync_state V o.client p o.from) >>= transfer_synced o

    unfoldable pub transfer_of_params : Value → Io (Session V) Transfer
    transfer_of_params p = lift (read_order p) >>= transfer_order p

    -- `prepareTransfer(json)`
    unfoldable pub prepare_transfer : Value → Io (Session V) Transfer
    prepare_transfer json = lift (parse_params V json) >>= transfer_of_params
