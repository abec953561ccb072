-- ===== src/Shim/Builders.antt =====
-- `window.RaizChain` of raiz-shim.js, lines 349-548: the builders of unsigned calls and the status,
-- without the times that proofs took.
pub mod Proving
pub mod Sent
pub mod Guards
use raiz_confidential_stack.Prelude.{
  ℕ, ℤ, pos, Text, codes, Bool, not, ◌&&◌, Option, none, some, List, [], ◌∷◌, Result, ok, err,
  Error, bind_result, Io, pure, lift, ◌>>=◌, leb_ℤ, if◌then◌else◌,
}
use raiz_confidential_stack.Values
use raiz_confidential_stack.Values.{Value, Num, member, is_nullish, text_or, or_else}
use raiz_confidential_stack.Vendor.{Vendor, Client, Invocation, Simulation, Synced}
use raiz_confidential_stack.Shim.Codec.{as_strkey, parse_params, req_str, dec}
use raiz_confidential_stack.Shim.Events.Raw.{to_number}
use raiz_confidential_stack.Shim.Prover.Generate.{big_param, keys_of_params}

abbrev pub default_passphrase : Text
default_passphrase = codes "Test SDF Network ; September 2015"

-- What `buildUnsignedInvoke` returns.
pub record Unsigned : Type 0 where
  pub method : Text
  pub source : Text
  pub unsigned_xdr : Text
  pub fee_stroops : ℕ
  pub latest_ledger : ℕ

pub record Deposit : Type 0 where
  pub call : Unsigned
  pub amount_stroops : Text

-- The balances that `status` decrypts.
pub record Balances : Type 0 where
  pub spendable_stroops : Text
  pub receiving_stroops : Text
  pub synced_ledger : ℕ

pub record Status : Type 0 where
  pub account : Text
  pub registered : Bool
  pub latest_ledger : ℕ
  pub balances : Option Balances

-- `chainClient(p)`
unfoldable pub chain_client : Value → Result Client
chain_client p = bind_result (req_str p (codes "rpcUrl")) λ rpc_url.
    bind_result (member p (codes "passphrase")) λ passphrase.
      bind_result (req_str p (codes "token")) λ token_text.
        bind_result (as_strkey (Value.str token_text) (codes "token")) λ token.
          bind_result (req_str p (codes "verifier")) λ verifier.
            bind_result (req_str p (codes "auditor")) λ auditor. ok (record {
              rpc_url = rpc_url;
              passphrase = text_or passphrase default_passphrase;
              token = token;
              verifier = verifier;
              auditor = auditor;
            })

-- `asBig(p.amountStroops, "amountStroops")`, which has to be positive
unfoldable pub positive_amount : Value → Result ℤ
unfolding big_param
positive_amount p =
    bind_result (big_param p (codes "amountStroops"))
      λ amount. if leb_ℤ amount (pos 0) then err (Error.not_positive amount) else ok amount

module _ (V : Vendor) where
  open V use {
    World, Keys, ScVal, get_account, simulate, address_scval, i128_scval, is_registered,
    latest_ledger, sync,
  }

  -- What a simulation leaves to sign.
  unfoldable pub unsigned : Text → Text → Simulation → Result Unsigned
  unsigned source method (Simulation.failed why) = err (Error.simulation_failed method why)
  unsigned source method (Simulation.assembled a) = ok (record {
    method = method;
    source = source;
    unsigned_xdr = a.unsigned_xdr;
    fee_stroops = a.fee;
    latest_ledger = a.latest_ledger;
  })

  unfoldable pub invocation : Client → Text → ℕ → Text → List ScVal → Invocation ScVal
  invocation client source sequence method args = record {
    source = source;
    sequence = sequence;
    contract = client.token;
    passphrase = client.passphrase;
    method = method;
    args = args;
    timeout = 180;
  }

  -- `buildUnsignedInvoke(client, source, method, args)`
  unfoldable pub build_unsigned_invoke : Client → Text → Text → List ScVal → Io World Unsigned
  unfolding unsigned invocation
  build_unsigned_invoke client source method args = do
    sequence ← get_account client source
    sim ← simulate client (invocation client source sequence method args)
    lift (unsigned source method sim)

  -- `syncState(client, p, address)`
  unfoldable pub sync_state : Client → Value → Text → Io World (Keys × Synced)
  sync_state client p address = do
    keys ← lift (keys_of_params V p)
    from ← lift (member p (codes "fromLedger"))
    state ← sync client keys address (to_number V (or_else from (Value.num (Num.whole (pos 0)))))
    pure (keys, state)

  -- `prepareDeposit(json)`
  unfoldable pub prepare_deposit : Value → Io World Deposit
  unfolding chain_client
  prepare_deposit json = do
    p ← lift (parse_params V json)
    client ← lift (chain_client p)
    from ← lift (req_str p (codes "from"))
    to ← lift (req_str p (codes "to"))
    amount ← lift (positive_amount p)
    from_arg ← lift (address_scval from)
    to_arg ← lift (address_scval to)
    amount_arg ← lift (i128_scval amount)
    tx ← build_unsigned_invoke client from (codes "deposit") (from_arg ∷ to_arg ∷ amount_arg ∷ [])
    pure (record { call = tx; amount_stroops = dec amount })

  -- `prepareMerge(json)`
  unfoldable pub prepare_merge : Value → Io World Unsigned
  unfolding chain_client
  prepare_merge json = do
    p ← lift (parse_params V json)
    client ← lift (chain_client p)
    account ← lift (req_str p (codes "account"))
    account_arg ← lift (address_scval account)
    build_unsigned_invoke client account (codes "merge") (account_arg ∷ [])

  -- `status(json)`, the balances
  unfoldable pub read_balances : Client → Value → Text → Io World (Option Balances)
  unfolding sync_state
  read_balances client p account = do
    (_, state) ← sync_state client p account
    pure (
        some (record {
          spendable_stroops = dec state.spendable.v;
          receiving_stroops = dec state.receiving.v;
          synced_ledger = state.synced_ledger;
        }))

  -- `status(json)`
  unfoldable pub status : Value → Io World Status
  unfolding chain_client read_balances
  status json = do
    p ← lift (parse_params V json)
    client ← lift (chain_client p)
    account ← lift (req_str p (codes "account"))
    registered ← is_registered client account
    ledger ← latest_ledger client
    sk ← lift (member p (codes "sk"))
    balances ←
        (if registered && not (is_nullish sk) then read_balances client p account else pure none)
    pure (record {
      account = account;
      registered = registered;
      latest_ledger = ledger;
      balances = balances;
    })
