-- ===== src/Vendor.antt =====
-- What the code takes from its dependencies: the vendor's confidential-token SDK, the Stellar SDK,
-- the network and the engine. `World` is the state of all of it between two calls.
use raiz_confidential_stack.Prelude.{ℕ, ℤ, Text, Bool, Option, List, Result, Io}
use raiz_confidential_stack.Values.{Value, Num}

-- `{ rpcUrl, networkPassphrase, contracts }` of a `ChainClient`.
pub record Client : Type 0 where
  pub rpc_url : Text
  pub passphrase : Text
  pub token : Text
  pub verifier : Text
  pub auditor : Text

-- Where an event stands in the chain's history.
pub record Place : Type 0 where
  pub ledger : ℕ
  pub tx_hash : Text
  pub closed_at : Option Text

-- The vendor's `ConfidentialEvent`; `C` is what an event carries encrypted.
pub data Event (C : Type 0) : Type 0 where
  deposit : Place → (from to : Text) → (amount : ℤ) → Event C
  transfer : Place → (from to : Text) → C → Event C
  withdraw : Place → (from to : Text) → (amount : ℤ) → C → Event C
  merge : Place → (account : Text) → Event C
  other : Place → (kind : Text) → Event C

-- `confidential_balance(account)`
pub record Account (P : Type 0) : Type 0 where
  pub spendable : P
  pub receiving : P
  pub viewing_key : P
  pub auditor_id : ℕ

-- A row of the `goal_meta` contract, by `scValToNative`.
pub record GoalRecord : Type 0 where
  pub name : Text
  pub target : ℤ
  pub goal_account : Text
  pub view_key : List ℕ

-- `base` of `buildConfidentialEvent`: where a raw row says that its event stands.
pub record Base : Type 0 where
  pub ledger : Num
  pub tx_hash : Value
  pub cursor : Text
  pub closed_at : Value

-- The vendor's `EventDataAccessor`.
pub record DataAccess (P : Type 0) : Type 0 where
  pub field : Text → Result ℤ
  pub point : Text → Result P
  pub i128 : Text → Result ℤ
  pub u32 : Text → Result ℕ

-- One request of the events endpoint, by its query parameters.
pub record PageRequest : Type 0 where
  pub base : Text
  pub contract_id : Text
  pub cursor : Value
  pub start_ledger : Option ℕ
  pub limit : ℕ
  pub source : Text

-- What a vendor witness builder returns.
pub record Witness : Type 0 where
  pub inputs : Value
  pub payload : Value
  pub next : Option Value

pub record Response : Type 0 where
  pub status : ℕ
  pub succeeded : Bool
  pub body : Text

-- The transaction that `TransactionBuilder` builds: one call of the wrapper, valid for `timeout`
-- seconds.
pub record Invocation (ScVal : Type 0) : Type 0 where
  pub source : Text
  pub sequence : ℕ
  pub contract : Text
  pub passphrase : Text
  pub method : Text
  pub args : List ScVal
  pub timeout : ℕ

-- `assembleTransaction(tx, sim).build()`, with what the simulation says of the ledger.
pub record Assembled : Type 0 where
  pub unsigned_xdr : Text
  pub fee : ℕ
  pub latest_ledger : ℕ

-- The outcome of `simulateTransaction`.
pub data Simulation : Type 0 where
  failed : Text → Simulation
  assembled : Assembled → Simulation

-- The opening of a commitment that the state engine keeps: value and randomness.
pub record Opening : Type 0 where
  pub v : ℤ
  pub r : ℤ

pub record Synced : Type 0 where
  pub spendable : Opening
  pub receiving : Opening
  pub synced_ledger : ℕ

pub record Proof : Type 0 where
  pub bytes : List ℕ
  pub public_inputs : List Text

pub record Vendor : Type 1 where
  pub World : Type 0
  pub Point : Type 0
  pub Cipher : Type 0
  pub Keys : Type 0
  pub Circuit : Type 0
  -- `pointCoords`, `commit`, `pointFromBytes`, `auditorPublicKey`
  pub coords : Point → ℕ × ℕ
  pub commit : ℤ → ℤ → Point
  pub point_from_bytes : List ℕ → Result Point
  pub auditor_public_key : ℤ → Point
  -- `toBytes32BE`, `toHex32`, `deriveKeys`, `addressToField`
  pub to_bytes32 : ℤ → Result (List ℕ)
  pub to_hex32 : ℤ → Text
  pub derive_keys : ℤ → ℤ → Result Keys
  pub address_to_field : Text → Result ℤ
  -- `auditTransferRecipientChannel` gives amount and randomness; `auditTransferSenderChannel`
  -- gives amount and the sender's new balance; `auditWithdraw` gives the sender's new balance.
  pub audit_recipient : ℤ → Cipher → Result (ℤ × ℤ)
  pub audit_sender : ℤ → Cipher → Result (ℤ × ℤ)
  pub audit_withdraw : ℤ → Cipher → Result ℤ
  -- the witness builders draw randomness
  pub register_witness : Keys → Io World Witness
  pub withdraw_witness : Keys → (v r amount : ℤ) → Point → (sigma re : Option ℤ) → Io World Witness
  pub transfer_witness :
      Keys
      → (v r amount : ℤ) → (pvk_b aud_r aud_s : Point) → (sigma re : Option ℤ) → Io World Witness
  -- noir_js and bb.js: the modules' start, a circuit of JSON text, its bytecode, the backend of a
  -- bytecode and a number of threads
  pub Backend : Type 0
  pub init_acvm : Io World (Unit {0})
  pub init_abi : Io World (Unit {0})
  pub import_bb : Io World (Unit {0})
  pub circuit_of_json : Text → Result Circuit
  pub bytecode : Circuit → Text
  pub new_backend : Text → ℕ → Backend
  pub execute : Circuit → Value → Io World (List ℕ)
  pub generate_proof : Backend → List ℕ → Io World Proof
  -- the chain
  pub is_registered : Client → Text → Io World Bool
  pub confidential_balance : Client → Text → Io World (Option (Account Point))
  pub auditor_key : Client → ℕ → Io World Point
  pub latest_ledger : Client → Io World ℕ
  pub get_goal : Client → Text → ℕ → Io World GoalRecord
  pub fetch_events : Client → ℕ → Text → Io World (List (Event Cipher) × ℕ)
  pub sync : Client → Keys → Text → Num → Io World Synced
  -- `getAccount`: the sequence number
  pub get_account : Client → Text → Io World ℕ
  pub random_scalar : Io World ℤ
  -- XDR values: `ScVal.fromXDR`, a symbol's text, the entries of a map by their keys' symbols,
  -- bytes, integers, the address of a topic
  pub ScVal : Type 0
  pub scval_from_xdr : Value → Result ScVal
  pub sym : ScVal → Result Text
  pub map_entries : ScVal → Result (List (Text × ScVal))
  pub scval_bytes : ScVal → Result (List ℕ)
  pub scval_i128 : ScVal → Result ℤ
  pub scval_u32 : ScVal → Result ℕ
  pub scval_address : ScVal → Result Text
  pub from_bytes_be : List ℕ → ℤ
  -- arguments of calls: an address, numbers, and the vendor's encodings of a witness and a proof
  pub address_scval : Text → Result ScVal
  pub u32_scval : Num → Result ScVal
  pub i128_scval : ℤ → Result ScVal
  pub encode_register : Witness → List ℕ → Result ScVal
  pub encode_transfer : Witness → List ℕ → Result ScVal
  pub simulate : Client → Invocation ScVal → Io World Simulation
  -- `KNOWN.has`, `naturalEventId`, `buildConfidentialEvent`
  pub known : Text → Bool
  pub natural_event_id : Num → Value → ℕ → Num → Text
  pub build_confidential_event :
      Text → Base → (ℕ → Result Text) → DataAccess Point → Result (Event Cipher)
  -- one GET of the events endpoint
  pub fetch_page : PageRequest → Io World Response
  -- the engine: `JSON.parse`, `Number` of a string, `fetch`
  pub json_parse : Text → Result Value
  pub read_number : Text → Num
  pub number_of_object : Value → Num
  -- `n > 0` of a number that is not whole, by its text
  pub is_positive : Text → Bool
  pub string_of : Value → Text
  pub fetch : Text → Io World Response
