-- ===== src/Tests/Demo.antt =====
-- A vendor small enough to compute with: a point is the pair of the two numbers that it commits to,
-- a ciphertext is what it hides, and the world counts the calls of the network.
use raiz_confidential_stack.Prelude.{
  ◌∙◌, ℕ, suc, ◌+◌, ◌*◌, ◌/◌, ◌%◌, ℤ, pos, negsuc, ◌+ℤ◌, Text, codes, true, false, none, some, List,
  [], ◌∷◌, ok, Io, pure, ◌==◌, if◌then◌else◌, ◌≡◌, arith,
}
use mathlib.Core.Path.{ap₂}
use raiz_confidential_stack.Values
use raiz_confidential_stack.Values.{Value, Num}
use raiz_confidential_stack.Vendor.{Vendor, Place, Event, Account, Witness, Response, Simulation}
use raiz_confidential_stack.Shim.Goal.Openings.{IsHomomorphic}

-- Integers as natural numbers, and back.
abbrev pub encoded : ℤ → ℕ
encoded (pos n) = n * 2
encoded (negsuc n) = n * 2 + 1

abbrev pub decoded : ℕ → ℤ
decoded n = if n % 2 == 0 then pos (n / 2) else negsuc (n / 2)

decoded-encoded : (a : ℤ) → decoded (encoded a) ≡ a
decoded-encoded a = ground arith

abbrev pub add : ℕ × ℕ → ℕ × ℕ → ℕ × ℕ
add (a, b) (c, d) = (encoded (decoded a +ℤ decoded c), encoded (decoded b +ℤ decoded d))

abbrev pub place : ℕ → Place
place n = record { ledger = n; tx_hash = codes "tx"; closed_at = none }

abbrev pub goal : Text
goal = codes "G"

-- A deposit of 5, a transfer of 7 with the randomness 3, both merged, and a deposit of 2.
abbrev pub history : List (Event (ℤ × ℤ))
history =
    Event.deposit (place 1) (codes "A") goal (pos 5)
    ∷ Event.transfer (place 2) (codes "B") goal (pos 7, pos 3)
    ∷ Event.deposit (place 3) (codes "A") (codes "other") (pos 9)
    ∷ Event.merge (place 4) goal
    ∷ Event.deposit (place 5) (codes "A") goal (pos 2)
    ∷ []

abbrev pub account : Account (ℕ × ℕ)
account = record {
  spendable = (encoded (pos 12), encoded (pos 3));
  receiving = (encoded (pos 2), encoded (pos 0));
  viewing_key = (8, 8);
  auditor_id = 1;
}

-- `param name v` in front of an object's other fields.
abbrev pub param : Text → Value → Values.Fields → Values.Fields
param name v fs = Values.Fields.field name v fs

abbrev pub token : Text
token = codes "CBF64DEOVQAXJFBSNGFEUT2AH4H7K5JBY3ZYJ5GVEINMNSDISWRG5N3F"

abbrev pub witness : Witness
witness = record { inputs = Value.null; payload = Value.big (pos 1); next = none }

abbrev response : Response
response = record { status = 200; succeeded = true; body = codes "bytecode" }

abbrev pub call_of : {A : Type 0} → A → Io ℕ A
call_of a n = (ok a, suc n)

abbrev pub demo : Vendor
demo = record {
  World = ℕ;
  Point = ℕ × ℕ;
  Cipher = ℤ × ℤ;
  Keys = ℤ;
  Circuit = Text;
  coords = λ p. p;
  commit = λ v r. (encoded v, encoded r);
  point_from_bytes = λ _. ok (0, 0);
  auditor_public_key = λ k. (encoded k, 0);
  to_bytes32 = λ _. ok [];
  to_hex32 = λ _. codes "0x1";
  derive_keys = λ sk _. ok sk;
  address_to_field = λ _. ok (pos 1);
  audit_recipient = λ _ c. ok c;
  audit_sender = λ _ c. ok c;
  audit_withdraw = λ _ c. ok c.0;
  register_witness = λ _. pure witness;
  withdraw_witness = λ _ _ _ _ _ _ _. pure witness;
  transfer_witness = λ _ _ _ _ _ _ _ _ _. pure witness;
  Backend = Text × ℕ;
  init_acvm = pure tt;
  init_abi = pure tt;
  import_bb = pure tt;
  circuit_of_json = λ s. ok s;
  bytecode = λ c. c;
  new_backend = λ code n. (code, n);
  execute = λ _ _. pure (1 ∷ 2 ∷ []);
  generate_proof = λ _ w. call_of (record { bytes = w; public_inputs = [] });
  is_registered = λ _ _. call_of false;
  confidential_balance = λ _ _. call_of (some account);
  auditor_key = λ _ _. call_of (10, 0);
  latest_ledger = λ _. call_of 100;
  get_goal = λ _ _ _.
      call_of (record { name = codes "trip"; target = pos 50; goal_account = goal; view_key = [] });
  fetch_events = λ _ _ _. call_of (history, 90);
  sync = λ _ _ _ _. call_of (record {
    spendable = record { v = pos 12; r = pos 3 };
    receiving = record { v = pos 2; r = pos 0 };
    synced_ledger = 90;
  });
  get_account = λ _ _. call_of 7;
  random_scalar = pure (pos 5);
  ScVal = Value;
  scval_from_xdr = λ v. ok v;
  sym = λ _. ok [];
  map_entries = λ _. ok [];
  scval_bytes = λ _. ok [];
  scval_i128 = λ _. ok (pos 0);
  scval_u32 = λ _. ok 0;
  scval_address = λ _. ok [];
  from_bytes_be = λ _. pos 0;
  address_scval = λ s. ok (Value.str s);
  u32_scval = λ n. ok (Value.num n);
  i128_scval = λ n. ok (Value.big n);
  encode_register = λ _ _. ok Value.null;
  encode_transfer = λ _ _. ok Value.null;
  simulate = λ _ _.
      call_of (
        Simulation.assembled
          (record { unsigned_xdr = codes "xdr"; fee = 100; latest_ledger = 95 }));
  known = λ _. true;
  natural_event_id = λ _ _ _ _. [];
  build_confidential_event = λ _ _ _ _. ok (Event.other (place 1) []);
  fetch_page = λ _. call_of response;
  json_parse = λ _. ok Value.null;
  read_number = λ _. Num.not_whole (codes "NaN");
  number_of_object = λ _. Num.not_whole (codes "NaN");
  is_positive = λ _. false;
  string_of = λ _. [];
  fetch = λ _. call_of response;
}

decoded_sum : (a b : ℤ) → encoded (decoded (encoded a) +ℤ decoded (encoded b)) ≡ encoded (a +ℤ b)
decoded_sum a b = ap₂ (λ x y. encoded (x +ℤ y)) (decoded-encoded a) (decoded-encoded b)

add-encoded :
    (p q : ℕ × ℕ) (a b c d : ℤ)
    → p ≡ (encoded a, encoded b)
    → q ≡ (encoded c, encoded d)
    → add p q ≡ (encoded (a +ℤ c), encoded (b +ℤ d))
add-encoded p q a b c d hp hq =
    ap₂ add hp hq ∙ ap₂ (λ x y. (x, y)) (decoded_sum a c) (decoded_sum b d)

pub demo-IsHomomorphic : IsHomomorphic demo add
demo-IsHomomorphic = record { add_commit = add-encoded }
