-- ===== src/Tests/Receipts.antt =====
-- Receipts on the demo: a bundle is the amount that it shows.
use raiz_confidential_stack.Scripts.Retry.{after_attempt, attempt, retry_unless}
use raiz_confidential_stack.Shim.Codec.{read_big_int, big_of_text, dec}
use raiz_confidential_stack.Shim.Events.Raw.{big_int}
use raiz_confidential_stack.Scripts.Receipt.Verified.{
  minting_secret-verifying_secret, verify_receipt-IsGenuine, IsGenuine,
}
use raiz_confidential_stack.Scripts.EnvFile.{lookup, Env}
use raiz_confidential_stack.Scripts.Receipt.Made.{verify_receipt-make_receipt}
use raiz_confidential_stack.Scripts.Receipt.Protocol.{
  Listed, here, further, IsComplete, IsLasting, IsReady,
}
use mathlib.Core.Path.{sym, subst}
use raiz_confidential_stack.Scripts.Receipt.{
  demo_secret, secret_name, owns_transfer, find_transfer, recipient_key, locate, prove_bundle,
  disclose, judge, with_keys, with_request, settle, run_verification, mint_request,
  verifying_secret, contributor_secret, Outcome, verify_bundle, verify_receipt, Deployment,
  Disclosure, make_receipt, Found, minting_secret, Receipt,
}
use raiz_confidential_stack.Prelude.{
  Text, ok_injective, starts_with, is_space, trim_start, trim, ℕ, ℤ, pos, codes, same_text, true,
  false, some, [], ◌∷◌, ok, ◌≡◌, refl, ap, ◌∙◌, sym, ok_injective, pure, ◌⊎◌,
}
use raiz_confidential_stack.Vendor.{Client, Place, transfer}
use raiz_confidential_stack.Tests.Demo.{demo, call_of, token, history, goal, account}

abbrev demo_disclosure : Disclosure demo
demo_disclosure = record {
  RecipientKeys = ℤ;
  Request = ℤ;
  Bundle = ℤ;
  Prover = Unit {0};
  VerificationKey = Unit {0};
  recipient_keys = λ n. ok n;
  new_request = λ k. call_of k;
  ephemeral = λ _ _. pos 0;
  times_base = λ _. (0, 0);
  ephemeral_point = λ _. (0, 0);
  preview = λ _ _ c _ _. ok c.0;
  enable_threads = pure tt;
  make_prover = λ _. ok tt;
  destroy = λ _. pure tt;
  pinned_key = λ _. ok tt;
  sender_circuit = codes "disclose_sender";
  circuit_id = λ _. codes "disclose_sender";
  prove_sender = λ _ _ c _ _ _. call_of c.0;
  verify_disclosure = λ _ b _ _ _ _. call_of (record { account = codes "B"; amount = b });
  is_verify_error = λ _. false;
}

abbrev client : Client
client = record {
  rpc_url = codes "rpc";
  passphrase = [];
  token = token;
  verifier = [];
  auditor = [];
}

abbrev deployment : Deployment
deployment = record { client = client; deployed_at = 1; addr_f = pos 9; network = codes "testnet" }

abbrev secrets : Env
secrets = (codes "CT_MARTA_CONF_SK", codes "5") ∷ []

abbrev no_wait : ℕ → ℕ → ℕ
no_wait ms w = w

abbrev receipt : Receipt demo demo_disclosure no_wait
receipt = record {
  network = codes "testnet";
  token = token;
  claim = record { contributor = codes "B"; goal = codes "G"; amount_stroops = codes "7" };
  request = pos 0;
  bundle = pos 7;
}

abbrev found : Found
found = record { account = codes "B"; amount = pos 7 }

-- The demo verifier's key as a number.
abbrev minted_request : ℤ
minted_request = pos 0x00b97bacce7fe9dd24cc6b347a97d71770522c49cd83453afb36ac39add50601

minting_secret-verifying_secret_example :
    (minting_secret secrets ≡ verifying_secret secrets)
    ⊎ ((lookup secret_name secrets ≡ some [])
        × (minting_secret secrets ≡ demo_secret)
        × (verifying_secret secrets ≡ []))
minting_secret-verifying_secret_example = minting_secret-verifying_secret secrets

verified_run :
    (verify_receipt demo demo_disclosure no_wait deployment secrets receipt 0).0
    ≡ ok (Outcome.verified found)
unfolding verify_receipt verify_bundle verifying_secret run_verification settle judge lookup
    same_text big_int big_of_text read_big_int trim trim_start is_space starts_with retry_unless
    attempt after_attempt
verified_run = refl

verify_receipt-IsGenuine_example :
    (same_text token token ≡ true)
    × IsGenuine demo demo_disclosure no_wait deployment receipt found
    × (big_int (codes "7") ≡ ok (pos 7))
verify_receipt-IsGenuine_example =
    verify_receipt-IsGenuine demo demo_disclosure no_wait deployment secrets receipt 0 found
      verified_run

-- The only transfer of the demo's history is from B to the goal.
only_transfer :
    {at : Place} {from to : Text} {c : ℤ × ℤ}
    → Listed (transfer at from to c) history
    → (from ≡ codes "B") × (to ≡ goal)
only_transfer (further here) = (refl, refl)
only_transfer (further (further (further (further (further l))))) = elim l [ ]

demo-IsComplete : IsComplete demo demo_disclosure
demo-IsComplete = record {
  complete =
      λ client sender at from to c pvk_b keys request prover checker bundle key amount minted proved
          now owned on_chain has_key asked shown was_proved has_prover has_key'.
        let same : bundle ≡ amount = cc (shown, was_proved) in
        let events : on_chain.events ≡ history =
          ap (λ r. r.0) (ok_injective (sym on_chain.served)) in
        let (sender, _) =
          only_transfer (subst (Listed (transfer at from to c)) events on_chain.listed) in
        ap (λ n. ok (record { account = codes "B"; amount = n })) same
        ∙ ap (λ f. ok (record { account = f; amount = amount })) (sym sender);
}

-- The demo's chain serves the same at any time.
demo-IsLasting : IsLasting demo client (codes "tx") 9
demo-IsLasting = record {
  transfers = λ {w} {ledger} {last} {events} {at} {from} {to} {c} served listed of_tx.
      let same : events ≡ history = ap (λ r. r.0) (ok_injective (sym served)) in
      let listed' = subst (Listed (transfer at from to c)) same listed in
      let (f, t) = only_transfer listed' in
      record {
        ledger = 1;
        last = 90;
        events = history;
        served = refl;
        listed = listed';
        only = λ other. let (f', t') = only_transfer other in (f' ∙ sym f, t' ∙ sym t);
        sender_key = (8, 8);
        sender = record { account = account; registered = refl; its_key = refl };
      };
  keys = λ {w} {name} {account = found} served. record {
    account = found;
    registered = served;
    its_key = refl;
  };
}

demo-IsReady : IsReady demo demo_disclosure (codes "disclose_sender")
demo-IsReady = record {
  prover = tt;
  key = tt;
  has_prover = refl;
  has_key = refl;
  threads_start = λ w. refl;
  let_go = λ p w. refl;
}

same_secrets : minting_secret secrets ≡ verifying_secret secrets
unfolding minting_secret verifying_secret lookup same_text
same_secrets = refl

made_run :
    (make_receipt demo demo_disclosure no_wait deployment secrets (codes "tx") 0).0
    ≡ ok (record receipt { request = minted_request })
unfolding make_receipt contributor_secret mint_request minting_secret with_request with_keys
    disclose prove_bundle locate recipient_key find_transfer owns_transfer lookup same_text big_int
    dec big_of_text read_big_int trim trim_start is_space starts_with retry_unless attempt
    after_attempt
made_run = refl

verify_receipt-make_receipt_example :
    (v : Found) × ((verify_receipt demo demo_disclosure no_wait deployment secrets
        (record receipt { request = minted_request })
        9).0
      ≡ ok (Outcome.verified v))
    × (codes "7" ≡ dec v.amount)
    × (codes "B" ≡ v.account)
verify_receipt-make_receipt_example =
    verify_receipt-make_receipt demo demo_disclosure no_wait deployment secrets (codes "tx") 0 9
      (record receipt { request = minted_request }) demo-IsComplete demo-IsLasting demo-IsReady
      same_secrets made_run
