-- ===== src/Shim/Builders/Sent.antt =====
-- The call that `prepareTransfer` builds behind its guards (raiz-shim.js, lines 494-525).
use mathlib.Core.Path.{subst}
use raiz_confidential_stack.Prelude.{
  Said, codes, none, [], ◌∷◌, ok, Error, Option, some, Io, lift, pure, length, ◌>>=◌, ◌∙◌,
  ok_injective, ◌≡◌, ap, refl, >>=-eq-ok,
}
use raiz_confidential_stack.Vendor.{Vendor, Account, Synced, Witness, Proof}
use raiz_confidential_stack.Shim.Codec.{dec}
use raiz_confidential_stack.Shim.Prover.Engine.{Platform, Session, outside, exec_and_prove}
use raiz_confidential_stack.Shim.Builders.{Unsigned, build_unsigned_invoke}
use raiz_confidential_stack.Shim.Builders.Proving.{
  Order, Transfer, Parties, account_or, read_parties, transfer_between,
}

module _ (V : Vendor) where
  open V use {World, Point, Keys, address_scval, encode_transfer}

  -- The chain has an account for each end of the transfer, and the auditors' keys are theirs.
  pub record IsAnswered (o : Order) (parties : Parties V) : Type 0 where
    pub sender : Said (V.confidential_balance o.client o.from) (some parties.from_account)
    pub recipient : Said (V.confidential_balance o.client o.to) (some parties.to_account)
    pub sender_auditor : Said (V.auditor_key o.client parties.from_account.auditor_id) parties.aud_s
    pub recipient_auditor :
        Said (V.auditor_key o.client parties.to_account.auditor_id) parties.aud_r

  account_or-eq-ok :
      {P : Type 0} (found : Option (Account P)) (e : Error) (a : Account P)
      → account_or found e ≡ ok a
      → found ≡ some a
  account_or-eq-ok none e a h = cc
  account_or-eq-ok (some b) e a h = cc

  pub read_parties-IsAnswered :
      (o : Order) (parties : Parties V) (w : World)
      → (read_parties V o w).0 ≡ ok parties
      → IsAnswered o parties
  unfolding read_parties
  read_parties-IsAnswered o parties w h =
      let made : Account Point → Account Point → Point → Point → Parties V =
        λ a b x y. record { from_account = a; to_account = b; aud_s = x; aud_r = y } in
      let of_s : Account Point → Account Point → Point → Io World (Parties V) =
        λ a b x. V.auditor_key o.client b.auditor_id >>= λ y. pure (made a b x y) in
      let of_to : Account Point → Account Point → Io World (Parties V) =
        λ a b. V.auditor_key o.client a.auditor_id >>= of_s a b in
      let of_from : Option (Account Point) → Account Point → Io World (Parties V) =
        λ g a. lift (account_or g (Error.recipient_not_registered o.to)) >>= of_to a in
      let of_both : Option (Account Point) → Option (Account Point) → Io World (Parties V) =
        λ f g. lift (account_or f (Error.sender_not_registered o.from)) >>= of_from g in
      let of_found : Option (Account Point) → Io World (Parties V) =
        λ f. V.confidential_balance o.client o.to >>= of_both f in
      let (f, hf, h1) = >>=-eq-ok (V.confidential_balance o.client o.from) of_found w h in
      let w1 = (V.confidential_balance o.client o.from w).1 in
      let (g, hg, h2) = >>=-eq-ok (V.confidential_balance o.client o.to) (of_both f) w1 h1 in
      let w2 = (V.confidential_balance o.client o.to w1).1 in
      let (a, ha, h3) =
        >>=-eq-ok (lift (account_or f (Error.sender_not_registered o.from))) (of_from g) w2 h2 in
      let (b, hb, h4) =
        >>=-eq-ok (lift (account_or g (Error.recipient_not_registered o.to))) (of_to a) w2 h3 in
      let (x, hx, h5) = >>=-eq-ok (V.auditor_key o.client a.auditor_id) (of_s a b) w2 h4 in
      let w3 = (V.auditor_key o.client a.auditor_id w2).1 in
      let back : Point → Io World (Parties V) = λ y. pure (made a b x y) in
      let (y, hy, h6) = >>=-eq-ok (V.auditor_key o.client b.auditor_id) back w3 h5 in
      let found_f = account_or-eq-ok f _ a ha in
      let found_g = account_or-eq-ok g _ b hb in
      let made_answered : IsAnswered o (made a b x y) = record {
        sender = (w, hf ∙ ap ok found_f);
        recipient = (w1, hg ∙ ap ok found_g);
        sender_auditor = (w2, hx);
        recipient_auditor = (w3, hy);
      } in
      subst (IsAnswered o) {x = made a b x y} (ok_injective {a = made a b x y} h6) made_answered

  module _ (platform : Platform) where
    -- The witness is of this sender's keys and spendable balance, this amount and the recipient's
    -- viewing key; the proof is of that witness; and the call hands over that proof, from the sender
    -- to the recipient.
    pub record IsSent (o : Order) (keys : Keys) (state : Synced) (parties : Parties V)
        (t : Transfer) : Type 0 where
      pub witness : Witness
      pub proof : Proof
      pub from_arg : V.ScVal
      pub to_arg : V.ScVal
      pub data_arg : V.ScVal
      pub witness_built :
          Said
            (V.transfer_witness keys state.spendable.v state.spendable.r o.amount
              parties.to_account.viewing_key parties.aud_r parties.aud_s none none)
            witness
      pub witness_proved : Said (exec_and_prove V platform (codes "transfer") witness.inputs) proof
      pub from_sender : address_scval o.from ≡ ok from_arg
      pub to_recipient : address_scval o.to ≡ ok to_arg
      pub proof_handed : encode_transfer witness proof.bytes ≡ ok data_arg
      pub called :
          Said
            (build_unsigned_invoke V o.client o.from
              (codes "confidential_transfer")
              (from_arg ∷ to_arg ∷ data_arg ∷ []))
            t.call
      pub amount_said : t.amount_stroops ≡ dec o.amount
      pub balance_said : t.spendable_before_stroops ≡ dec state.spendable.v
      pub auditor_said : t.recipient_auditor_id ≡ parties.to_account.auditor_id
      pub length_said : t.proof_length ≡ length proof.bytes

    pub transfer_between-IsSent :
        (o : Order) (keys : Keys) (state : Synced) (parties : Parties V) (s : Session V)
        (t : Transfer)
        → (transfer_between V platform o keys state parties s).0 ≡ ok t
        → IsSent o keys state parties t
    unfolding transfer_between outside
    transfer_between-IsSent o keys state parties s t h =
        let made : Proof → Unsigned → Transfer = λ proof tx. record {
          call = tx;
          amount_stroops = dec o.amount;
          spendable_before_stroops = dec state.spendable.v;
          recipient_auditor_id = parties.to_account.auditor_id;
          proof_length = length proof.bytes;
        } in
        let call : V.ScVal → V.ScVal → V.ScVal → Io World Unsigned = λ f g d.
          build_unsigned_invoke V o.client o.from (codes "confidential_transfer")
            (f ∷ g ∷ d ∷ []) in
        let back : Proof → Unsigned → Io (Session V) Transfer = λ proof tx. pure (made proof tx) in
        let of_data : Proof → V.ScVal → V.ScVal → V.ScVal → Io (Session V) Transfer =
          λ proof f g d. outside V (call f g d) >>= back proof in
        let of_to : Witness → Proof → V.ScVal → V.ScVal → Io (Session V) Transfer =
          λ w proof f g. lift (encode_transfer w proof.bytes) >>= of_data proof f g in
        let of_from : Witness → Proof → V.ScVal → Io (Session V) Transfer =
          λ w proof f. lift (address_scval o.to) >>= of_to w proof f in
        let of_proof : Witness → Proof → Io (Session V) Transfer =
          λ w proof. lift (address_scval o.from) >>= of_from w proof in
        let of_witness : Witness → Io (Session V) Transfer =
          λ w. exec_and_prove V platform (codes "transfer") w.inputs >>= of_proof w in
        let m =
          V.transfer_witness keys state.spendable.v state.spendable.r o.amount
            parties.to_account.viewing_key parties.aud_r parties.aud_s none none in
        let (w, hw, h1) = >>=-eq-ok (outside V m) of_witness s h in
        let s1 = (outside V m s).1 in
        let prove = exec_and_prove V platform (codes "transfer") w.inputs in
        let (proof, hq, h2) = >>=-eq-ok prove (of_proof w) s1 h1 in
        let s2 = (prove s1).1 in
        let (f, hf, h3) = >>=-eq-ok (lift (address_scval o.from)) (of_from w proof) s2 h2 in
        let (g, hg, h4) = >>=-eq-ok (lift (address_scval o.to)) (of_to w proof f) s2 h3 in
        let (d, hd, h5) =
          >>=-eq-ok (lift (encode_transfer w proof.bytes)) (of_data proof f g) s2 h4 in
        let (tx, ht, h6) = >>=-eq-ok (outside V (call f g d)) (back proof) s2 h5 in
        subst (IsSent o keys state parties) {x = made proof tx}
          (ok_injective {a = made proof tx} h6)
          (record {
            witness = w;
            proof = proof;
            from_arg = f;
            to_arg = g;
            data_arg = d;
            witness_built = (s.world, hw);
            witness_proved = (s1, hq);
            from_sender = hf;
            to_recipient = hg;
            proof_handed = hd;
            called = (s2.world, ht);
            amount_said = refl;
            balance_said = refl;
            auditor_said = refl;
            length_said = refl;
          })
