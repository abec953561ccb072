-- ===== src/Scripts/Receipt/Located.antt =====
-- What make-receipt.mjs takes from the chain: lines 86-111.
use raiz_confidential_stack.Scripts.Retry.{never, retry_unless}
use raiz_confidential_stack.Scripts.Retry.Returned.{retry_unless-returned}
use raiz_confidential_stack.Scripts.Receipt.Protocol.{Listed}
use raiz_confidential_stack.Prelude.{
  ◌==◌, ==_iff, inl, ◌&&◌, Bool-cases, ok_injective, Option, none, List, Said, err, inr, ℕ, Text,
  codes, same_text, true, false, some, [], ◌∷◌, ok, Error, Io, lift, >>=-eq-ok, ◌≡◌, refl, ap, ◌∙◌,
  inl,
}
use mathlib.Core.Path.{subst}
use raiz_confidential_stack.Vendor.{Vendor, Account, Place, Event, transfer}
use raiz_confidential_stack.Scripts.Receipt.{
  owns_transfer, find_transfer, Disclosure, Deployment, Sent, locate, recipient_key,
}

pair_eq : {a b c d : ℕ} → a ≡ c → b ≡ d → ◌≡◌ {A = ℕ × ℕ} (a, b) (c, d)
pair_eq h k = cc

module _ (V : Vendor) (D : Disclosure V) (wait : ℕ → V.World → V.World) where
  open V use {World}

  -- The transfer that is found is on the list, and of the transaction.
  pub record IsFound (tx : Text) (events : List (Event V.Cipher)) (sent : Sent V D wait)
      : Type 0 where
    pub at : Place
    pub listed : Listed (transfer at sent.from sent.to sent.cipher) events
    pub of_tx : same_text at.tx_hash tx ≡ true

  further_IsFound :
      {tx : Text} {events : List (Event V.Cipher)} {sent : Sent V D wait} (ev : Event V.Cipher)
      → IsFound tx events sent
      → IsFound tx (ev ∷ events) sent
  further_IsFound ev f = record { at = f.at; listed = Listed.further f.listed; of_tx = f.of_tx }

  pub find_transfer-IsFound :
      (tx : Text) (events : List (Event V.Cipher)) (sent : Sent V D wait)
      → find_transfer V D wait tx events ≡ some sent
      → IsFound tx events sent
  unfolding find_transfer
  find_transfer-IsFound tx [] sent h = cc h
  find_transfer-IsFound tx (transfer at from to c ∷ events) sent h =
      elim (Bool-cases (same_text at.tx_hash tx)) [
        | inl e ↦
            (let same : record { from = from; to = to; cipher = c } ≡ sent = first e in
              subst (IsFound tx (transfer at from to c ∷ events)) same
                (record { at = at; listed = Listed.here; of_tx = e }))
        | inr e ↦
            further_IsFound (transfer at from to c) (find_transfer-IsFound tx events sent (next e))
      ]
    where
      first :
          same_text at.tx_hash tx ≡ true
          → ◌≡◌ {A = Sent V D wait} (record { from = from; to = to; cipher = c }) sent
      first e = cc (rw e at h)

      next : same_text at.tx_hash tx ≡ false → find_transfer V D wait tx events ≡ some sent
      next e = rw e at h
  find_transfer-IsFound tx (Event.deposit at from to amount ∷ events) sent h =
      further_IsFound _ (find_transfer-IsFound tx events sent h)
  find_transfer-IsFound tx (Event.withdraw at from to amount c ∷ events) sent h =
      further_IsFound _ (find_transfer-IsFound tx events sent h)
  find_transfer-IsFound tx (Event.merge at account ∷ events) sent h =
      further_IsFound _ (find_transfer-IsFound tx events sent h)
  find_transfer-IsFound tx (Event.other at kind ∷ events) sent h =
      further_IsFound _ (find_transfer-IsFound tx events sent h)

  -- The list that the transfer was found on, as one of the readings gave it.
  pub record IsLocated (dep : Deployment) (tx : Text) (sent : Sent V D wait) : Type 0 where
    pub events : List (Event V.Cipher)
    pub last : ℕ
    pub fetched : Said (V.fetch_events dep.client dep.deployed_at dep.client.token) (events, last)
    pub found : IsFound tx events sent

  found_or-eq-ok :
      (o : Option (Sent V D wait)) (sent : Sent V D wait)
      → (elim o [ none ↦ err Error.no_events | some s ↦ ok s ]) ≡ ok sent
      → o ≡ some sent
  found_or-eq-ok none sent h = cc h
  found_or-eq-ok (some s) sent h = ap some (ok_injective h)

  pub locate-IsLocated :
      (dep : Deployment) (tx : Text) (sent : Sent V D wait) (w : World)
      → (locate V D wait dep tx w).0 ≡ ok sent
      → IsLocated dep tx sent
  unfolding locate
  locate-IsLocated dep tx sent w h =
      let fetch = V.fetch_events dep.client dep.deployed_at dep.client.token in
      let find : List (Event V.Cipher) × ℕ → Io World (Sent V D wait) = λ (events, last).
        lift (elim (find_transfer V D wait tx events) [
          | none ↦ err Error.no_events
          | some s ↦ ok s
        ]) in
      let ((events, last), h1, h2) =
        >>=-eq-ok (retry_unless wait never (codes "fetchEvents") 3 3000 fetch) find w h in
      record {
        events = events;
        last = last;
        fetched =
            retry_unless-returned wait never (codes "fetchEvents") 3 3000 fetch (events, last) w h1;
        found = find_transfer-IsFound tx events sent (found_or-eq-ok _ sent h2);
      }

  key_or-eq-ok :
      (o : Option (Account V.Point)) (e : Error) (key : V.Point)
      → (elim o [ none ↦ err e | some a ↦ ok a.viewing_key ]) ≡ ok key
      → (a : Account V.Point) × (o ≡ some a) × (a.viewing_key ≡ key)
  key_or-eq-ok none e key h = cc h
  key_or-eq-ok (some a) e key h = (a, refl, ok_injective h)

  pub recipient_key-Said :
      (dep : Deployment) (sent : Sent V D wait) (key : V.Point) (w : World)
      → (recipient_key V D wait dep sent w).0 ≡ ok key
      → (a : Account V.Point) × Said (V.confidential_balance dep.client sent.to) (some a)
        × (a.viewing_key ≡ key)
  unfolding recipient_key
  recipient_key-Said dep sent key w h =
      let read = V.confidential_balance dep.client sent.to in
      let label = codes "confidentialBalance(goal)" in
      let of_found : Option (Account V.Point) → Io World V.Point = λ found. lift (elim found [
        | none ↦ err (Error.recipient_not_registered sent.to)
        | some a ↦ ok a.viewing_key
      ]) in
      let (found, h1, h2) = >>=-eq-ok (retry_unless wait never label 3 3000 read) of_found w h in
      let (a, same, its_key) = key_or-eq-ok found _ key h2 in
      let (v, said) = retry_unless-returned wait never label 3 3000 read found w h1 in
      (a, (v, said ∙ ap ok same), its_key)

  pub owns_transfer-coords :
      (keys : V.Keys) (sent : Sent V D wait)
      → owns_transfer V D wait keys sent ≡ true
      → V.coords (D.times_base (D.ephemeral keys sent.cipher))
        ≡ V.coords (D.ephemeral_point sent.cipher)
  unfolding owns_transfer
  owns_transfer-coords keys sent h =
      both (V.coords (D.times_base (D.ephemeral keys sent.cipher)))
        (V.coords (D.ephemeral_point sent.cipher)) h
    where
      both : (p q : ℕ × ℕ) → ((p.0 == q.0) && (p.1 == q.1)) ≡ true → p ≡ q
      both (a, b) (c, d) h = elim (Bool-cases (a == c)) [
        | inl e ↦
            (let f : (b == d) ≡ true = rw e at h in pair_eq ((==_iff a c).0 e) ((==_iff b d).0 f))
        | inr e ↦ cc (rw e at h)
      ]
