-- ===== src/Messages/Send/Routing.antt =====
-- Where an envelope goes, and what has been checked of it.
use Prim.Native.String.{count}
use morok_relay.Prelude.{
  ℕ, ◌+◌, ◌≤◌, String, Bool, true, false, Option, some, List, ltb, ◌==◌, ◌≡◌, refl, ap, arith,
  eq_iff, Bool-cases, Option-cases, inl, inr,
}
use morok_relay.Redis.{Redis}
use morok_relay.Exec.{World, ok, pure}
use morok_relay.Exec.Yields.{Yields, Yields-bind, Yields-pure}
use morok_relay.Sessions.Value.{Decimal}
use morok_relay.Dms.{Codec}
use morok_relay.Queue.Model.{Sha256}
use morok_relay.Queue.Inbox.{envelope_exists}
use morok_relay.Queue.Enqueue.{write_blob_then_enqueue}
use morok_relay.Federation.{plain_message, Signer, Outbound, Account, FedSettings}
use morok_relay.Federation.Events.{live_account}
use morok_relay.Federation.Worker.Pass.{AllSound}
use morok_relay.Messages.{has_envelope}
use morok_relay.Messages.Send.{
  EnvelopeIn, EnvelopeAck, unsigned, username_of, Sent, deliver, deliver_unless, deliver_to,
  federate, id_of, local_envelope, ack, route_envelope, accept_signed, send_envelope,
}

module _ ⦃R : Redis⦄ ⦃H : Sha256⦄ ⦃D : Decimal⦄ ⦃C : Codec⦄ ⦃S : Signer⦄
    (settings : FedSettings) where
  -- where an envelope to `account` goes: into the queue here, or into a row for the other relay,
  -- with nothing done here
  abbrev pub Routed :
      String
      → ℕ
      → EnvelopeIn
      → String
      → String
      → List Account
      → List Outbound
      → World
      → Account
      → Sent settings × World
      → Type 0
  Routed id now body sender envelope_id accounts rows w account ((answer, rows'), w') =
      ((account.home_relay == settings.relay_name) ≡ true → rows' ≡ rows)
      × ((account.home_relay == settings.relay_name) ≡ false
          → ((answer, rows')
              ≡ federate settings id now body (username_of (live_account sender accounts))
                  envelope_id account.home_relay rows)
            × (w' ≡ w))

  unless_rows :
      (body : EnvelopeIn) (blob : String) (username : Option String) (envelope_id : String)
      (rows : List Outbound) (known : Bool)
      → Yields
          (λ (r : Sent settings). r.1 ≡ rows)
          (deliver_unless settings body blob username envelope_id rows known)
  unless_rows body blob username envelope_id rows true = Yields-pure _ refl
  unless_rows body blob username envelope_id rows false =
      Yields-bind {P = λ _. Unit {0}}
        (write_blob_then_enqueue (local_envelope settings envelope_id body username) blob)
        (λ t. pure (ack envelope_id t, rows)) (record { yields = λ _ _ _. tt })
        (λ t _. Yields-pure _ refl)

  deliver_rows :
      (body : EnvelopeIn) (blob : String) (username : Option String) (envelope_id : String)
      (rows : List Outbound)
      → Yields
          (λ (r : Sent settings). r.1 ≡ rows)
          (deliver settings body blob username envelope_id rows)
  unfolding deliver
  deliver_rows body blob username envelope_id rows =
      Yields-bind {P = λ _. Unit {0}} (envelope_exists envelope_id)
        (deliver_unless settings body blob username envelope_id rows)
        (record { yields = λ _ _ _. tt })
        (λ known _. unless_rows body blob username envelope_id rows known)

  deliver_to-Routed :
      (id : String) (body : EnvelopeIn) (blob sender envelope_id : String) (accounts : List Account)
      (rows rows' : List Outbound) (w w' : World) (account : Account) (answer : EnvelopeAck)
      → deliver_to settings id w.now body blob
          (username_of (live_account sender accounts))
          envelope_id
          rows
          account
          w
        ≡ (ok (answer, rows'), w')
      → Routed id w.now body sender envelope_id accounts rows w account ((answer, rows'), w')
  deliver_to-Routed id body blob sender envelope_id accounts rows rows' w w' account answer h = (
    λ here.
        let kept =
          deliver_rows body blob (username_of (live_account sender accounts)) envelope_id rows in
        kept.yields w (answer, rows') (ap (λ p. p.0) (simp here at h)),
    λ away. let e = simp away at h in (cc, cc),
  )

  -- what the checks after the signature show, and where the envelope went
  pub record IsAccepted (id : String) (body : EnvelopeIn) (sender recipient : String)
      (accounts : List Account) (rows : List Outbound) (w : World) (answer : Sent settings × World)
      : Type 0 where
    pub blob : String
    pub account : Account
    pub not_old : w.now ≤ body.ts + 300
    pub not_future : body.ts ≤ w.now + 60
    pub blob_bytes : C.b64decode body.blob ≡ some blob
    pub small : count blob ≤ settings.max_blob_bytes
    pub known : live_account recipient accounts ≡ some account
    pub routed :
        Routed id w.now body sender
          (id_of settings sender recipient body.ts blob)
          accounts
          rows
          w
          account
          answer

  accept-IsAccepted :
      (id : String) (body : EnvelopeIn) (sender recipient : String) (accounts : List Account)
      (rows rows' : List Outbound) (w w' : World) (answer : EnvelopeAck)
      → accept_signed settings id body sender recipient accounts rows w ≡ (ok (answer, rows'), w')
      → IsAccepted id body sender recipient accounts rows w ((answer, rows'), w')
  unfolding accept_signed route_envelope
  accept-IsAccepted id body sender recipient accounts rows rows' w w' answer h =
      elim (Bool-cases (ltb (body.ts + 300) w.now)) [
        | inl old ↦ absurd (ground arith)
        | inr old ↦ elim (Bool-cases (ltb (w.now + 60) body.ts)) [
          | inl early ↦ absurd (ground arith)
          | inr early ↦ elim (Option-cases (C.b64decode body.blob)) [
            | inl b ↦ absurd (ground arith)
            | inr (blob, b) ↦ elim (Bool-cases (ltb settings.max_blob_bytes (count blob))) [
              | inl large ↦ absurd (ground arith)
              | inr small ↦ elim (Option-cases (live_account recipient accounts)) [
                | inl k ↦ absurd (ground arith)
                | inr (account, k) ↦ record {
                  blob = blob;
                  account = account;
                  not_old = ground arith;
                  not_future = ground arith;
                  blob_bytes = b;
                  small = ground arith;
                  known = k;
                  routed =
                      deliver_to-Routed id body blob sender
                        (id_of settings sender recipient body.ts blob) accounts rows rows' w w'
                        account answer (simp (old, early, b, small, k) at h);
                }
              ]
            ]
          ]
        ]
      ]

  -- what the checks of an envelope show
  pub record IsSent (id current : String) (body : EnvelopeIn) (accounts : List Account)
      (rows : List Outbound) (w : World) (answer : Sent settings × World) : Type 0 where
    pub own : body.from ≡ current
    pub sender : String
    pub recipient : String
    pub signature : String
    pub sender_bytes : C.from_hex current ≡ some sender
    pub recipient_bytes : C.from_hex body.to ≡ some recipient
    pub signature_bytes : C.from_hex body.sig ≡ some signature
    pub signed : S.verify (plain_message (unsigned body)) signature sender ≡ true
    pub accepted : IsAccepted id body sender recipient accounts rows w answer

  -- An envelope is answered only if its sender is the one of the session and has signed it, it is at
  -- most five minutes old and one minute ahead, its blob decodes and is not too large, and its
  -- recipient is known. If the recipient's home is this relay, no row for other relays changes;
  -- otherwise nothing but these rows does, and they change as `federate` says.
  pub send_envelope-IsSent :
      (id current : String) (body : EnvelopeIn) (accounts : List Account)
      (rows rows' : List Outbound) (w w' : World) (answer : EnvelopeAck)
      → send_envelope settings id current body accounts rows w ≡ (ok (answer, rows'), w')
      → IsSent id current body accounts rows w ((answer, rows'), w')
  unfolding send_envelope
  send_envelope-IsSent id current body accounts rows rows' w w' answer h =
      elim (Bool-cases (body.from == current)) [
        | inr own ↦ absurd (ground arith)
        | inl own ↦ elim (Option-cases (C.from_hex current)) [
          | inl s ↦ absurd (ground arith)
          | inr (sender, s) ↦ elim (Option-cases (C.from_hex body.to)) [
            | inl t ↦ absurd (ground arith)
            | inr (recipient, t) ↦ elim (Option-cases (C.from_hex body.sig)) [
              | inl g ↦ absurd (ground arith)
              | inr (sig, g) ↦
                  elim (Bool-cases (S.verify (plain_message (unsigned body)) sig sender)) [
                    | inr v ↦ absurd (ground arith)
                    | inl v ↦ record {
                      own = (eq_iff body.from current).0 own;
                      sender = sender;
                      recipient = recipient;
                      signature = sig;
                      sender_bytes = s;
                      recipient_bytes = t;
                      signature_bytes = g;
                      signed = v;
                      accepted =
                          accept-IsAccepted id body sender recipient accounts rows rows' w w' answer
                            (simp (own, s, t, g, v) at h);
                    }
                  ]
            ]
          ]
        ]
      ]

  -- Sending an envelope keeps every row for other relays sound.
  pub send_envelope-AllSound :
      (id current : String) (body : EnvelopeIn) (accounts : List Account)
      (rows rows' : List Outbound) (w w' : World) (answer : EnvelopeAck)
      → send_envelope settings id current body accounts rows w ≡ (ok (answer, rows'), w')
      → AllSound rows
      → AllSound rows'
  unfolding federate
  send_envelope-AllSound id current body accounts rows rows' w w' answer h sound =
      let sent = send_envelope-IsSent id current body accounts rows rows' w w' answer h in
      let took = sent.accepted in
      let (here, away) = took.routed in
      elim (Bool-cases (took.account.home_relay == settings.relay_name)) [
        | inl e ↦ rw (here e) sound
        | inr e ↦
            let made = ap (λ r. r.1) ((away e).0) in
            elim (Bool-cases
              (has_envelope (id_of settings sent.sender sent.recipient body.ts took.blob) rows)) [
                | inl d ↦ rw made (simp d sound)
                | inr d ↦ rw made (simp d (omega arith, sound))
              ]
      ]
