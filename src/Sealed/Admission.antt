-- ===== src/Sealed/Admission.antt =====
-- Which envelopes without a sender get into the queue.
use Prim.Native.String.{count}
use morok_relay.Prelude.{
  ℕ, ◌+◌, ◌≤◌, String, true, some, List, ltb, ◌==◌, ◌≡◌, ◌≢◌, arith, eq_iff, eq_refl, Bool-cases,
  Option-cases, inl, inr,
}
use morok_relay.Redis.{Redis}
use morok_relay.Exec.{World, ok}
use morok_relay.Sessions.Value.{Decimal}
use morok_relay.Dms.{Codec}
use morok_relay.Queue.Model.{Sha256}
use morok_relay.Federation.{Account, FedSettings}
use morok_relay.Federation.Events.{live_account}
use morok_relay.Sealed.{
  InboxToken, SealedEnvelopeIn, SealedAck, is_registered, revoke_inbox_token, admit_sealed,
  send_sealed_envelope,
}
use morok_relay.Sealed.Cap.{revoke-is_registered}

module _ ⦃R : Redis⦄ ⦃H : Sha256⦄ ⦃D : Decimal⦄ ⦃C : Codec⦄ (settings : FedSettings)
    (rate_limit : ℕ) where
  -- what the token of an envelope shows
  pub record IsInvited (body : SealedEnvelopeIn) (accounts : List Account)
      (tokens : List InboxToken) : Type 0 where
    pub recipient : String
    pub presented : String
    pub account : Account
    pub recipient_bytes : C.from_hex body.to ≡ some recipient
    pub hash : H.of_hex body.delivery_token ≡ some presented
    pub known : live_account recipient accounts ≡ some account
    pub is_local : (account.home_relay == settings.relay_name) ≡ true
    pub registered : is_registered recipient presented tokens ≡ true

  admit-IsInvited :
      (body : SealedEnvelopeIn) (accounts : List Account) (tokens : List InboxToken) (blob : String)
      (w : World) (r : SealedAck)
      → (admit_sealed settings rate_limit body accounts tokens blob w).0 ≡ ok r
      → IsInvited body accounts tokens
  unfolding admit_sealed
  admit-IsInvited body accounts tokens blob w r h = elim (Option-cases (C.from_hex body.to)) [
    | inl e ↦ absurd (ground arith)
    | inr (recipient, e) ↦ elim (Option-cases (live_account recipient accounts)) [
      | inl f ↦ absurd (ground arith)
      | inr (a, f) ↦ elim (Bool-cases (a.home_relay == settings.relay_name)) [
        | inr g ↦ absurd (ground arith)
        | inl g ↦ elim (Option-cases (H.of_hex body.delivery_token)) [
          | inl t ↦ absurd (ground arith)
          | inr (presented, t) ↦ elim (Bool-cases (is_registered recipient presented tokens)) [
            | inr q ↦ absurd (ground arith)
            | inl q ↦ record {
              recipient = recipient;
              presented = presented;
              account = a;
              recipient_bytes = e;
              hash = t;
              known = f;
              is_local = g;
              registered = q;
            }
          ]
        ]
      ]
    ]
  ]

  -- what the checks of an envelope show
  pub record IsAdmitted (now : ℕ) (body : SealedEnvelopeIn) (accounts : List Account)
      (tokens : List InboxToken) : Type 0 where
    pub blob : String
    pub blob_bytes : C.b64decode body.blob ≡ some blob
    pub small : count blob ≤ settings.max_blob_bytes
    pub not_old : now ≤ body.ts + 300
    pub not_future : body.ts ≤ now + 60
    pub invited : IsInvited body accounts tokens

  -- A sealed envelope is answered only if its timestamp is at most five minutes old and one minute
  -- ahead, its blob decodes and is not too large, its recipient is a user of this relay who is not
  -- deleted, and the hash of its token is registered for that user.
  pub send_sealed-IsAdmitted :
      (body : SealedEnvelopeIn) (accounts : List Account) (tokens : List InboxToken) (w : World)
      (r : SealedAck)
      → (send_sealed_envelope settings rate_limit body accounts tokens w).0 ≡ ok r
      → IsAdmitted w.now body accounts tokens
  unfolding send_sealed_envelope
  send_sealed-IsAdmitted body accounts tokens w r h =
      elim (Bool-cases (ltb (body.ts + 300) w.now)) [
        | inl old ↦ absurd (ground arith)
        | inr old ↦ elim (Bool-cases (ltb (w.now + 60) body.ts)) [
          | inl early ↦ absurd (ground arith)
          | inr early ↦ elim (Option-cases (C.b64decode body.blob)) [
            | inl e ↦ absurd (ground arith)
            | inr (blob, e) ↦ elim (Bool-cases (ltb settings.max_blob_bytes (count blob))) [
              | inl large ↦ absurd (ground arith)
              | inr small ↦ record {
                blob = blob;
                blob_bytes = e;
                small = ground arith;
                not_old = ground arith;
                not_future = ground arith;
                invited =
                    admit-IsInvited body accounts tokens blob w r
                      (simp (old, early, e, small) at h);
              }
            ]
          ]
        ]
      ]

  -- Once its recipient has revoked a token, no sealed envelope with it is answered.
  pub revoked_token_refused :
      (body : SealedEnvelopeIn) (accounts : List Account) (tokens : List InboxToken) (w : World)
      (recipient presented : String) (r : SealedAck)
      → C.from_hex body.to ≡ some recipient
      → H.of_hex body.delivery_token ≡ some presented
      → (send_sealed_envelope settings rate_limit body accounts
          (revoke_inbox_token recipient presented tokens)
          w).0
        ≢ ok r
  revoked_token_refused body accounts tokens w recipient presented r e f h =
      let admitted =
        send_sealed-IsAdmitted body accounts (revoke_inbox_token recipient presented tokens) w r
          h in
      let invited = admitted.invited in
      let same : invited.recipient ≡ recipient = ground (arith, invited.recipient_bytes) in
      let token : invited.presented ≡ presented = ground (arith, invited.hash) in
      let registered = invited.registered in
      ground (
        arith,
        eq_refl recipient,
        eq_refl presented,
        eq_iff recipient invited.recipient,
        eq_iff presented invited.presented,
        revoke-is_registered recipient presented invited.recipient invited.presented tokens,
      )
