-- ===== src/Federation/Forward/Admission.antt =====
-- What has been checked of an envelope that another relay has forwarded.
use Prim.Native.String.{count}
use morok_relay.Prelude.{
  ℕ, ◌≤◌, String, true, List, ltb, ◌≡◌, refl, arith, Bool-cases, Option-cases, inl, inr,
}
use morok_relay.Prelude.Json.{Dict}
use morok_relay.Redis.{Redis}
use morok_relay.Exec.{World, Exec, Outcome, ok, raised, ◌>>=◌}
use morok_relay.Exec.Yields.{first_returned}
use morok_relay.Sessions.Value.{Decimal}
use morok_relay.Dms.{Codec}
use morok_relay.Queue.Model.{Sha256}
use morok_relay.Federation.{Signer, FederationPeer, ForwardRequest, Account, FedSettings}
use morok_relay.Federation.Peers.{forwarding_peer}
use morok_relay.Federation.Peers.Forwarding.{IsForwarder, forwarding_peer-IsForwarder}
use morok_relay.Federation.Envelopes.{Fields, verify_envelope_signature}
use morok_relay.Federation.Envelopes.Valid.{IsValid, verify_envelope-IsValid}
use morok_relay.Federation.GroupEnvelopes.{check_group_envelope}
use morok_relay.Federation.GroupEnvelopes.Signed.{IsGroupSigned, check_group_envelope-IsGroupSigned}
use morok_relay.Federation.Accounts.{account_of}
use morok_relay.Federation.Forward.{
  Route, direct_message, group_message, group_snapshot, dm_delete, group_delete_to_host,
  group_delete_deliver, group_gone, read_receipt, route, is_reachable, Handled, forward_dm,
  dispatch, or_refused, forward_impl,
}

module _ ⦃R : Redis⦄ ⦃H : Sha256⦄ ⦃D : Decimal⦄ ⦃C : Codec⦄ ⦃S : Signer⦄ (malformed : Dict → String)
    (settings : FedSettings) where
  -- what the checks of a direct message show
  pub record IsDeliverable (now : ℕ) (envelope : Dict) (accounts : List Account) : Type 0 where
    pub fields : Fields
    pub valid : IsValid now envelope fields
    pub is_local : is_reachable settings (account_of fields.recipient accounts) ≡ true
    pub small : count fields.blob ≤ settings.max_blob_bytes

  forward_dm-IsDeliverable :
      (peer : FederationPeer) (envelope : Dict) (accounts : List Account) (w : World)
      (r : Handled malformed settings)
      → (forward_dm malformed settings peer envelope accounts w).0 ≡ ok r
      → IsDeliverable w.now envelope accounts
  unfolding forward_dm
  forward_dm-IsDeliverable peer envelope accounts w r h =
      elim (Option-cases (verify_envelope_signature w.now envelope)) [
        | inr (i, e) ↦ absurd (ground arith)
        | inl e ↦
            let (f, valid) = (verify_envelope-IsValid w.now envelope).0 e in
            let read = valid.reads in
            elim (Bool-cases (is_reachable settings (account_of f.recipient accounts))) [
              | inr away ↦ absurd (ground arith)
              | inl here ↦ elim (Bool-cases (ltb settings.max_blob_bytes (count f.blob))) [
                | inl large ↦ absurd (ground arith)
                | inr small ↦ record {
                  fields = f;
                  valid = valid;
                  is_local = here;
                  small = ground arith;
                }
              ]
            ]
      ]

  forward_group-IsGroupSigned :
      (envelope : Dict) (w : World) (handler : Exec (Handled malformed settings))
      (r : Handled malformed settings)
      → ((check_group_envelope malformed envelope >>= λ _. handler) w).0 ≡ ok r
      → IsGroupSigned malformed w.now envelope
  forward_group-IsGroupSigned envelope w handler r h =
      check_group_envelope-IsGroupSigned malformed envelope w
        (first_returned (check_group_envelope malformed envelope) (λ _. handler) w r h).1

  -- what has been checked of an envelope, by the way that it goes
  pub IsChecked : Route → ℕ → Dict → List Account → Type 0
  IsChecked direct_message now envelope accounts = IsDeliverable now envelope accounts
  IsChecked group_message now envelope accounts = IsGroupSigned malformed now envelope
  IsChecked _ now envelope accounts = Unit {0}

  dispatch-IsChecked :
      (groups : Route → FederationPeer → Dict → List Account → Exec (Handled malformed settings))
      (peer : FederationPeer) (envelope : Dict) (accounts : List Account) (w : World)
      (r : Handled malformed settings) (way : Route)
      → (dispatch malformed settings groups peer envelope accounts way w).0 ≡ ok r
      → IsChecked way w.now envelope accounts
  unfolding dispatch IsChecked
  dispatch-IsChecked groups peer envelope accounts w r direct_message h =
      forward_dm-IsDeliverable peer envelope accounts w r h
  dispatch-IsChecked groups peer envelope accounts w r group_message h =
      forward_group-IsGroupSigned envelope w (groups group_message peer envelope accounts) r h
  dispatch-IsChecked groups peer envelope accounts w r group_snapshot h = tt
  dispatch-IsChecked groups peer envelope accounts w r dm_delete h = tt
  dispatch-IsChecked groups peer envelope accounts w r group_delete_to_host h = tt
  dispatch-IsChecked groups peer envelope accounts w r group_delete_deliver h = tt
  dispatch-IsChecked groups peer envelope accounts w r group_gone h = tt
  dispatch-IsChecked groups peer envelope accounts w r read_receipt h = tt

  -- what has been checked of a forward
  pub record IsAdmitted (now : ℕ) (body : ForwardRequest) (peers : List FederationPeer)
      (accounts : List Account) : Type 0 where
    pub peer : FederationPeer
    pub forwarder : IsForwarder now body peers peer
    pub checked : IsChecked (route body.envelope) now body.envelope accounts

  admitted :
      (groups : Route → FederationPeer → Dict → List Account → Exec (Handled malformed settings))
      (body : ForwardRequest) (peers : List FederationPeer) (accounts : List Account) (w : World)
      (r : Handled malformed settings) (found : Outcome FederationPeer)
      → forwarding_peer w.now body peers ≡ found
      → ((or_refused malformed settings found >>= λ peer.
            dispatch malformed settings groups peer body.envelope accounts (route body.envelope))
          w).0
        ≡ ok r
      → IsAdmitted w.now body peers accounts
  admitted groups body peers accounts w r (ok peer) e h = record {
    peer = peer;
    forwarder = forwarding_peer-IsForwarder w.now body peers peer e;
    checked = dispatch-IsChecked groups peer body.envelope accounts w r (route body.envelope) h;
  }
  admitted groups body peers accounts w r (raised x) e h = ground arith

  -- If the relay answers a forward, then a trusted peer has signed it, of late. If it is a message,
  -- its sender has signed the envelope, of late too; and if it is a direct one, the recipient is a
  -- user of this relay who is not deleted, and the blob is not too large. This holds whatever the
  -- handlers of the group kinds do.
  pub forward_impl-IsAdmitted :
      (groups : Route → FederationPeer → Dict → List Account → Exec (Handled malformed settings))
      (body : ForwardRequest) (peers : List FederationPeer) (accounts : List Account) (w : World)
      (r : Handled malformed settings)
      → (forward_impl malformed settings groups body peers accounts w).0 ≡ ok r
      → IsAdmitted w.now body peers accounts
  unfolding forward_impl
  forward_impl-IsAdmitted groups body peers accounts w r h =
      admitted groups body peers accounts w r (forwarding_peer w.now body peers) refl h
