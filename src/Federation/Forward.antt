-- ===== src/Federation/Forward.antt =====
-- api/federation.py: `_forward_impl`. The tables are arguments, and a handler gives the users as it
-- leaves them.
pub mod Admission
use Prim.Native.String.{◌++◌ as ◌+ˢ◌, count}
use morok_relay.Prelude.{
  ℕ, ◌+◌, String, Bool, true, false, not, ◌&&◌, ◌||◌, Option, none, some, List, [], ◌∷◌, ltb, eqb,
  ◌==◌, if◌then◌else◌,
}
use morok_relay.Prelude.Json
use morok_relay.Prelude.Json.{Json, Dict, str, int, lookup, truthy, contains, is_text}
use morok_relay.Redis.{Redis}
use morok_relay.Exec.{
  Exec, Exn, Outcome, ok, raised, http, pure, raise, raise_if, gets, ◌>>=◌, ◌>>◌,
}
use morok_relay.Sessions.Value.{Decimal}
use morok_relay.Dms.{Codec}
use morok_relay.Queue.Model.{Sha256, Envelope}
use morok_relay.Queue.Inbox.{envelope_exists}
use morok_relay.Queue.Enqueue.{write_blob_then_enqueue}
use morok_relay.Federation.{
  plain_message, Signer, FederationPeer, ForwardRequest, ForwardResponse, Account, FedSettings,
}
use morok_relay.Federation.Peers.{forwarding_peer}
use morok_relay.Federation.Envelopes.{
  Invalid, Fields, json_of, decoded, verify_envelope_signature, invalid_text,
}
use morok_relay.Federation.GroupEnvelopes.{check_group_envelope}
use morok_relay.Federation.Accounts.{account_of, cache_remote_user}
use morok_relay.Federation.Events.{
  int_of, text_field, text_value, accepted_because, handle_dm_delete_forward,
}
use morok_relay.Federation.Receipts.{handle_read_receipt}

-- where an envelope goes
pub data Route : Type 0 where
  group_snapshot dm_delete group_delete_to_host group_delete_deliver group_gone read_receipt
        group_message direct_message :
      Route

unfoldable pub route : Dict → Route
route envelope =
    if is_text (lookup "kind" envelope) "group_snapshot"
    then group_snapshot
    else if is_text (lookup "kind" envelope) "dm_delete"
    then dm_delete
    else if is_text (lookup "kind" envelope) "group_delete_to_host"
    then group_delete_to_host
    else if is_text (lookup "kind" envelope) "group_delete_deliver"
    then group_delete_deliver
    else if is_text (lookup "kind" envelope) "group_gone"
    then group_gone
    else if is_text (lookup "kind" envelope) "read_receipt"
    then read_receipt
    else if truthy (lookup "group_id" envelope)
    then group_message
    else direct_message

abbrev pub is_reachable : FedSettings → Option Account → Bool
is_reachable settings none = false
is_reachable settings (some a) =
    a.home_relay == settings.relay_name && elim a.deleted_at [ none ↦ true | some t ↦ false ]

-- the arguments of `write_blob_then_enqueue`
abbrev pub dm_envelope : FedSettings → String → Dict → Fields → Envelope
dm_envelope settings envelope_id envelope f = record {
  envelope_id = envelope_id;
  sender = text_value (json_of "from" envelope);
  recipient = text_value (json_of "to" envelope);
  timestamp = f.timestamp;
  ttl_seconds = f.ttl;
  signature = text_value (json_of "sig" envelope);
  hard_ceiling_seconds = settings.message_ttl_hard_seconds;
  sender_username = none;
  sealed = false;
  delete_key_hash = none;
  channel = none;
  mail_from = none;
  mail_origin = none;
  extra_meta = [];
}

module _ ⦃R : Redis⦄ ⦃H : Sha256⦄ ⦃D : Decimal⦄ ⦃C : Codec⦄ ⦃S : Signer⦄ (malformed : Dict → String)
    (settings : FedSettings) where
  abbrev pub Handled : Type 0
  Handled = ForwardResponse × List Account

  abbrev pub raise_invalid : Dict → Option Invalid → Exec (Unit {0})
  raise_invalid envelope none = pure tt
  raise_invalid envelope (some i) =
      raise (http 400 ("inner_envelope_invalid: " +ˢ invalid_text malformed envelope i))

  abbrev pub or_malformed : Option Fields → Exec Fields
  or_malformed none = raise (http 400 "malformed_recipient_in_envelope")
  or_malformed (some f) = pure f

  -- `MessageEnvelope.envelope_id`
  abbrev pub envelope_id_of : Fields → String
  envelope_id_of f =
      C.digest (f.sender ∷ f.recipient ∷ C.to_bytes f.timestamp ∷ C.digest (f.blob ∷ []) ∷ [])

  abbrev pub persist_unless :
      FederationPeer → Dict → Fields → String → List Account → Bool → Exec Handled
  persist_unless peer envelope f envelope_id accounts true =
      pure (accepted_because envelope_id "duplicate_already_queued", accounts)
  persist_unless peer envelope f envelope_id accounts false = do
    write_blob_then_enqueue (dm_envelope settings envelope_id envelope f) f.blob
    pure (
      record { accepted = true; envelope_id = envelope_id; reason = none },
      cache_remote_user settings f.sender (text_field "from_username" envelope) peer.hostname
          accounts,
    )

  -- the path of a direct message; the push notification is left out
  unfoldable pub forward_dm : FederationPeer → Dict → List Account → Exec Handled
  unfolding verify_envelope_signature decoded account_of cache_remote_user
  forward_dm peer envelope accounts = do
    now ← gets (λ w. w.now)
    raise_invalid envelope (verify_envelope_signature now envelope)
    f ← or_malformed (decoded envelope)
    raise_if (not (is_reachable settings (account_of f.recipient accounts)))
        (http 404 "recipient_not_on_this_relay")
    raise_if (ltb settings.max_blob_bytes (count f.blob)) (http 413 "blob_too_large")
    known ← envelope_exists (envelope_id_of f)
    persist_unless peer envelope f (envelope_id_of f) accounts known

  abbrev pub unchanged : List Account → Exec ForwardResponse → Exec Handled
  unchanged accounts m = m >>= λ r. pure (r, accounts)

  -- `groups` stands for the handlers of the group kinds.
  unfoldable pub dispatch :
      (Route → FederationPeer → Dict → List Account → Exec Handled)
      → FederationPeer
      → Dict
      → List Account
      → Route
      → Exec Handled
  unfolding forward_dm check_group_envelope
  dispatch groups peer envelope accounts dm_delete =
      unchanged accounts (handle_dm_delete_forward envelope)
  dispatch groups peer envelope accounts read_receipt =
      unchanged accounts (handle_read_receipt settings accounts envelope)
  dispatch groups peer envelope accounts direct_message = forward_dm peer envelope accounts
  dispatch groups peer envelope accounts group_snapshot =
      groups group_snapshot peer envelope accounts
  dispatch groups peer envelope accounts group_delete_to_host =
      groups group_delete_to_host peer envelope accounts
  dispatch groups peer envelope accounts group_delete_deliver =
      groups group_delete_deliver peer envelope accounts
  dispatch groups peer envelope accounts group_gone = groups group_gone peer envelope accounts
  dispatch groups peer envelope accounts group_message =
      check_group_envelope malformed envelope >>= λ _. groups group_message peer envelope accounts

  abbrev pub or_refused : Outcome FederationPeer → Exec FederationPeer
  or_refused (ok peer) = pure peer
  or_refused (raised e) = raise e

  unfoldable pub forward_impl :
      (Route → FederationPeer → Dict → List Account → Exec Handled)
      → ForwardRequest
      → List FederationPeer
      → List Account
      → Exec Handled
  unfolding forwarding_peer route dispatch
  forward_impl groups body peers accounts = do
    now ← gets (λ w. w.now)
    peer ← or_refused (forwarding_peer now body peers)
    dispatch groups peer body.envelope accounts (route body.envelope)
