-- ===== src/Messages/Send.antt =====
-- api/messages.py: `send_envelope`.

pub mod Routing
use Prim.Native.String.{◌++◌ as ◌+ˢ◌, count}
use morok_relay.Prelude.{
  ℕ, ◌+◌, String, Bool, true, false, not, Option, none, some, List, [], ◌∷◌, min, ltb, ◌==◌,
  if◌then◌else◌,
}
use morok_relay.Prelude.Json.{Dict, str, int, or_null}
use morok_relay.Redis.{Redis}
use morok_relay.Exec.{Exec, http, value_error, pure, raise, raise_if, gets, ◌>>=◌, ◌>>◌}
use morok_relay.Sessions.Value.{Decimal}
use morok_relay.Dms.{Codec}
use morok_relay.Queue.Model.{Sha256, Envelope}
use morok_relay.Queue.Inbox.{envelope_exists}
use morok_relay.Queue.Enqueue.{write_blob_then_enqueue}
use morok_relay.Federation.{plain_message, Signer, Outbound, Account, FedSettings}
use morok_relay.Federation.Events.{live_account}
use morok_relay.Messages.{new_row, has_envelope}

-- a body that the schema has checked
pub record EnvelopeIn : Type 0 where
  pub from : String
  pub to : String
  pub ts : ℕ
  pub ttl : ℕ
  pub blob : String
  pub sig : String

pub record EnvelopeAck : Type 0 where
  pub envelope_id : String
  pub queued : Bool
  pub expires_at : ℕ

abbrev pub unsigned : EnvelopeIn → Dict
unsigned body =
    ("from", str body.from)
    ∷ ("to", str body.to)
    ∷ ("ts", int body.ts)
    ∷ ("ttl", int body.ttl)
    ∷ ("blob", str body.blob)
    ∷ []

-- what is sent to another relay
abbrev pub envelope_dict : EnvelopeIn → Option String → Dict
envelope_dict body sender_username =
    ("from", str body.from)
    ∷ ("to", str body.to)
    ∷ ("ts", int body.ts)
    ∷ ("ttl", int body.ttl)
    ∷ ("blob", str body.blob)
    ∷ ("sig", str body.sig)
    ∷ ("from_username", or_null sender_username)
    ∷ []

abbrev pub username_of : Option Account → Option String
username_of none = none
username_of (some a) = a.username

abbrev pub duplicate : String → EnvelopeAck
duplicate envelope_id = record { envelope_id = envelope_id; queued = false; expires_at = 0 }

abbrev pub ack : String → Option ℕ → EnvelopeAck
ack envelope_id none = duplicate envelope_id
ack envelope_id (some t) = record { envelope_id = envelope_id; queued = true; expires_at = t }

module _ ⦃R : Redis⦄ where
  abbrev pub or_bad : String → Option String → Exec String
  or_bad detail none = raise (http 400 detail)
  or_bad detail (some s) = pure s

  abbrev pub or_value_error : Option String → Exec String
  or_value_error none = raise value_error
  or_value_error (some s) = pure s

  abbrev pub or_unknown : Option Account → Exec Account
  or_unknown none = raise (http 404 "recipient_unknown_call_lookup_first")
  or_unknown (some a) = pure a

module _ ⦃R : Redis⦄ ⦃H : Sha256⦄ ⦃D : Decimal⦄ ⦃C : Codec⦄ ⦃S : Signer⦄
    (settings : FedSettings) where
  abbrev pub Sent : Type 0
  Sent = EnvelopeAck × List Outbound

  abbrev pub local_envelope : String → EnvelopeIn → Option String → Envelope
  local_envelope envelope_id body sender_username = record {
    envelope_id = envelope_id;
    sender = body.from;
    recipient = body.to;
    timestamp = body.ts;
    ttl_seconds = body.ttl;
    signature = body.sig;
    hard_ceiling_seconds = settings.message_ttl_hard_seconds;
    sender_username = sender_username;
    sealed = false;
    delete_key_hash = none;
    channel = none;
    mail_from = none;
    mail_origin = none;
    extra_meta = [];
  }

  abbrev pub deliver_unless :
      EnvelopeIn → String → Option String → String → List Outbound → Bool → Exec Sent
  deliver_unless body blob sender_username envelope_id rows true =
      pure (duplicate envelope_id, rows)
  deliver_unless body blob sender_username envelope_id rows false = do
    expires_at ← write_blob_then_enqueue (local_envelope envelope_id body sender_username) blob
    pure (ack envelope_id expires_at, rows)

  -- the delivery on this relay; the push notification is left out
  unfoldable pub deliver : EnvelopeIn → String → Option String → String → List Outbound → Exec Sent
  deliver body blob sender_username envelope_id rows = do
    known ← envelope_exists envelope_id
    deliver_unless body blob sender_username envelope_id rows known

  -- the delivery over another relay
  unfoldable pub federate :
      String → ℕ → EnvelopeIn → Option String → String → String → List Outbound → Sent
  unfolding has_envelope
  federate id now body sender_username envelope_id home_relay rows =
      if has_envelope envelope_id rows then (duplicate envelope_id, rows) else (
        record {
          envelope_id = envelope_id;
          queued = true;
          expires_at = min (body.ts + body.ttl) (now + settings.message_ttl_hard_seconds);
        },
        new_row id envelope_id (envelope_dict body sender_username) home_relay now ∷ rows,
      )

  abbrev pub deliver_to :
      String
      → ℕ
      → EnvelopeIn
      → String
      → Option String
      → String
      → List Outbound
      → Account
      → Exec Sent
  deliver_to id now body blob sender_username envelope_id rows recipient =
      if recipient.home_relay == settings.relay_name
      then deliver body blob sender_username envelope_id rows
      else pure (federate id now body sender_username envelope_id recipient.home_relay rows)

  abbrev pub id_of : String → String → ℕ → String → String
  id_of sender recipient ts blob =
      C.digest (sender ∷ recipient ∷ C.to_bytes ts ∷ C.digest (blob ∷ []) ∷ [])

  -- what follows the checks of the signature, the time and the blob
  unfoldable pub route_envelope :
      String → ℕ → EnvelopeIn → String → String → String → List Account → List Outbound → Exec Sent
  unfolding live_account deliver federate
  route_envelope id now body sender recipient blob accounts rows = do
    found ← or_unknown (live_account recipient accounts)
    deliver_to id now body blob (username_of (live_account sender accounts))
        (id_of sender recipient body.ts blob) rows found

  -- what follows the check of the signature
  unfoldable pub accept_signed :
      String → EnvelopeIn → String → String → List Account → List Outbound → Exec Sent
  unfolding route_envelope
  accept_signed id body sender recipient accounts rows = do
    now ← gets (λ w. w.now)
    raise_if (ltb (body.ts + 300) now) (http 400 "envelope_too_old")
    raise_if (ltb (now + 60) body.ts) (http 400 "envelope_from_the_future")
    blob ← or_bad "blob_not_base64" (C.b64decode body.blob)
    raise_if (ltb settings.max_blob_bytes (count blob))
        (http 413 ("blob_too_large_max_" +ˢ (D.show settings.max_blob_bytes +ˢ "_bytes")))
    route_envelope id now body sender recipient blob accounts rows

  -- `current` is the key of the session in hex, `id` the identifier of a new row.
  unfoldable pub send_envelope :
      String → String → EnvelopeIn → List Account → List Outbound → Exec Sent
  unfolding accept_signed
  send_envelope id current body accounts rows = do
    raise_if (not (body.from == current)) (http 403 "from_field_must_match_authenticated_pubkey")
    sender ← or_value_error (C.from_hex current)
    recipient ← or_value_error (C.from_hex body.to)
    signature ← or_bad "malformed_sig_hex" (C.from_hex body.sig)
    raise_if (not (S.verify (plain_message (unsigned body)) signature sender))
        (http 400 "signature_invalid")
    accept_signed id body sender recipient accounts rows
