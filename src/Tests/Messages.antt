-- ===== src/Tests/Messages.antt =====
-- The endpoints of messages at concrete inputs.
use morok_relay.Prelude.{◌≡◌, ◌≢◌, refl, true, none, List, [], ◌∷◌, ◌⊎◌}
use morok_relay.Redis.Memory.{blank}
use morok_relay.Exec.{World, Exn, raised, ok, calm}
use morok_relay.Federation.{Account, Outbound}
use morok_relay.Federation.Events.{live_account}
use morok_relay.Messages.{new_row, has_envelope}
use morok_relay.Messages.Send.{
  EnvelopeIn, envelope_dict, send_envelope, accept_signed, route_envelope, federate,
}
use morok_relay.Messages.Send.Routing.{IsSent, send_envelope-IsSent}
use morok_relay.Messages.Delete.{DmDeleteRequest, delete_dm_message}
use morok_relay.Messages.Delete.Signed.{IsSigned, delete_dm_message-IsSigned}
use morok_relay.Sealed.{InboxToken, SealedEnvelopeIn, revoke_inbox_token, send_sealed_envelope}
use morok_relay.Sealed.Admission.{revoked_token_refused}
use morok_relay.Tests.Fixtures.{server, tagged, unary, healthy}
use morok_relay.Tests.Dms.{plain}
use morok_relay.Tests.Federation.{trusting, fed_settings, half, ours}

abbrev note : EnvelopeIn
note = record { from = "a11ce"; to = "b0b"; ts = 1000; ttl = 3600; blob = "c1fe7"; sig = "5160" }

-- a recipient on another relay
abbrev far : Account
far = record ours { home_relay = "peer.example" }

abbrev outbox : List Outbound
outbox = new_row "1" "d16e57" (envelope_dict note none) "peer.example" 1100 ∷ []

abbrev quiet : World
quiet = calm blank 1100 [] healthy

send_envelope-IsSent_example :
    IsSent fed_settings "1" "a11ce" note
      (far ∷ [])
      []
      quiet
      ((record { envelope_id = "d16e57"; queued = true; expires_at = 4600 }, outbox), quiet)
unfolding send_envelope accept_signed route_envelope live_account federate has_envelope
send_envelope-IsSent_example =
    send_envelope-IsSent fed_settings "1" "a11ce" note (far ∷ []) [] outbox quiet quiet
      (record { envelope_id = "d16e57"; queued = true; expires_at = 4600 }) refl

abbrev invitation : InboxToken
invitation = record { id = "1"; pubkey = "b0b"; token_hash = "#70ce4"; created_at = 500 }

abbrev whisper : SealedEnvelopeIn
whisper = record {
  to = "b0b";
  ts = 1000;
  ttl = 3600;
  blob = "c1fe7";
  delivery_token = "70ce4";
  delete_key_hash = none;
}

revoked_token_refused_example :
    (send_sealed_envelope fed_settings 60 whisper
      (ours ∷ [])
      (revoke_inbox_token "b0b" "#70ce4" (invitation ∷ []))
      quiet).0
    ≢ ok (record { envelope_id = "d16e57"; queued = true; expires_at = 4600 })
revoked_token_refused_example =
    revoked_token_refused fed_settings 60 whisper (ours ∷ []) (invitation ∷ []) quiet "b0b" "#70ce4"
      (record { envelope_id = "d16e57"; queued = true; expires_at = 4600 }) refl refl

abbrev regret : DmDeleteRequest
regret = record { recipient_pubkey_hex = "b0b"; signature_hex = "5160"; ts = 1000 }

delete_dm_message-IsSigned_example :
    IsSigned fed_settings 1100 "a11ce" half regret
    ⊎ ((e : Exn) × (delete_dm_message fed_settings "1" "a11ce" half regret (far ∷ []) [] quiet
          ≡ (raised e, quiet)))
delete_dm_message-IsSigned_example =
    delete_dm_message-IsSigned fed_settings "1" "a11ce" half regret (far ∷ []) [] quiet
