-- ===== src/Federation/Receipts.antt =====
-- api/federation.py: the read receipts that another relay forwards.
use morok_relay.Prelude.{
  ℕ, String, Bool, true, false, not, Option, none, some, List, [], ◌∷◌, ltb, ◌==◌, if◌then◌else◌,
}
use morok_relay.Prelude.Json.{Json, Dict, str, int, lookup, or_null}
use morok_relay.Redis.{Redis}
use morok_relay.Exec.{Exec, http, pure, raise, raise_if, gets, value_error, ◌>>=◌, ◌>>◌}
use morok_relay.Sessions.Value.{Decimal}
use morok_relay.SensitiveAction.{distance}
use morok_relay.Dms.{Codec}
use morok_relay.Queue.Model.{Sha256}
use morok_relay.Queue.Fanout.{publish_read_receipt}
use morok_relay.Federation.{plain_message, Signer, ForwardResponse, Account, FedSettings}
use morok_relay.Federation.Events.{
  int_of, text_field, set_field, text_value, accepted_because, live_account, required,
}

abbrev pub read_receipt_sig_window_seconds : ℕ
read_receipt_sig_window_seconds = 300

-- a text of an envelope, none if it is missing
abbrev pub nullable_text : String → Dict → Option String
nullable_text k envelope = elim (lookup k envelope) [
  | none ↦ none
  | some v ↦ elim v [ Json.str s ↦ some s | _ ↦ none ]
]

module _ ⦃R : Redis⦄ ⦃H : Sha256⦄ ⦃D : Decimal⦄ ⦃C : Codec⦄ ⦃S : Signer⦄ where
  abbrev pub receipt_message : String → String → String → Option String → ℕ → Dict
  receipt_message envelope_id sender reader group_id signed_at =
      ("morok_read_receipt", str "morok_read_receipt:v1")
      ∷ ("envelope_id", str envelope_id)
      ∷ ("sender_pubkey_hex", str sender)
      ∷ ("reader_pubkey_hex", str reader)
      ∷ ("group_id", or_null group_id)
      ∷ ("signed_at", int signed_at)
      ∷ []

  abbrev pub verify_bytes : Dict → Option String → Option String → Bool
  verify_bytes message (some signature) (some pubkey) =
      S.verify (plain_message message) signature pubkey
  verify_bytes message _ _ = false

  unfoldable pub verify_read_receipt_signature :
      ℕ → String → String → String → Option String → ℕ → String → Bool
  verify_read_receipt_signature now envelope_id sender reader group_id signed_at signature_hex =
      if ltb read_receipt_sig_window_seconds (distance now signed_at)
      then false
      else verify_bytes (receipt_message envelope_id sender reader group_id signed_at)
          (C.from_hex signature_hex) (C.from_hex reader)

  abbrev pub or_bad_int : Option ℕ → Exec ℕ
  or_bad_int none = raise value_error
  or_bad_int (some n) = pure n

  -- a signature that is there must be right
  unfoldable pub check_receipt :
      String → String → String → Option String → Option Json → Option Json → Exec (Unit {0})
  unfolding verify_read_receipt_signature
  check_receipt envelope_id sender reader group_id (some signature) (some at) = do
    signed_at ← or_bad_int (int_of at)
    now ← gets (λ w. w.now)
    raise_if
        (not (
          verify_read_receipt_signature now envelope_id sender reader group_id signed_at
            (text_value signature)))
        (http 400 "read_receipt_invalid_signature")
  check_receipt envelope_id sender reader group_id none signed_at = pure tt
  check_receipt envelope_id sender reader group_id (some signature) none = pure tt

  abbrev pub is_local : FedSettings → Option Account → Bool
  is_local settings none = false
  is_local settings (some a) = a.home_relay == settings.relay_name

  abbrev pub tell_sender : String → String → String → Option String → Bool → Exec ForwardResponse
  tell_sender envelope_id sender reader group_id false = pure (record {
    accepted = false;
    envelope_id = envelope_id;
    reason = some "sender_not_on_this_relay";
  })
  tell_sender envelope_id sender reader group_id true = do
    publish_read_receipt sender envelope_id reader group_id
    pure (accepted_because envelope_id "read_receipt_delivered")

  unfoldable pub handle_read_receipt : FedSettings → List Account → Dict → Exec ForwardResponse
  unfolding check_receipt live_account
  handle_read_receipt settings accounts envelope = do
    envelope_id ←
        required (http 400 "read_receipt_missing_fields") (text_field "envelope_id" envelope)
    sender ←
        required (http 400 "read_receipt_missing_fields") (text_field "sender_pubkey_hex" envelope)
    reader ←
        required (http 400 "read_receipt_missing_fields") (text_field "reader_pubkey_hex" envelope)
    check_receipt envelope_id sender reader (nullable_text "group_id" envelope)
        (set_field "reader_signature_hex" envelope) (set_field "signed_at" envelope)
    sender_pubkey ← required (http 400 "bad_sender_pubkey_hex") (C.from_hex sender)
    tell_sender envelope_id sender reader (nullable_text "group_id" envelope)
        (is_local settings (live_account sender_pubkey accounts))
