-- ===== src/Federation/Events.antt =====
-- api/federation.py: the signed events that another relay forwards, the guard against their
-- replay, and the deletion of a direct message.
pub mod Replay
use Prim.Native.String.{◌++◌ as ◌+ˢ◌, count}
use morok_relay.Prelude.{
  ℕ, ◌*◌, String, Bool, true, false, not, ◌&&◌, ◌||◌, Option, none, some, List, [], ◌∷◌, ◌++◌, ltb,
  eqb, max, ◌==◌, if◌then◌else◌,
}
use morok_relay.Prelude.Json
use morok_relay.Prelude.Json.{Json, Dict, str, int, lookup, truthy, or_null}
use morok_relay.Redis.{Key, Redis, text, set_nx}
use morok_relay.Redis.Pipeline.{◌▸◌, exists}
use morok_relay.Exec.{
  Exec, Exn, http, pure, raise, raise_if, gets, call, catch_all, value_error, ◌>>=◌, ◌>>◌,
}
use morok_relay.Sessions.Value.{Decimal}
use morok_relay.SensitiveAction.{distance}
use morok_relay.Dms.{Codec}
use morok_relay.Queue.Model.{Sha256}
use morok_relay.Queue.Delete.{
  DeleteError, group_message, not_sender, recipient_mismatch, not_found, not_sealed, wrong_key,
  Deleted, delete_envelope_by_sender,
}
use morok_relay.Queue.Fanout.{publish_read_receipt}
use morok_relay.Federation.{plain_message, Signer, ForwardResponse, Account, FedSettings}

abbrev pub delete_sig_window_seconds : ℕ
delete_sig_window_seconds = 7 * 86400

abbrev pub control_sig_window_seconds : ℕ
control_sig_window_seconds = 3600

-- `int(…)` of a JSON value; `none` for a `TypeError` or a `ValueError`
abbrev pub int_of : ⦃D : Decimal⦄ → Json → Option ℕ
int_of Json.null = none
int_of (Json.bool true) = some 1
int_of (Json.bool false) = some 0
int_of (Json.int n) = some n
int_of ⦃D⦄ (Json.str s) = D.read s

-- the signed object
abbrev pub event_payload : String → String → ℕ → Option String → Dict
event_payload kind envelope_id ts group_id =
    let object : Dict =
      if kind == "group_gone"
      then ("kind", str kind) ∷ ("ts", int ts) ∷ []
      else ("kind", str kind) ∷ ("envelope_id", str envelope_id) ∷ ("ts", int ts) ∷ [] in
    elim group_id [ none ↦ object | some g ↦ object ++ ("group_id", str g) ∷ [] ]

module _ ⦃C : Codec⦄ ⦃S : Signer⦄ where
  -- a signature of 64 bytes by a key of 32, both in hex
  abbrev pub verify_hex : Dict → Option String → Option String → Bool
  verify_hex message (some signature) (some pubkey) =
      (eqb (count signature) 64 && eqb (count pubkey) 32)
      && S.verify (plain_message message) signature pubkey
  verify_hex message _ _ = false

  abbrev pub signed_event :
      ℕ → String → String → String → String → Option String → ℕ → Option ℕ → Bool
  signed_event now kind envelope_id signature_hex signer group_id window none = false
  signed_event now kind envelope_id signature_hex signer group_id window (some ts) =
      if ltb window (distance now ts)
      then false
      else verify_hex (event_payload kind envelope_id ts group_id) (C.from_hex signature_hex)
          (C.from_hex signer)

  -- `ts` is as it stands in the envelope
  unfoldable pub verify_delete_sig :
      ⦃D : Decimal⦄ → ℕ → String → String → Json → String → String → Option String → ℕ → Bool
  verify_delete_sig now kind envelope_id ts signature_hex signer group_id window =
      signed_event now kind envelope_id signature_hex signer group_id window (int_of ts)

-- A text of an envelope, none if it is missing or empty. The fields are taken for texts: other JSON
-- is as if it were missing.
abbrev pub text_field : String → Dict → Option String
text_field k envelope = elim (lookup k envelope) [
  | none ↦ none
  | some v ↦ elim v [ Json.str s ↦ if s == "" then none else some s | _ ↦ none ]
]

-- a field that is there and not `None`
abbrev pub set_field : String → Dict → Option Json
set_field k envelope = elim (lookup k envelope) [
  | none ↦ none
  | some v ↦ elim v [ Json.null ↦ none | other ↦ some other ]
]

abbrev pub text_value : Json → String
text_value (Json.str s) = s
text_value _ = ""

abbrev pub or_blank : Option String → String
or_blank none = ""
or_blank (some s) = s

abbrev pub error_text : DeleteError → String
error_text group_message = "group_message"
error_text not_sender = "not_sender"
error_text recipient_mismatch = "recipient_mismatch"
error_text not_found = "not_found"
error_text not_sealed = "not_sealed"
error_text wrong_key = "wrong_key"

abbrev pub or_done : Option DeleteError → String
or_done none = "dm_delete_done"
or_done (some e) = error_text e

abbrev pub accepted_because : String → String → ForwardResponse
accepted_because envelope_id reason = record {
  accepted = true;
  envelope_id = envelope_id;
  reason = some reason;
}

-- a user of this relay that is not deleted
unfoldable pub live_account : String → List Account → Option Account
live_account pubkey [] = none
live_account pubkey (a ∷ accounts) =
    let rest = live_account pubkey accounts in
    if a.pubkey == pubkey then elim a.deleted_at [ none ↦ some a | some t ↦ rest ] else rest

module _ ⦃R : Redis⦄ ⦃H : Sha256⦄ ⦃D : Decimal⦄ where
  abbrev pub ts_text : Json → String
  ts_text Json.null = "None"
  ts_text (Json.bool true) = "True"
  ts_text (Json.bool false) = "False"
  ts_text (Json.int n) = D.show n
  ts_text (Json.str s) = s

  -- the key of an event: the hash of its signed fields, with bars between them
  unfoldable pub event_key : String → String → Json → String → Option String → Key
  event_key kind signer ts envelope_id group_id = Key.fed_seen (
      H.of_text (
        kind
        +ˢ ("|"
            +ˢ (signer
                +ˢ ("|" +ˢ (ts_text ts +ˢ ("|" +ˢ (envelope_id +ˢ ("|" +ˢ or_blank group_id)))))))))

  -- SET NX EX
  abbrev pub claim_key : Key → ℕ → R.Store → Bool × R.Store
  claim_key key window s = (not (exists key s), s ▸ set_nx key (text "1") (max window 60))

  unfoldable pub claim_federated_event :
      String → String → Json → String → Option String → ℕ → Exec Bool
  unfolding event_key
  claim_federated_event kind signer ts envelope_id group_id window =
      catch_all (call (claim_key (event_key kind signer ts envelope_id group_id) window))
        (pure true)

  module _ ⦃C : Codec⦄ ⦃S : Signer⦄ where
    abbrev pub required : Exn → Option String → Exec String
    required e none = raise e
    required e (some s) = pure s

    abbrev pub required_json : Exn → Option Json → Exec Json
    required_json e none = raise e
    required_json e (some v) = pure v

    abbrev pub delete_once : String → String → String → Bool → Exec ForwardResponse
    delete_once envelope_id caller recipient false =
        pure (accepted_because envelope_id "duplicate_replay_noop")
    delete_once envelope_id caller recipient true = do
      result ← delete_envelope_by_sender envelope_id caller recipient
      pure (accepted_because envelope_id (or_done result.error))

    -- what follows the reading of the fields
    unfoldable pub delete_signed : String → String → String → String → Json → Exec ForwardResponse
    unfolding verify_delete_sig
    delete_signed envelope_id recipient caller signature_hex ts = do
      now ← gets (λ w. w.now)
      raise_if
          (not (
            verify_delete_sig now "dm_delete" envelope_id ts signature_hex caller none
              delete_sig_window_seconds))
          (http 401 "invalid_delete_signature")
      fresh ← claim_federated_event "dm_delete" caller ts envelope_id none delete_sig_window_seconds
      delete_once envelope_id caller recipient fresh

    unfoldable pub handle_dm_delete_forward : Dict → Exec ForwardResponse
    unfolding delete_signed
    handle_dm_delete_forward envelope = do
      envelope_id ←
          required (http 400 "dm_delete_missing_fields") (text_field "envelope_id" envelope)
      recipient ←
          required (http 400 "dm_delete_missing_fields")
            (text_field "recipient_pubkey_hex" envelope)
      caller ←
          required (http 400 "dm_delete_missing_fields")
            (text_field "deleted_by_pubkey_hex" envelope)
      signature_hex ←
          required (http 400 "dm_delete_missing_signature")
            (text_field "deleter_signature_hex" envelope)
      ts ← required_json (http 400 "dm_delete_missing_signature") (set_field "deleter_ts" envelope)
      delete_signed envelope_id recipient caller signature_hex ts
