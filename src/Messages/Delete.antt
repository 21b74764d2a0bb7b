-- ===== src/Messages/Delete.antt =====
-- api/messages.py: `delete_dm_message`.
pub mod Signed
use morok_relay.Prelude.{
  ℕ, ◌*◌, String, Bool, true, false, not, ◌&&◌, ◌||◌, Option, none, some, List, [], ◌∷◌, ltb, ◌==◌,
  if◌then◌else◌,
}
use morok_relay.Prelude.Json.{Dict, str, int}
use morok_relay.Redis.{Redis}
use morok_relay.Exec.{Exec, http, pure, raise, raise_if, gets, ◌>>=◌, ◌>>◌}
use morok_relay.SensitiveAction.{distance}
use morok_relay.Dms.{Codec}
use morok_relay.Queue.Model.{Sha256}
use morok_relay.Queue.Delete.{
  DeleteError, group_message, not_sender, recipient_mismatch, not_found, not_sealed, wrong_key,
  Deleted, delete_envelope_by_sender,
}
use morok_relay.Federation.{plain_message, Signer, Outbound, Account, FedSettings}
use morok_relay.Federation.Events.{live_account}
use morok_relay.Messages.{queue_once, synthetic_queue_id, is_envelope_id}

pub record DmDeleteRequest : Type 0 where
  pub recipient_pubkey_hex : String
  pub signature_hex : String
  pub ts : ℕ

pub record DeleteReply : Type 0 where
  pub envelope_id : String
  pub deleted_from_queue : Bool
  pub recipient_already_acked : Bool
  pub federated_to_relay : Option String

abbrev pub delete_message : String → ℕ → Dict
delete_message envelope_id ts =
    ("kind", str "dm_delete") ∷ ("envelope_id", str envelope_id) ∷ ("ts", int ts) ∷ []

-- what is sent to the relay of the recipient
abbrev pub delete_payload : String → String → DmDeleteRequest → Dict
delete_payload envelope_id current body =
    ("kind", str "dm_delete")
    ∷ ("envelope_id", str envelope_id)
    ∷ ("recipient_pubkey_hex", str body.recipient_pubkey_hex)
    ∷ ("deleted_by_pubkey_hex", str current)
    ∷ ("deleter_signature_hex", str body.signature_hex)
    ∷ ("deleter_ts", int body.ts)
    ∷ []

abbrev pub home_of : Option Account → String
home_of none = ""
home_of (some a) = a.home_relay

-- the relay that the deletion must go to, if it is another
abbrev pub other_home : FedSettings → String → Option String
other_home settings home_relay =
    if home_relay == ""
    then none
    else if home_relay == settings.relay_name
    then none
    else some home_relay

abbrev pub is_not_found : Option DeleteError → Bool
is_not_found (some not_found) = true
is_not_found _ = false

module _ ⦃R : Redis⦄ where
  abbrev pub refuse_error : Option DeleteError → Exec (Unit {0})
  refuse_error (some not_sender) = raise (http 403 "not_message_sender")
  refuse_error (some group_message) = raise (http 400 "use_group_delete_endpoint")
  refuse_error (some recipient_mismatch) = raise (http 400 "recipient_mismatch")
  refuse_error (some not_found) = pure tt
  refuse_error (some not_sealed) = pure tt
  refuse_error (some wrong_key) = pure tt
  refuse_error none = pure tt

module _ ⦃R : Redis⦄ ⦃H : Sha256⦄ ⦃C : Codec⦄ ⦃S : Signer⦄ (settings : FedSettings) where
  unfoldable pub recipient_of : String → List Account → Option Account
  unfolding live_account
  recipient_of recipient_hex accounts = elim (C.from_hex recipient_hex) [
    | none ↦ none
    | some recipient ↦ live_account recipient accounts
  ]

  abbrev pub is_signed_by :
      String → DmDeleteRequest → Option String → Option String → Exec (Unit {0})
  is_signed_by envelope_id body (some signature) (some sender) =
      raise_if
        (not (S.verify (plain_message (delete_message envelope_id body.ts)) signature sender))
        (http 401 "invalid_delete_signature")
  is_signed_by envelope_id body none sender = raise (http 400 "malformed_signature_or_pubkey")
  is_signed_by envelope_id body (some signature) none =
      raise (http 400 "malformed_signature_or_pubkey")

  abbrev pub pass_on :
      String
      → String
      → String
      → DmDeleteRequest
      → Option String
      → List Outbound
      → Exec (List Outbound)
  pass_on id current envelope_id body none rows = pure rows
  pass_on id current envelope_id body (some target_relay) rows = gets (λ w. w.now) >>= λ now. pure (
      queue_once id (synthetic_queue_id "dmdel" (envelope_id ∷ target_relay ∷ []))
        (delete_payload envelope_id current body) target_relay now rows)

  abbrev pub nowhere : Option String → Bool
  nowhere none = true
  nowhere (some t) = false

  -- what follows the deletion here
  unfoldable pub finish_delete :
      String
      → String
      → String
      → DmDeleteRequest
      → Option String
      → List Outbound
      → Deleted
      → Exec (DeleteReply × List Outbound)
  unfolding queue_once synthetic_queue_id
  finish_delete id current envelope_id body federated_to rows result = do
    refuse_error result.error
    rows' ← pass_on id current envelope_id body federated_to rows
    raise_if (is_not_found result.error && nowhere federated_to) (http 404 "envelope_not_found")
    pure (
      record {
        envelope_id = envelope_id;
        deleted_from_queue = result.deleted_from_queue;
        recipient_already_acked = not result.meta_existed;
        federated_to_relay = federated_to;
      },
      rows',
    )

  unfoldable pub delete_dm_message :
      String
      → String
      → String
      → DmDeleteRequest
      → List Account
      → List Outbound
      → Exec (DeleteReply × List Outbound)
  unfolding is_envelope_id finish_delete recipient_of
  delete_dm_message id current envelope_id body accounts rows = do
    raise_if (not (is_envelope_id envelope_id)) (http 400 "malformed_envelope_id")
    now ← gets (λ w. w.now)
    raise_if (ltb (7 * 86400) (distance now body.ts)) (http 400 "delete_ts_out_of_window")
    is_signed_by envelope_id body (C.from_hex body.signature_hex) (C.from_hex current)
    result ← delete_envelope_by_sender envelope_id current body.recipient_pubkey_hex
    finish_delete id current envelope_id body
        (other_home settings (home_of (recipient_of body.recipient_pubkey_hex accounts))) rows
        result
