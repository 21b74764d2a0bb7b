-- ===== src/Messages/Receipts.antt =====
-- api/messages.py: `post_read_receipts`.
pub mod Told
use morok_relay.Prelude.{
  ℕ, ◌+◌, String, Bool, true, false, not, ◌&&◌, Option, none, some, List, [], ◌∷◌, ◌++◌, ◌==◌,
  if◌then◌else◌,
}
use morok_relay.Prelude.Json.{Dict, str, int, or_null}
use morok_relay.Redis.{Redis}
use morok_relay.Exec.{Exec, pure, gets, ◌>>=◌, ◌>>◌}
use morok_relay.Sessions.Value.{Decimal}
use morok_relay.Dms.{Codec}
use morok_relay.Queue.Model.{Sha256}
use morok_relay.Queue.Inbox.{was_delivered_to}
use morok_relay.Queue.Fanout.{publish_read_receipt}
use morok_relay.Federation.{Signer, Outbound, Account, FedSettings}
use morok_relay.Federation.Events.{live_account}
use morok_relay.Federation.Receipts.{verify_read_receipt_signature}
use morok_relay.Messages.{queue_once, synthetic_queue_id}

pub record ReadReceiptItem : Type 0 where
  pub envelope_id : String
  pub sender_pubkey_hex : String
  pub group_id : Option String
  pub reader_signature_hex : Option String
  pub signed_at : Option ℕ

pub record Tally : Type 0 where
  pub sent : ℕ
  pub federated : ℕ
  pub skipped : ℕ

-- what becomes of an item
pub data Fate : Type 0 where
  was_sent was_federated was_skipped : Fate

abbrev pub counted : Fate → Tally → Tally
counted was_sent t = record t { sent = t.sent + 1 }
counted was_federated t = record t { federated = t.federated + 1 }
counted was_skipped t = record t { skipped = t.skipped + 1 }

abbrev pub with_signature : ReadReceiptItem → Dict → Dict
with_signature r payload = elim r.reader_signature_hex [
  | none ↦ payload
  | some signature ↦ elim r.signed_at [
    | none ↦ payload
    | some at ↦ payload ++ ("reader_signature_hex", str signature) ∷ ("signed_at", int at) ∷ []
  ]
]

-- what is sent to the relay of the sender
abbrev pub receipt_payload : ReadReceiptItem → String → Dict
receipt_payload r reader = with_signature r (
    ("kind", str "read_receipt")
    ∷ ("envelope_id", str r.envelope_id)
    ∷ ("sender_pubkey_hex", str r.sender_pubkey_hex)
    ∷ ("reader_pubkey_hex", str reader)
    ∷ ("group_id", or_null r.group_id)
    ∷ [])

module _ ⦃R : Redis⦄ ⦃H : Sha256⦄ ⦃D : Decimal⦄ ⦃C : Codec⦄ ⦃S : Signer⦄ (settings : FedSettings)
    (reader : String) where
  -- a pair of signature and time, if both are there, is right
  abbrev pub is_honest : ℕ → ReadReceiptItem → Bool
  is_honest now r = elim r.reader_signature_hex [
    | none ↦ true
    | some signature ↦ elim r.signed_at [
      | none ↦ true
      | some at ↦
          verify_read_receipt_signature now r.envelope_id r.sender_pubkey_hex reader r.group_id at
            signature
    ]
  ]

  abbrev pub Told : Type 0
  Told = Fate × List Outbound

  abbrev pub receipt_id : ReadReceiptItem → String → String
  receipt_id r target_relay = synthetic_queue_id "read" (r.envelope_id ∷ reader ∷ target_relay ∷ [])

  abbrev pub queue_receipt : String → ReadReceiptItem → String → ℕ → List Outbound → List Outbound
  queue_receipt id r target_relay now rows =
      queue_once id (receipt_id r target_relay) (receipt_payload r reader) target_relay now rows

  abbrev pub tell_account : String → ReadReceiptItem → List Outbound → Option Account → Exec Told
  tell_account id r rows none = pure (was_skipped, rows)
  tell_account id r rows (some a) =
      if a.home_relay == settings.relay_name
      then (publish_read_receipt r.sender_pubkey_hex r.envelope_id reader r.group_id
          >> pure (was_sent, rows))
      else if a.home_relay == ""
      then pure (was_skipped, rows)
      else (gets (λ w. w.now) >>= λ now.
          pure (was_federated, queue_receipt id r a.home_relay now rows))

  unfoldable pub tell_if :
      String → ReadReceiptItem → String → List Account → List Outbound → Bool → Exec Told
  unfolding live_account
  tell_if id r sender accounts rows false = pure (was_skipped, rows)
  tell_if id r sender accounts rows true = tell_account id r rows (live_account sender accounts)

  abbrev pub tell_sender :
      String → ReadReceiptItem → List Account → List Outbound → Option String → Exec Told
  tell_sender id r accounts rows none = pure (was_skipped, rows)
  tell_sender id r accounts rows (some sender) =
      was_delivered_to r.envelope_id reader >>= tell_if id r sender accounts rows

  abbrev pub tell_if_honest :
      String → ReadReceiptItem → List Account → List Outbound → ℕ → Exec Told
  tell_if_honest id r accounts rows now =
      if is_honest now r
      then tell_sender id r accounts rows (C.from_hex r.sender_pubkey_hex)
      else pure (was_skipped, rows)

  -- one round of the loop; `id` is the identifier of a new row
  unfoldable pub read_one : String → ReadReceiptItem → List Account → List Outbound → Exec Told
  unfolding tell_if queue_once synthetic_queue_id verify_read_receipt_signature
  read_one id r accounts rows =
      if r.sender_pubkey_hex == reader
      then pure (was_skipped, rows)
      else (gets (λ w. w.now) >>= tell_if_honest id r accounts rows)

  -- the loop, over the items with an identifier for each
  unfoldable pub read_all :
      List (String × ReadReceiptItem)
      → List Account
      → Tally
      → List Outbound
      → Exec (Tally × List Outbound)
  unfolding read_one
  read_all [] accounts t rows = pure (t, rows)
  read_all ((id, r) ∷ reads) accounts t rows =
      read_one id r accounts rows >>= λ told. read_all reads accounts (counted told.0 t) told.1

  unfoldable pub post_read_receipts :
      List (String × ReadReceiptItem) → List Account → List Outbound → Exec (Tally × List Outbound)
  unfolding read_all
  post_read_receipts reads accounts rows =
      read_all reads accounts (record { sent = 0; federated = 0; skipped = 0 }) rows
