-- ===== src/Queue/Model.antt =====
-- queue.py: the constants, the events and the metadata of an envelope.
use Prim.Native.String.{◌++◌ as ◌+ˢ◌}
use morok_relay.Prelude.{
  ℕ, ◌+◌, ◌*◌, String, Bool, true, Option, none, some, [], ◌∷◌, ◌==◌, min, if◌then◌else◌,
}
use morok_relay.Prelude.Json.{Dict, int, str, bool, or_null, insert, contains}

-- `hashlib.sha256(…).hexdigest()` of a text's UTF-8 bytes, and of the bytes that a hex text
-- stands for; `none` is the ValueError of `bytes.fromhex`.
pub record Sha256 : Type 0 where
  pub of_text : String → String
  pub of_hex : String → Option String

abbrev pub max_inbox_queue_depth : ℕ
max_inbox_queue_depth = 5000

abbrev pub inbox_key_ttl_slack_seconds : ℕ
inbox_key_ttl_slack_seconds = 3600

abbrev pub tombstone_extra_ttl_seconds : ℕ
tombstone_extra_ttl_seconds = 7 * 86400

abbrev pub delivery_tombstone_ttl_seconds : ℕ
delivery_tombstone_ttl_seconds = 2 * 86400

abbrev pub mail_seen_batch_max : ℕ
mail_seen_batch_max = 200

abbrev pub pair_text : String → String → String
pair_text sender recipient = sender +ˢ ("|" +ˢ recipient)

unfoldable pub sender_tombstone_value : ⦃H : Sha256⦄ → String → String → String
sender_tombstone_value ⦃H⦄ sender recipient = H.of_text (pair_text sender recipient)

abbrev pub new_event : String → Dict
new_event envelope_id = ("kind", str "new") ∷ ("envelope_id", str envelope_id) ∷ []

abbrev pub deleted_event : String → String → Option String → Dict
deleted_event envelope_id by group_id =
    ("kind", str "deleted")
    ∷ ("envelope_id", str envelope_id)
    ∷ ("by", str by)
    ∷ ("group_id", or_null group_id)
    ∷ []

abbrev pub read_event : String → String → Option String → Dict
read_event envelope_id reader group_id =
    ("kind", str "read")
    ∷ ("envelope_id", str envelope_id)
    ∷ ("reader", str reader)
    ∷ ("group_id", or_null group_id)
    ∷ []

abbrev pub group_gone_event : String → String → Dict
group_gone_event group_id by =
    ("kind", str "group_gone") ∷ ("group_id", str group_id) ∷ ("by", str by) ∷ []

-- the arguments of `enqueue_envelope`; `extra_meta=None` is the empty dictionary
pub record Envelope : Type 0 where
  pub envelope_id : String
  pub sender : String
  pub recipient : String
  pub timestamp : ℕ
  pub ttl_seconds : ℕ
  pub signature : String
  pub hard_ceiling_seconds : ℕ
  pub sender_username : Option String
  pub sealed : Bool
  pub delete_key_hash : Option String
  pub channel : Option String
  pub mail_from : Option String
  pub mail_origin : Option String
  pub extra_meta : Dict

-- `min(timestamp + ttl, now + ceiling)`
abbrev pub expiry : ℕ → ℕ → ℕ → ℕ → ℕ
expiry timestamp ttl now ceiling = min (timestamp + ttl) (now + ceiling)

-- `if value: meta[key] = value`
abbrev pub set_if_given : String → Option String → Dict → Dict
set_if_given k none meta = meta
set_if_given k (some s) meta = if s == "" then meta else insert k (str s) meta

unfoldable pub sealed_meta : Envelope → Dict → Dict
sealed_meta e meta =
    if e.sealed
    then set_if_given "delete_key_hash" e.delete_key_hash (insert "sealed" (bool true) meta)
    else meta

unfoldable pub plain_meta : Envelope → ℕ → Dict
plain_meta e expires_at =
    ("envelope_id", str e.envelope_id)
    ∷ ("from", str e.sender)
    ∷ ("from_username", or_null e.sender_username)
    ∷ ("to", str e.recipient)
    ∷ ("ts", int e.timestamp)
    ∷ ("ttl", int e.ttl_seconds)
    ∷ ("sig", str e.signature)
    ∷ ("expires_at", int expires_at)
    ∷ []

unfoldable pub server_meta : Envelope → ℕ → Dict
server_meta e expires_at = set_if_given "mail_from" e.mail_from (
    set_if_given "mail_origin" e.mail_origin
      (set_if_given "channel" e.channel (sealed_meta e (plain_meta e expires_at))))

-- the loop over `extra_meta`; `none` is its ValueError
unfoldable pub add_extra : Dict → Dict → Option Dict
add_extra [] meta = some meta
add_extra ((k, v) ∷ rest) meta = if contains k meta then none else add_extra rest (insert k v meta)

unfoldable pub meta_of : Envelope → ℕ → Option Dict
meta_of e expires_at = add_extra e.extra_meta (server_meta e expires_at)
