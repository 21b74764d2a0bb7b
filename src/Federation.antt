-- ===== src/Federation.antt =====
-- Federation with other relays: the tables of models.py that its modules share, and the messages
-- that relays sign for each other.
pub mod Worker
pub mod Hostname
pub mod Client
pub mod Peers
pub mod Events
pub mod Receipts
pub mod Envelopes
pub mod GroupEnvelopes
pub mod Accounts
pub mod Forward
use morok_relay.Prelude.{ℕ, String, Bool, true, false, Option, List}
use morok_relay.Prelude.Json.{Dict}

pub data FedQueueStatus : Type 0 where
  pending in_flight succeeded dead_letter : FedQueueStatus

-- a row of `federation_outbound_queue`
pub record Outbound : Type 0 where
  pub id : String
  pub envelope_id : String
  pub envelope_data : Dict
  pub target_relay : String
  pub status : FedQueueStatus
  pub attempts : ℕ
  pub next_attempt_at : ℕ
  pub last_error : Option String
  pub created_at : ℕ
  pub delivered_at : Option ℕ

abbrev pub is_pending : FedQueueStatus → Bool
is_pending pending = true
is_pending _ = false

abbrev pub is_in_flight : FedQueueStatus → Bool
is_in_flight in_flight = true
is_in_flight _ = false

abbrev pub is_succeeded : FedQueueStatus → Bool
is_succeeded succeeded = true
is_succeeded _ = false

-- A row of `federation_peers`. Bytes are texts with a character for each byte.
pub record FederationPeer : Type 0 where
  pub hostname : String
  pub pubkey : String
  pub is_trusted : Bool
  pub last_handshake_at : Option ℕ

-- the objects whose canonical JSON is signed
pub data Message : Type 0 where
  -- the relay's host, its public key and the time
  handshake_message : String → String → ℕ → Message
  -- the envelope, the public key of the relay that forwards it, and the time
  forward_message : Dict → String → ℕ → Message
  -- the group, its member who asks, the public key of the relay, and the time
  pull_message : String → String → String → ℕ → Message
  -- any other object
  plain_message : Dict → Message

-- `crypto.ed25519_sign` with a private key in hex, to a signature in hex or none where it raises
-- for a malformed key, and `crypto.ed25519_verify`, with the bytes of the signature and of the
-- public key; both on the canonical JSON of a message
pub record Signer : Type 0 where
  pub sign : Message → String → Option String
  pub verify : Message → String → String → Bool

pub record HandshakeRequest : Type 0 where
  pub peer_hostname : String
  pub peer_pubkey_hex : String
  pub timestamp : ℕ
  pub signature_hex : String

pub record ForwardRequest : Type 0 where
  pub envelope : Dict
  pub relay_pubkey_hex : String
  pub relay_signature_hex : String
  pub forwarded_at : ℕ

pub record PullSnapshotRequest : Type 0 where
  pub group_id : String
  pub caller_pubkey_hex : String
  pub relay_pubkey_hex : String
  pub relay_signature_hex : String
  pub timestamp : ℕ

pub record HandshakeResponse : Type 0 where
  pub accepted : Bool
  pub our_pubkey_hex : String
  pub our_relay_name : String

pub record ForwardResponse : Type 0 where
  pub accepted : Bool
  pub envelope_id : String
  pub reason : Option String

-- A row of `users`, its public key as bytes.
pub record Account : Type 0 where
  pub pubkey : String
  pub username : Option String
  pub home_relay : String
  pub deleted_at : Option ℕ

-- the settings that these modules read
pub record FedSettings : Type 0 where
  pub relay_name : String
  pub relay_pubkey_hex : String
  pub max_blob_bytes : ℕ
  pub message_ttl_hard_seconds : ℕ
