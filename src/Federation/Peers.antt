-- ===== src/Federation/Peers.antt =====
-- api/federation.py: the handshake, and the checks of the relay that forwards an envelope. The time
-- and the table of peers are arguments.
pub mod Trust
pub mod Forwarding
use morok_relay.Prelude.{
  ℕ, String, Bool, true, false, not, Option, none, some, List, [], ◌∷◌, ltb, ◌==◌, if◌then◌else◌,
}
use morok_relay.Exec.{Exn, Outcome, ok, raised, http, multiple_results}
use morok_relay.SensitiveAction.{distance}
use morok_relay.Dms.{Codec}
use morok_relay.Federation.{
  Message, handshake_message, forward_message, Signer, FederationPeer, HandshakeRequest,
  HandshakeResponse, ForwardRequest, FedSettings,
}

abbrev pub timestamp_window_seconds : ℕ
timestamp_window_seconds = 300

-- the one row with a host name, which is unique
unfoldable pub peer_of_host : String → List FederationPeer → Option FederationPeer
peer_of_host hostname [] = none
peer_of_host hostname (p ∷ peers) =
    if p.hostname == hostname then some p else peer_of_host hostname peers

-- the handshake's time on a row that is found
unfoldable pub touch_peer : String → ℕ → List FederationPeer → List FederationPeer
touch_peer hostname now [] = []
touch_peer hostname now (p ∷ peers) =
    let rest = touch_peer hostname now peers in
    if p.hostname == hostname then record p { last_handshake_at = some now } ∷ peers else p ∷ rest

abbrev pub new_peer : String → String → ℕ → FederationPeer
new_peer hostname pubkey now = record {
  hostname = hostname;
  pubkey = pubkey;
  is_trusted = false;
  last_handshake_at = some now;
}

abbrev pub recorded :
    String
    → String
    → ℕ
    → List FederationPeer
    → Option FederationPeer
    → Outcome (List FederationPeer)
recorded hostname pubkey now peers none = ok (new_peer hostname pubkey now ∷ peers)
recorded hostname pubkey now peers (some peer) =
    if peer.pubkey == pubkey
    then ok (touch_peer hostname now peers)
    else raised (http 409 "peer_pubkey_changed_manual_intervention_required")

unfoldable pub get_or_create_peer :
    String → String → ℕ → List FederationPeer → Outcome (List FederationPeer)
unfolding peer_of_host touch_peer
get_or_create_peer hostname pubkey now peers =
    recorded hostname pubkey now peers (peer_of_host hostname peers)

-- `scalar_one_or_none()` of the rows with a public key
unfoldable pub peers_of_key : String → List FederationPeer → List FederationPeer
peers_of_key pubkey [] = []
peers_of_key pubkey (p ∷ peers) =
    let rest = peers_of_key pubkey peers in if p.pubkey == pubkey then p ∷ rest else rest

abbrev pub trusted_peer : List FederationPeer → Outcome FederationPeer
trusted_peer [] = raised (http 403 "forwarding_relay_unknown_handshake_first")
trusted_peer (peer ∷ []) =
    if peer.is_trusted then ok peer else raised (http 403 "forwarding_relay_untrusted")
trusted_peer (peer ∷ other ∷ peers) = raised multiple_results

abbrev pub answer_handshake :
    FedSettings → Outcome (List FederationPeer) → Outcome (HandshakeResponse × List FederationPeer)
answer_handshake settings (ok peers) = ok (
  record {
    accepted = true;
    our_pubkey_hex = settings.relay_pubkey_hex;
    our_relay_name = settings.relay_name;
  },
  peers,
)
answer_handshake settings (raised e) = raised e

module _ ⦃C : Codec⦄ ⦃S : Signer⦄ where
  -- what follows the decoding of the key and the signature
  unfoldable pub checked_handshake :
      FedSettings
      → ℕ
      → HandshakeRequest
      → Option String
      → Option String
      → List FederationPeer
      → Outcome (HandshakeResponse × List FederationPeer)
  unfolding get_or_create_peer
  checked_handshake settings now body (some pubkey) (some signature) peers =
      if S.verify (handshake_message body.peer_hostname body.peer_pubkey_hex body.timestamp)
        signature pubkey
      then answer_handshake settings (get_or_create_peer body.peer_hostname pubkey now peers)
      else raised (http 401 "handshake_signature_invalid")
  checked_handshake settings now body none signature peers = raised (http 400 "malformed_hex")
  checked_handshake settings now body (some pubkey) none peers = raised (http 400 "malformed_hex")

  unfoldable pub handshake :
      FedSettings
      → ℕ
      → HandshakeRequest
      → List FederationPeer
      → Outcome (HandshakeResponse × List FederationPeer)
  unfolding checked_handshake
  handshake settings now body peers =
      if ltb timestamp_window_seconds (distance now body.timestamp)
      then raised (http 400 "handshake_timestamp_out_of_window")
      else checked_handshake settings now body (C.from_hex body.peer_pubkey_hex)
          (C.from_hex body.signature_hex) peers

  abbrev pub checked_relay :
      ℕ
      → ForwardRequest
      → Option String
      → Option String
      → List FederationPeer
      → Outcome FederationPeer
  checked_relay now body (some pubkey) (some signature) peers =
      if ltb timestamp_window_seconds (distance now body.forwarded_at)
      then raised (http 400 "forward_timestamp_out_of_window")
      else if S.verify (forward_message body.envelope body.relay_pubkey_hex body.forwarded_at)
          signature pubkey
      then trusted_peer (peers_of_key pubkey peers)
      else raised (http 401 "forwarding_relay_signature_invalid")
  checked_relay now body none signature peers = raised (http 400 "malformed_hex")
  checked_relay now body (some pubkey) none peers = raised (http 400 "malformed_hex")

  -- the first part of `_forward_impl`: the peer that forwards
  unfoldable pub forwarding_peer : ℕ → ForwardRequest → List FederationPeer → Outcome FederationPeer
  unfolding peers_of_key
  forwarding_peer now body peers =
      checked_relay now body (C.from_hex body.relay_pubkey_hex)
        (C.from_hex body.relay_signature_hex) peers
