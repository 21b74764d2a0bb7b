-- ===== src/Federation/Client.antt =====
-- federation_client.py: the calls of other relays, each over a connection to an address that was
-- checked before. A call gives what it returns and the connections that it made.
pub mod Pinned
use Prim.Native.String.{◌++◌ as ◌+ˢ◌}
use morok_relay.Prelude.{
  ℕ, String, Bool, true, false, not, ◌&&◌, ◌||◌, Option, none, some, List, [], ◌∷◌, leb, ltb, eqb,
  ◌==◌, if◌then◌else◌,
}
use morok_relay.Prelude.Json.{Dict}
use morok_relay.Federation.{
  Message, handshake_message, forward_message, pull_message, Signer, HandshakeRequest,
  ForwardRequest, PullSnapshotRequest,
}
use morok_relay.Federation.Hostname.{is_hostname}
use morok_relay.Federation.Worker.{Body, Sent, failed, returned}

-- what `ipaddress.ip_address` tells of an address
pub record Address : Type 0 where
  pub is_private : Bool
  pub is_loopback : Bool
  pub is_link_local : Bool
  pub is_multicast : Bool
  pub is_reserved : Bool
  pub is_unspecified : Bool

-- what `socket.getaddrinfo` does: the addresses that it lists, or the exception
pub data Resolved : Type 0 where
  addresses : List String → Resolved
  -- `gaierror` and `UnicodeError`
  name_error : Resolved
  -- any other `OSError`
  system_error : Resolved

-- the JSON of a request
pub data Payload : Type 0 where
  bare_get : Payload
  handshake_payload : HandshakeRequest → Payload
  forward_payload : ForwardRequest → Payload
  pull_payload : PullSnapshotRequest → Payload

-- a request over TLS: the host of its URL, which it connects to, the path, the `Host` header, the
-- name that is sent for the certificate and checked in it, and the JSON
pub record Connection : Type 0 where
  pub host_for_url : String
  pub path : String
  pub host : String
  pub sni_hostname : String
  pub payload : Payload

-- the text of a response, as JSON; `none` is `null`
pub data Content : Type 0 where
  json : Option Body → Content
  -- `response.json()` raises: the name of the exception and its text
  not_json : String → String → Content

pub data Response : Type 0 where
  -- an `httpx.HTTPError`
  http_error : Response
  -- a status code and what follows
  answered : ℕ → Content → Response

pub record Network : Type 0 where
  -- `none` for a `ValueError`
  pub ip_address : String → Option Address
  pub getaddrinfo : String → Resolved
  -- a colon in a text
  pub has_colon : String → Bool
  pub request : Connection → Response

-- what the settings say of this relay
pub record Identity : Type 0 where
  pub relay_name : String
  pub relay_pubkey_hex : String
  pub relay_privkey_hex : String

-- the value of a call, and its connections
abbrev pub Called : Type 0 → Type 0
Called A = A × List Connection

pub data LookupOutcome : Type 0 where
  found not_found transient_error : LookupOutcome

-- `remote_lookup` returns, or `response.json()` raises
pub data Looked : Type 0 where
  looked_up : LookupOutcome → Option Body → Looked
  unreadable : Looked

abbrev pub forward_request : Identity → ℕ → Dict → String → ForwardRequest
forward_request i now envelope signature = record {
  envelope = envelope;
  relay_pubkey_hex = i.relay_pubkey_hex;
  relay_signature_hex = signature;
  forwarded_at = now;
}

module _ ⦃N : Network⦄ where
  abbrev pub is_public_address : Option Address → Bool
  is_public_address none = false
  is_public_address (some a) = not (
      a.is_private
      || (a.is_loopback
          || (a.is_link_local || (a.is_multicast || (a.is_reserved || a.is_unspecified)))))

  unfoldable pub is_public_ip : String → Bool
  is_public_ip ip = is_public_address (N.ip_address ip)

  -- the loop over the addresses
  unfoldable pub all_public : List String → Bool
  unfolding is_public_ip
  all_public [] = true
  all_public (ip ∷ ips) = is_public_ip ip && all_public ips

  unfoldable pub pinned : Resolved → Option String
  unfolding all_public
  pinned (addresses []) = none
  pinned (addresses (ip ∷ ips)) = if all_public (ip ∷ ips) then some ip else none
  pinned name_error = none
  pinned system_error = none

  unfoldable pub resolve_pinned_peer : String → Option String
  unfolding is_hostname pinned
  resolve_pinned_peer hostname =
      if not (is_hostname hostname) then none else pinned (N.getaddrinfo hostname)

  -- `none` for the `OSError` that it lets through
  unfoldable pub safe : Resolved → Option Bool
  unfolding all_public
  safe (addresses []) = some false
  safe (addresses (ip ∷ ips)) = some (all_public (ip ∷ ips))
  safe name_error = some false
  safe system_error = none

  unfoldable pub is_safe_peer_hostname : String → Option Bool
  unfolding is_hostname safe
  is_safe_peer_hostname hostname =
      if not (is_hostname hostname) then some false else safe (N.getaddrinfo hostname)

  abbrev pub connection : String → String → String → Payload → Connection
  connection ip hostname path payload = record {
    host_for_url = if N.has_colon ip then "[" +ˢ (ip +ˢ "]") else ip;
    path = path;
    host = hostname;
    sni_hostname = hostname;
    payload = payload;
  }

  abbrev pub send_to : Option String → String → String → Payload → Called (Option Response)
  send_to none hostname path payload = (none, [])
  send_to (some ip) hostname path payload =
      let c = connection ip hostname path payload in (some (N.request c), c ∷ [])

  -- `_pinned_post`, and `_pinned_get` with no payload
  unfoldable pub pinned_request : String → String → Payload → Called (Option Response)
  unfolding resolve_pinned_peer
  pinned_request hostname path payload =
      send_to (resolve_pinned_peer hostname) hostname path payload

  abbrev pub is_success : ℕ → Bool
  is_success status = leb 200 status && ltb status 300

  abbrev pub read_json : Content → Sent
  read_json (json body) = returned body
  read_json (not_json kind text) = failed kind text

  -- `response.raise_for_status(); return response.json()`, with `httpx.HTTPError` as `None`
  abbrev pub body_of : Option Response → Sent
  body_of none = returned none
  body_of (some http_error) = returned none
  body_of (some (answered status content)) =
      if is_success status then read_json content else returned none

  abbrev pub body_unless_missing : Option Response → Sent
  body_unless_missing (some (answered status content)) =
      if eqb status 404 then returned none else body_of (some (answered status content))
  body_unless_missing response = body_of response

  abbrev pub found_json : Content → Looked
  found_json (json body) = looked_up found body
  found_json (not_json kind text) = unreadable

  abbrev pub lookup_of : Option Response → Looked
  lookup_of none = looked_up transient_error none
  lookup_of (some http_error) = looked_up transient_error none
  lookup_of (some (answered status content)) =
      if eqb status 404
      then looked_up not_found none
      else if is_success status
      then found_json content
      else looked_up transient_error none

  abbrev pub then_body : (Option Response → Sent) → Called (Option Response) → Called Sent
  then_body read (response, made) = (read response, made)

  unfoldable pub remote_lookup : String → String → Called Looked
  unfolding pinned_request
  remote_lookup peer_hostname username =
      let (response, made) =
        pinned_request peer_hostname ("/api/v1/federation/users/lookup/" +ˢ username) bare_get in
      (lookup_of response, made)

  module _ ⦃S : Signer⦄ where
    abbrev pub handshake_with : Identity → ℕ → String → Option String → Called Sent
    handshake_with i now peer_hostname none = (returned none, [])
    handshake_with i now peer_hostname (some signature) = then_body body_of (
        pinned_request peer_hostname "/api/v1/federation/handshake" (
          handshake_payload (record {
            peer_hostname = i.relay_name;
            peer_pubkey_hex = i.relay_pubkey_hex;
            timestamp = now;
            signature_hex = signature;
          })))

    unfoldable pub remote_handshake : Identity → ℕ → String → Called Sent
    unfolding pinned_request
    remote_handshake i now peer_hostname =
        handshake_with i now peer_hostname
          (S.sign (handshake_message i.relay_name i.relay_pubkey_hex now) i.relay_privkey_hex)

    abbrev pub forward_with : Identity → ℕ → String → Dict → Option String → Called Sent
    forward_with i now peer_hostname envelope none = (returned none, [])
    forward_with i now peer_hostname envelope (some signature) = then_body body_of (
        pinned_request peer_hostname "/api/v1/federation/forward"
          (forward_payload (forward_request i now envelope signature)))

    unfoldable pub remote_forward : Identity → ℕ → String → Dict → Called Sent
    unfolding pinned_request
    remote_forward i now peer_hostname envelope =
        forward_with i now peer_hostname envelope
          (S.sign (forward_message envelope i.relay_pubkey_hex now) i.relay_privkey_hex)

    abbrev pub pull_with : Identity → ℕ → String → String → String → Option String → Called Sent
    pull_with i now peer_hostname group_id caller none = (returned none, [])
    pull_with i now peer_hostname group_id caller (some signature) = then_body body_unless_missing (
        pinned_request peer_hostname "/api/v1/federation/group_snapshot/pull" (
          pull_payload (record {
            group_id = group_id;
            caller_pubkey_hex = caller;
            relay_pubkey_hex = i.relay_pubkey_hex;
            relay_signature_hex = signature;
            timestamp = now;
          })))

    unfoldable pub remote_pull_group_snapshot :
        Identity → ℕ → String → String → String → Called Sent
    unfolding pinned_request
    remote_pull_group_snapshot i now peer_hostname group_id caller =
        pull_with i now peer_hostname group_id caller
          (S.sign (pull_message group_id caller i.relay_pubkey_hex now) i.relay_privkey_hex)
