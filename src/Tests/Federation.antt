-- ===== src/Tests/Federation.antt =====
-- Federation at concrete inputs.
use Prim.Native.String.{◌++◌ as ◌+ˢ◌}
use morok_relay.Prelude.{inr, ◌+◌, String, ◌≡◌, refl, true, false, none, some, List, [], ◌∷◌, arith}
use morok_relay.Prelude.Json.{Json, Dict, str, int}
use morok_relay.Redis.{Key, elapse, set, document}
use morok_relay.Redis.Memory.{Memory, blank}
use morok_relay.Exec.{Exec, ok, os_error, raise, calm, call}
use morok_relay.Federation.{
  Signer, Outbound, pending, FederationPeer, HandshakeRequest, ForwardRequest, Account, FedSettings,
}
use morok_relay.Federation.Hostname.{is_hostname}
use morok_relay.Federation.Worker.{Visit, failed, run_once, get}
use morok_relay.Federation.Worker.Retries.{worked, IsSettled, worked-IsSettled}
use morok_relay.Federation.Worker.Pass.{AllSound, run_once-AllSound}
use morok_relay.Federation.Client.{
  Network, Address, Identity, addresses, http_error, connection, forward_payload, forward_request,
  remote_handshake, remote_forward, remote_pull_group_snapshot, resolve_pinned_peer,
  is_safe_peer_hostname, is_public_ip, all_public, pinned,
}
use morok_relay.Federation.Client.Pinned.{AllPinned, remote_calls-AllPinned, safe-resolve, is_some}
use morok_relay.Federation.Peers.{handshake, new_peer, peer_of_host, forwarding_peer, peers_of_key}
use morok_relay.Federation.Peers.Trust.{IsSigned, Carried, handshake-Carried}
use morok_relay.Federation.Peers.Forwarding.{remote_forward-forwarding_peer}
use morok_relay.Federation.Events.{
  claim_federated_event, verify_delete_sig, event_key, delete_sig_window_seconds, accepted_because,
}
use morok_relay.Federation.Events.Replay.{future_event_replayed}
use morok_relay.Federation.Accounts.{account_of, cache_remote_user}
use morok_relay.Federation.Accounts.Kept.{cache_remote_user-Kept}
use morok_relay.Federation.Forward.{forward_impl, route, Route, Handled, dispatch, forward_dm}
use morok_relay.Federation.Envelopes.{verify_envelope_signature, decoded, missing_from}
use morok_relay.Queue.Inbox.{envelope_exists}
use morok_relay.Federation.Forward.Admission.{IsAdmitted, forward_impl-IsAdmitted}
use morok_relay.Tests.Fixtures.{server, tagged, unary, healthy}
use morok_relay.Tests.Dms.{plain}

-- A signature is its key, and every signature of the key of the signer is good.
instance abbrev pub trusting : Signer
trusting = record { sign = λ m key. some key; verify = λ m signature pubkey. true }

abbrev row : Outbound
row = record {
  id = "1";
  envelope_id = "abcd";
  envelope_data = ("to", str "b0b") ∷ [];
  target_relay = "peer.example";
  status = pending;
  attempts = 9;
  next_attempt_at = 1000;
  last_error = none;
  created_at = 900;
  delivered_at = none;
}

-- the other relay is away
abbrev away : Visit
away = record {
  claimed_at = 1000;
  settled_at = 1010;
  send = λ relay envelope. failed "ConnectError" "no route";
}

worked-IsSettled_example :
    (last : Outbound) × (get "1" (worked (away ∷ away ∷ []) "1" (row ∷ [])) ≡ some last)
    × IsSettled last
unfolding get
worked-IsSettled_example =
    worked-IsSettled (away ∷ away ∷ []) "1" (row ∷ []) row refl refl (omega arith) (omega arith)
      (λ relay envelope. tt, (λ relay envelope. tt, tt))

run_once-AllSound_example : AllSound (run_once 2000 2000 (λ n. away) (row ∷ [])).1
run_once-AllSound_example = run_once-AllSound 2000 2000 (λ n. away) (row ∷ []) (omega arith, tt)

abbrev open_address : Address
open_address = record {
  is_private = false;
  is_loopback = false;
  is_link_local = false;
  is_multicast = false;
  is_reserved = false;
  is_unspecified = false;
}

-- one host with one address, which does not answer
instance abbrev net : Network
net = record {
  ip_address = λ ip. some open_address;
  getaddrinfo = λ host. addresses ("192.0.2.1" ∷ []);
  has_colon = λ s. false;
  request = λ c. http_error;
}

abbrev us : Identity
us = record { relay_name = "us.example"; relay_pubkey_hex = "5e1f"; relay_privkey_hex = "5ec7e7" }

abbrev direct : Dict
direct = ("from", str "a11ce") ∷ ("to", str "b0b") ∷ []

remote_calls-AllPinned_example :
    AllPinned "peer.example" (remote_handshake us 1000 "peer.example").1
    × AllPinned "peer.example" (remote_forward us 1000 "peer.example" direct).1
    × AllPinned "peer.example" (remote_pull_group_snapshot us 1000 "peer.example" "6407" "a11ce").1
remote_calls-AllPinned_example = remote_calls-AllPinned us 1000 "peer.example" "6407" "a11ce" direct

safe-resolve_example :
    is_safe_peer_hostname "peer.example" ≡ some (is_some (resolve_pinned_peer "peer.example"))
safe-resolve_example = safe-resolve "peer.example" (λ h. ground arith)

abbrev pub fed_settings : FedSettings
fed_settings = record {
  relay_name = "us.example";
  relay_pubkey_hex = "5e1f";
  max_blob_bytes = 65536;
  message_ttl_hard_seconds = 86400;
}

abbrev greeting : HandshakeRequest
greeting = record {
  peer_hostname = "peer.example";
  peer_pubkey_hex = "9ee7";
  timestamp = 1000;
  signature_hex = "5160";
}

abbrev known_peer : FederationPeer
known_peer = record (new_peer "other.example" "07e7" 500) { is_trusted = true }

handshake-Carried_example :
    IsSigned 1100 greeting
    × Carried
        (peer_of_host "other.example" (known_peer ∷ []))
        (peer_of_host "other.example" (new_peer "peer.example" "9ee7" 1100 ∷ known_peer ∷ []))
unfolding handshake
handshake-Carried_example =
    handshake-Carried fed_settings 1100 greeting (known_peer ∷ [])
      (new_peer "peer.example" "9ee7" 1100 ∷ known_peer ∷ [])
      (record { accepted = true; our_pubkey_hex = "5e1f"; our_relay_name = "us.example" })
      "other.example" refl

abbrev us_as_peer : FederationPeer
us_as_peer = record (new_peer "us.example" "5e1f" 500) { is_trusted = true }

only_us : peers_of_key "5e1f" (us_as_peer ∷ []) ≡ us_as_peer ∷ []
unfolding peers_of_key
only_us = refl

found_peer : resolve_pinned_peer "peer.example" ≡ some "192.0.2.1"
unfolding resolve_pinned_peer is_hostname pinned all_public is_public_ip
found_peer = refl

remote_forward-forwarding_peer_example :
    (body : ForwardRequest) × ((remote_forward us 1000 "peer.example" direct).1
        ≡ connection "192.0.2.1" "peer.example" "/api/v1/federation/forward" (forward_payload body)
          ∷ []
      × body.envelope ≡ direct
      × forwarding_peer 1200 body (us_as_peer ∷ []) ≡ ok us_as_peer)
remote_forward-forwarding_peer_example =
    remote_forward-forwarding_peer us 1000 1200 "peer.example" "192.0.2.1" direct (us_as_peer ∷ [])
      us_as_peer "5e1f" found_peer refl (λ m. ("5ec7e7", ("5ec7e7", (refl, refl, refl))))
      (omega arith) only_us refl

abbrev pub half : String
half = "0123456789abcdef0123456789abcdef"

abbrev after_claim : Memory
after_claim =
    (claim_federated_event "dm_delete" half (Json.int 1000) "abcd" none delete_sig_window_seconds
      (calm blank 1000 [] healthy)).1.db

abbrev week_later : Memory
week_later = server.run (elapse delete_sig_window_seconds) after_claim

future_event_replayed_example :
    verify_delete_sig
        (1000 + delete_sig_window_seconds)
        "dm_delete"
        "abcd"
        (Json.int 1000)
        (half +ˢ half)
        half
        none
        delete_sig_window_seconds
      ≡ true
    × (claim_federated_event "dm_delete" half
        (Json.int 1000)
        "abcd"
        none
        delete_sig_window_seconds
        (calm week_later (1000 + delete_sig_window_seconds) [] healthy)).0
      ≡ ok true
unfolding verify_delete_sig claim_federated_event call event_key
future_event_replayed_example =
    future_event_replayed "abcd" (half +ˢ half) half 1000 1000 blank week_later [] [] healthy
      healthy (omega arith) refl refl refl

abbrev pub ours : Account
ours = record { pubkey = "b0b"; username = none; home_relay = "us.example"; deleted_at = none }

account_is_there : account_of "b0b" (ours ∷ []) ≡ some ours
unfolding account_of
account_is_there = refl

cache_remote_user-Kept_example :
    account_of "b0b" (cache_remote_user fed_settings "b0b" none "peer.example" (ours ∷ []))
    ≡ some ours
cache_remote_user-Kept_example =
    cache_remote_user-Kept fed_settings "b0b" "peer.example" "b0b" none (ours ∷ []) ours
      account_is_there (inr refl)

abbrev sealed_note : Dict
sealed_note =
    ("from", str half)
    ∷ ("to", str half)
    ∷ ("ts", int 1000)
    ∷ ("ttl", int 3600)
    ∷ ("blob", str "c1fe7")
    ∷ ("sig", str (half +ˢ half))
    ∷ []

abbrev forwarded : ForwardRequest
forwarded = forward_request us 1050 sealed_note "5ec7e7"

abbrev pub reader_account : Account
reader_account = record ours { pubkey = half }

-- the group kinds go nowhere
abbrev no_groups :
    Route → FederationPeer → Dict → List Account → Exec (Handled (λ d. "") fed_settings)
no_groups r peer envelope accounts = raise os_error

abbrev pub note_queued : Memory
note_queued = server.run (set (Key.envelope "d16e57") (document []) (some 3600)) blank

forward_impl-IsAdmitted_example :
    IsAdmitted (λ d. "") fed_settings 1100 forwarded (us_as_peer ∷ []) (reader_account ∷ [])
unfolding forward_impl dispatch forwarding_peer peers_of_key forward_dm verify_envelope_signature
    decoded missing_from account_of envelope_exists call route
forward_impl-IsAdmitted_example =
    forward_impl-IsAdmitted (λ d. "") fed_settings no_groups forwarded (us_as_peer ∷ [])
      (reader_account ∷ []) (calm note_queued 1100 [] healthy)
      (accepted_because "d16e57" "duplicate_already_queued", reader_account ∷ []) refl
