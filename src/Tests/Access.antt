-- ===== src/Tests/Access.antt =====
-- Sessions, limits and confirmations at concrete inputs.
use morok_relay.RateLimit.Depends.Tor.{tor_passed, tor_passed-le}
use morok_relay.Prelude.{
  ℕ, ◌+◌, ◌-◌, ◌/◌, ◌*◌, ◌≤◌, ◌≡◌, refl, true, false, none, some, [], ◌∷◌, arith,
}
use morok_relay.Redis.{Key, count_of, text, gone, elapse}
use morok_relay.Redis.Memory.{Memory, blank}
use morok_relay.Redis.Pipeline.{get}
use morok_relay.Exec.{ok, calm, call, up, lost_request, lost_reply}
use morok_relay.RateLimit.Check.{Fallback, tor_global_multiplier}
use morok_relay.RateLimit.Check.Window.{passed, critical_never_open}
use morok_relay.RateLimit.Identifier.{
  Request, get_ip_from_request, trusted_ips, split_commas, stripped, strip, strip_left, strip_right,
  lower_is,
}
use morok_relay.SensitiveAction.{Confirmation, verify_sensitive_action, is_signed, claim_nonce}
use morok_relay.SensitiveAction.Replay.{replay_refused, replay_accepted}
use morok_relay.Sessions.{
  create_session, verify_session_token, is_session_alive, has_any_live_session,
}
use morok_relay.Sessions.Value.{has_bar, stamped}
use morok_relay.Sessions.Rules.{session_ceiling, stored_digest_is_bearer}
use morok_relay.Sessions.Revoke.{dead_session_counts}
use morok_relay.Tests.Fixtures.{server, tagged, unary, lenient, healthy}

abbrev no_hits : Fallback
no_hits = record { counts = []; window = 0 }

critical_never_open_example :
    passed "admin_login" "ip" 2 7
      (record {
        db = blank;
        net = lost_reply ∷ up ∷ lost_request ∷ [];
        now = 130;
        disk = [];
        sick = healthy;
      })
      no_hits
    ≤ 2 * 2
critical_never_open_example =
    critical_never_open "admin_login" "ip" 2 130 [] healthy refl 7
      (lost_reply ∷ up ∷ lost_request ∷ []) blank no_hits

abbrev confirm : ℕ → Confirmation
confirm timestamp = record {
  action = "delete_account";
  pubkey = "a11ce";
  target = "";
  nonce = "0ce";
  timestamp = timestamp;
  signature = "a11ce";
  relay_name = "relay";
}

-- the store `e` seconds after a confirmation at the time 1010
abbrev confirmed : ℕ → ℕ → Memory
confirmed timestamp e =
    server.run (elapse e)
      (verify_sensitive_action (confirm timestamp) (calm blank 1010 [] healthy)).1.db

past_accepted : (verify_sensitive_action (confirm 1000) (calm blank 1010 [] healthy)).0 ≡ ok true
unfolding verify_sensitive_action is_signed claim_nonce call
past_accepted = refl

ahead_accepted : (verify_sensitive_action (confirm 1100) (calm blank 1010 [] healthy)).0 ≡ ok true
unfolding verify_sensitive_action is_signed claim_nonce call
ahead_accepted = refl

replay_refused_example :
    (verify_sensitive_action (confirm 1000) (calm (confirmed 1000 60) 1070 [] healthy)).0 ≡ ok false
replay_refused_example =
    replay_refused (confirm 1000) blank (confirmed 1000 60) 1010 60 [] [] healthy healthy
      past_accepted refl (omega arith)

replay_accepted_example :
    (verify_sensitive_action (confirm 1100) (calm (confirmed 1100 300) 1310 [] healthy)).0 ≡ ok true
replay_accepted_example =
    replay_accepted (confirm 1100) blank (confirmed 1100 300) 1010 300 [] [] healthy healthy
      ahead_accepted refl (omega arith) refl

plain_key : has_bar "a11ce" ≡ false
unfolding has_bar
plain_key = refl

-- the store with a session that was created at the time 5
abbrev logged_in : Memory
logged_in = (create_session "70ce" "a11ce" (calm blank 5 [] healthy)).1.db

stored : get (Key.session "#70ce") logged_in ≡ some (text (stamped "a11ce" 5))
unfolding create_session call
stored = refl

none_under_digest : get (Key.session "##70ce") logged_in ≡ none
unfolding create_session call
none_under_digest = refl

session_ceiling_example :
    let verified = verify_session_token "70ce" (calm logged_in 40 [] healthy) in
    is_session_alive "70ce" (calm logged_in 40 [] healthy) ≡ (ok true, calm logged_in 40 [] healthy)
    × verified.0 ≡ ok (some (record { token = "70ce"; pubkey = "a11ce"; expires_at = 604840 }))
    × server.at verified.1.db (Key.session "#70ce")
      ≡ record (server.at logged_in (Key.session "#70ce")) { ttl = some 604800 }
session_ceiling_example =
    session_ceiling "70ce" refl "a11ce" plain_key logged_in 40 5 [] healthy stored

stored_digest_is_bearer_example :
    let after = verify_session_token "#70ce" (calm logged_in 40 [] healthy) in
    after.0 ≡ ok (some (record { token = "#70ce"; pubkey = "a11ce"; expires_at = 604840 }))
    × server.at after.1.db (Key.session "#70ce") ≡ gone
stored_digest_is_bearer_example =
    stored_digest_is_bearer "70ce" refl "a11ce" plain_key logged_in 40 5 [] healthy stored refl
      none_under_digest

-- eight days later
abbrev eight_days : ℕ
eight_days = 691200

abbrev left_alone : Memory
left_alone = server.run (elapse eight_days) logged_in

not_legacy : get (Key.session "70ce") left_alone ≡ none
unfolding create_session call
not_legacy = refl

dead_session_counts_example :
    ((is_session_alive "70ce" (calm left_alone (5 + eight_days) [] healthy)).0 ≡ ok false)
    × ((has_any_live_session "a11ce" (calm left_alone (5 + eight_days) [] healthy)).0 ≡ ok true)
dead_session_counts_example =
    dead_session_counts "70ce" "a11ce" blank left_alone 5 eight_days [] [] healthy healthy
      (λ j. refl) not_legacy refl (omega arith) (omega arith)

-- the relay's own proxy hands on a request that came over Tor
abbrev over_tor : Request
over_tor = record { peer = some "10.0.0.1"; via = some "tor"; real_ip = none; forwarded_for = none }

is_tor : get_ip_from_request "10.0.0.1" over_tor ≡ "tor"
unfolding get_ip_from_request trusted_ips split_commas stripped strip strip_left strip_right
    lower_is
is_tor = refl

tor_passed-le_example :
    tor_passed "10.0.0.1" "auth_verify" 1 over_tor is_tor
      (some "a11ce" ∷ none ∷ [])
      (calm blank 60 [] healthy)
      (record { counts = []; window = 0 })
    ≤ 1 * tor_global_multiplier
      - count_of (server.at blank (Key.ratelimit "auth_verify" "tor" (60 / 60))).value
tor_passed-le_example =
    tor_passed-le "10.0.0.1" "auth_verify" 1 over_tor is_tor 60 [] healthy
      (some "a11ce" ∷ none ∷ []) blank (record { counts = []; window = 0 })
