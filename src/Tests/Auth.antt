-- ===== src/Tests/Auth.antt =====
-- A login at concrete inputs.
use morok_relay.Prelude.{◌+◌, ◌≡◌, refl, true, false, none, some, [], ◌∷◌, arith}
use morok_relay.Redis.{elapse}
use morok_relay.Redis.Memory.{Memory, blank}
use morok_relay.Exec.{World, ok, raised, http, calm, call}
use morok_relay.Sessions.{
  session_ttl_seconds, store_challenge, consume_challenge, get_and_delete, create_session,
  verify_session_token,
}
use morok_relay.Sessions.Value.{has_bar}
use morok_relay.Auth.Log.{
  record_login, daily_ip_hash, prune, latest_first, place_latest, delete_older, shortened,
}
use morok_relay.Auth.{
  AuthRequest, AuthSettings, Visit, LoggedIn, request_challenge, verify_challenge, check_signature,
  admit, reactivate,
}
use morok_relay.Auth.Proven.{IsProven, IsLoggedIn, verify_challenge-IsLoggedIn}
use morok_relay.Auth.Opened.{login_opens_once}
use morok_relay.Federation.Accounts.{account_of}
use morok_relay.Tests.Fixtures.{server, tagged, unary, healthy}
use morok_relay.Tests.Dms.{plain}
use morok_relay.Tests.Federation.{trusting}

abbrev here : AuthSettings
here = record { relay_name = "us.example"; relay_privkey_hex = "5ec7e7"; trusted_proxies = "" }

abbrev attempt : Visit
attempt = record {
  token = "70ce";
  id = "1";
  date = "2026-01-01";
  candidate = "5a17";
  request = record { peer = some "10.0.0.9"; via = none; real_ip = none; forwarded_for = none };
  user_agent = none;
}

abbrev signed : AuthRequest
signed = record {
  pubkey_hex = "a11ce";
  challenge_hex = "c4a1";
  timestamp = 1000;
  signature_hex = "5160";
}

-- the store 20 seconds after the challenge was issued
abbrev waiting : Memory
waiting =
    server.run (elapse 20) (request_challenge "c4a1" "a11ce" (calm blank 1000 [] healthy)).1.db

abbrev arrival : World
arrival = calm waiting 1020 [] healthy

is_proven : IsProven here 1020 signed
is_proven = record {
  pubkey = "a11ce";
  signature = "5160";
  pubkey_bytes = refl;
  signature_bytes = refl;
  in_window = omega arith;
  signed = refl;
}

plain_key : has_bar "a11ce" ≡ false
unfolding has_bar
plain_key = refl

login_opens_once_example :
    let after = verify_challenge here attempt signed [] [] arrival in
    ((r : LoggedIn here) × (after.0 ≡ ok r))
    × (verify_session_token "70ce" after.1).0
      ≡ ok (
          some
            (record { token = "70ce"; pubkey = "a11ce"; expires_at = 1020 + session_ttl_seconds }))
    × (verify_challenge here attempt signed [] [] after.1).0
      ≡ raised (http 401 "challenge_not_found_or_expired")
login_opens_once_example =
    login_opens_once here [] healthy attempt attempt signed signed [] [] [] [] blank waiting 1000 20
      refl plain_key refl (omega arith) is_proven refl

abbrev welcomed : LoggedIn here
welcomed = (
  record {
    session_token = "70ce";
    expires_at = 1020 + session_ttl_seconds;
    pubkey_hex = "a11ce";
    home_relay = none;
    is_home_relay = true;
  },
  (
    [],
    record { id = "1"; pubkey = "a11ce"; created_at = 1020; ip_hash = "d16e57"; user_agent = none }
        ∷ [],
  ),
)

verify_challenge-IsLoggedIn_example : IsLoggedIn here arrival signed attempt welcomed
unfolding verify_challenge check_signature admit reactivate request_challenge store_challenge
    consume_challenge get_and_delete create_session record_login daily_ip_hash prune latest_first
    place_latest delete_older shortened account_of call
verify_challenge-IsLoggedIn_example =
    verify_challenge-IsLoggedIn here attempt signed [] [] arrival welcomed refl
