-- ===== src/Auth.antt =====
-- api/auth.py: the login by a signed challenge, the tickets of the WebSocket, and the ends of
-- sessions. The limits by address and key are those of RateLimit; the users and the rows of the log
-- are arguments, and so are the random texts.
pub mod Log
pub mod Proven
pub mod Opened
use morok_relay.Prelude.{
  ℕ, ◌+◌, String, Bool, true, false, not, ◌&&◌, Option, none, some, List, [], ◌∷◌, ltb, ◌==◌,
  if◌then◌else◌,
}
use morok_relay.Prelude.Json.{Dict, str, int}
use morok_relay.Redis.{Redis}
use morok_relay.Exec.{Exec, http, value_error, pure, raise, raise_if, gets, ◌>>=◌, ◌>>◌}
use morok_relay.SensitiveAction.{distance}
use morok_relay.Sessions.Value.{Decimal}
use morok_relay.Sessions.{
  Session, ws_ticket_ttl_seconds, create_session, revoke_session, revoke_all_sessions,
  issue_ws_ticket, store_challenge, consume_challenge,
}
use morok_relay.Queue.Model.{Sha256}
use morok_relay.RateLimit.Identifier.{Request, get_ip_from_request}
use morok_relay.Dms.{Codec}
use morok_relay.Federation.{plain_message, Signer, Account}
use morok_relay.Federation.Accounts.{account_of}
use Log.{LoginLog, record_login}

pub record ChallengeResponse : Type 0 where
  pub challenge_hex : String
  pub expires_at : ℕ

pub record AuthRequest : Type 0 where
  pub pubkey_hex : String
  pub challenge_hex : String
  pub timestamp : ℕ
  pub signature_hex : String

pub record AuthResponse : Type 0 where
  pub session_token : String
  pub expires_at : ℕ
  pub pubkey_hex : String
  pub home_relay : Option String
  pub is_home_relay : Bool

-- the settings that the login reads
pub record AuthSettings : Type 0 where
  pub relay_name : String
  pub relay_privkey_hex : String
  pub trusted_proxies : String

-- what a login draws and meets: the token of the session, the identifier of the row in the log, the
-- date, the bytes for the salt, and the request
pub record Visit : Type 0 where
  pub token : String
  pub id : String
  pub date : String
  pub candidate : String
  pub request : Request
  pub user_agent : Option String

-- what the client signs
abbrev pub login_message : AuthRequest → Dict
login_message body =
    ("morok_auth", str "v1")
    ∷ ("challenge", str body.challenge_hex)
    ∷ ("pubkey", str body.pubkey_hex)
    ∷ ("timestamp", int body.timestamp)
    ∷ []

abbrev pub restored : Account → Account
restored a = record a { deleted_at = none }

-- the UPDATE of `_reactivate_if_deleted`, by the bytes of the key
unfoldable pub reactivate : String → List Account → List Account
reactivate pubkey [] = []
reactivate pubkey (a ∷ accounts) =
    (if a.pubkey == pubkey then restored a else a) ∷ reactivate pubkey accounts

-- `row if row else None`
abbrev pub account_home : Option Account → Option String
account_home none = none
account_home (some a) = if a.home_relay == "" then none else some a.home_relay

abbrev pub is_home : AuthSettings → Option String → Bool
is_home settings none = true
is_home settings (some home) = home == settings.relay_name

module _ ⦃R : Redis⦄ where
  abbrev pub or_value_error : Option String → Exec String
  or_value_error none = raise value_error
  or_value_error (some s) = pure s

  -- the ticket and its seconds
  unfoldable pub get_ws_ticket : String → String → Exec (String × ℕ)
  get_ws_ticket ticket current = do
    issued ← issue_ws_ticket ticket current
    pure (issued, ws_ticket_ttl_seconds)

  unfoldable pub request_challenge : String → String → Exec ChallengeResponse
  request_challenge challenge pubkey_hex = do
    now ← gets (λ w. w.now)
    store_challenge challenge pubkey_hex
    pure (record { challenge_hex = challenge; expires_at = now + 60 })

module _ ⦃R : Redis⦄ ⦃H : Sha256⦄ ⦃D : Decimal⦄ where
  unfoldable pub logout : String → Exec Bool
  logout token = revoke_session token

  unfoldable pub revoke_all : String → Exec Bool
  revoke_all pubkey = do count ← revoke_all_sessions pubkey; pure (ltb 0 count)

module _ ⦃R : Redis⦄ ⦃H : Sha256⦄ ⦃D : Decimal⦄ ⦃C : Codec⦄ ⦃S : Signer⦄
    (settings : AuthSettings) where
  abbrev pub LoggedIn : Type 0
  LoggedIn = AuthResponse × (List Account × List LoginLog)

  abbrev pub respond : Session → Option String → AuthResponse
  respond session home = record {
    session_token = session.token;
    expires_at = session.expires_at;
    pubkey_hex = session.pubkey;
    home_relay = home;
    is_home_relay = is_home settings home;
  }

  -- what follows the check of the signature, by the bytes of the key
  unfoldable pub admit : Visit → AuthRequest → String → List Account → List LoginLog → Exec LoggedIn
  unfolding reactivate account_of
  admit visit body pubkey accounts log = do
    let accounts' = reactivate pubkey accounts
    session ← create_session visit.token body.pubkey_hex
    log' ←
        record_login settings.relay_privkey_hex visit.id visit.date visit.candidate body.pubkey_hex
          (get_ip_from_request settings.trusted_proxies visit.request) visit.user_agent log
    pure (respond session (account_home (account_of pubkey accounts')), (accounts', log'))

  unfoldable pub check_signature :
      Visit → AuthRequest → List Account → List LoginLog → Exec LoggedIn
  unfolding admit
  check_signature visit body accounts log = do
    now ← gets (λ w. w.now)
    raise_if (ltb 120 (distance now body.timestamp))
        (http 401 "invalid_signature_or_stale_timestamp")
    pubkey ← or_value_error (C.from_hex body.pubkey_hex)
    signature ← or_value_error (C.from_hex body.signature_hex)
    raise_if (not (S.verify (plain_message (login_message body)) signature pubkey))
        (http 401 "invalid_signature_or_stale_timestamp")
    admit visit body pubkey accounts log

  abbrev pub check_expected :
      Visit → AuthRequest → List Account → List LoginLog → Option String → Exec LoggedIn
  check_expected visit body accounts log none = raise (http 401 "challenge_not_found_or_expired")
  check_expected visit body accounts log (some expected) =
      if not (expected == body.pubkey_hex)
      then raise (http 401 "pubkey_mismatch")
      else check_signature visit body accounts log

  unfoldable pub verify_challenge :
      Visit → AuthRequest → List Account → List LoginLog → Exec LoggedIn
  unfolding check_signature
  verify_challenge visit body accounts log =
      consume_challenge body.challenge_hex >>= check_expected visit body accounts log
