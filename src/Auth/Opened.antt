-- ===== src/Auth/Opened.antt =====
-- From the challenge to the session.
use morok_relay.Prelude.{
  ℕ, ◌+◌, ◌<◌, String, Bool, true, false, some, List, ltb, leb, ◌==◌, ◌≡◌, refl, arith, eq_refl,
}
use morok_relay.Redis.{Key, Redis, elapsed, text, gone, set, del, sadd, expire}
use morok_relay.Redis.Pipeline.{◌▸◌, get}
use morok_relay.Exec.{ok, raised, http, call, calm}
use morok_relay.SensitiveAction.{distance}
use morok_relay.Sessions.Value.{Decimal, has_bar, stamped}
use morok_relay.Sessions.{
  decoded, get_and_delete, create_session, consume_challenge, store_challenge, verify_session_token,
  session_ttl_seconds, session_absolute_max_seconds,
}
use morok_relay.Sessions.Rules.{session_ceiling}
use morok_relay.Queue.Model.{Sha256}
use morok_relay.RateLimit.Identifier.{get_ip_from_request}
use morok_relay.Dms.{Codec}
use morok_relay.Federation.{Signer, Account}
use morok_relay.Auth.Log.{LoginLog}
use morok_relay.Federation.Accounts.{account_of}
use morok_relay.Auth.{
  respond, account_home, reactivate, AuthRequest, AuthSettings, Visit, LoggedIn, request_challenge,
  admit, check_signature, verify_challenge,
}
use morok_relay.Auth.Proven.{IsProven}
use morok_relay.Auth.Log.Quiet.{record_login-OnlyTouches}

module _ ⦃R : Redis⦄ ⦃H : Sha256⦄ ⦃D : Decimal⦄ ⦃C : Codec⦄ ⦃S : Signer⦄ (settings : AuthSettings)
    (d : List (String × String)) (k : String → Bool) where
  -- what a login leaves behind
  record Opens (s : R.Store) (t : ℕ) (visit : Visit) (body : AuthRequest) (accounts : List Account)
      (log : List LoginLog) : Type 0 where
    answer : LoggedIn settings
    db : R.Store
    runs :
        verify_challenge settings visit body accounts log (calm s t d k)
        ≡ (ok answer, calm db t d k)
    session : get (Key.session (H.of_text visit.token)) db ≡ some (text (stamped body.pubkey_hex t))
    burned : R.at db (Key.challenge body.challenge_hex) ≡ gone

  verify_challenge-Opens :
      (s : R.Store) (t : ℕ) (visit : Visit) (body : AuthRequest) (accounts : List Account)
      (log : List LoginLog)
      → decoded (get (Key.challenge body.challenge_hex) s) ≡ some body.pubkey_hex
      → IsProven settings t body
      → Opens s t visit body accounts log
  unfolding verify_challenge check_signature admit consume_challenge get_and_delete create_session
      call
  verify_challenge-Opens s t visit body accounts log stored proven =
      let index = Key.user_sessions body.pubkey_hex in
      let opened =
        s
        ▸ del (Key.challenge body.challenge_hex)
        ▸ set (Key.session (H.of_text visit.token)) (text (stamped body.pubkey_hex t))
            (some session_ttl_seconds)
        ▸ sadd index (H.of_text visit.token)
        ▸ expire index (session_absolute_max_seconds + 86400) in
      let logged =
        record_login-OnlyTouches settings.relay_privkey_hex visit.date visit.candidate
          (get_ip_from_request settings.trusted_proxies visit.request) opened t d k visit.id
          body.pubkey_hex visit.user_agent log in
      let near : ltb 120 (distance t body.timestamp) ≡ false =
        let window = proven.in_window in ground arith in
      let accounts' = reactivate proven.pubkey accounts in
      record {
        answer = (
          respond settings
              (record {
                token = visit.token;
                pubkey = body.pubkey_hex;
                expires_at = t + session_ttl_seconds;
              })
              (account_home (account_of proven.pubkey accounts')),
          (accounts', logged.result),
        );
        db = logged.db;
        runs =
            simp
              (
                stored, eq_refl, near, proven.pubkey_bytes, proven.signature_bytes, proven.signed,
                logged.runs,
              )
              refl;
        session =
            rw (logged.same (Key.session (H.of_text visit.token)) refl) (simp (R.at_run, eq_refl));
        burned =
            rw (logged.same (Key.challenge body.challenge_hex) refl) (simp (R.at_run, eq_refl));
      }

  burned_refused :
      (s : R.Store) (t : ℕ) (visit : Visit) (body : AuthRequest) (accounts : List Account)
      (log : List LoginLog)
      → R.at s (Key.challenge body.challenge_hex) ≡ gone
      → (verify_challenge settings visit body accounts log (calm s t d k)).0
        ≡ raised (http 401 "challenge_not_found_or_expired")
  unfolding verify_challenge consume_challenge get_and_delete call
  burned_refused s t visit body accounts log burned = simp burned refl

  -- With the connection up, a challenge that was issued less than 60 seconds ago, and that nothing
  -- but time has touched since, opens a session for the key that has signed it: the login is
  -- answered, the token that it drew is that of a session of this key for seven days, and no other
  -- request with this challenge is answered at the same time.
  pub login_opens_once :
      (visit visit' : Visit) (body body' : AuthRequest) (accounts accounts' : List Account)
      (log log' : List LoginLog) (s s' : R.Store) (t e : ℕ)
      → (visit.token == "") ≡ false
      → has_bar body.pubkey_hex ≡ false
      → R.at s' (Key.challenge body.challenge_hex)
        ≡ elapsed e (
            R.at
              (request_challenge body.challenge_hex body.pubkey_hex (calm s t d k)).1.db
              (Key.challenge body.challenge_hex))
      → e < 60
      → IsProven settings (t + e) body
      → body'.challenge_hex ≡ body.challenge_hex
      → let after = verify_challenge settings visit body accounts log (calm s' (t + e) d k) in
        ((r : LoggedIn settings) × (after.0 ≡ ok r))
        × ((verify_session_token visit.token after.1).0
            ≡ ok (
                some (record {
                  token = visit.token;
                  pubkey = body.pubkey_hex;
                  expires_at = t + e + session_ttl_seconds;
                })))
        × ((verify_challenge settings visit' body' accounts' log' after.1).0
            ≡ raised (http 401 "challenge_not_found_or_expired"))
  unfolding request_challenge store_challenge call
  login_opens_once visit visit' body body' accounts accounts' log log' s s' t e some_token plain
        waited soon proven same =
      let waited' = simp (R.at_run, eq_refl) at waited in
      let early : leb 60 e ≡ false = ground arith in
      let stored : decoded (get (Key.challenge body.challenge_hex) s') ≡ some body.pubkey_hex =
        rw (waited', early) refl in
      let opens = verify_challenge-Opens s' (t + e) visit body accounts log stored proven in
      let verified =
        session_ceiling visit.token some_token body.pubkey_hex plain opens.db (t + e) (t + e) d k
          opens.session in
      let young : leb (t + e) (t + e + session_absolute_max_seconds) ≡ true = ground arith in
      rw opens.runs (
        (opens.answer, refl),
        rw young at (verified.1),
        burned_refused opens.db (t + e) visit' body' accounts' log' (rw same opens.burned),
      )
