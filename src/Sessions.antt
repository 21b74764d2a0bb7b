-- ===== src/Sessions.antt =====
-- sessions.py: bearer sessions, the one-time tickets of the WebSocket and the challenges of the
-- login. The random texts of `secrets` are arguments. A call reads the clock once.
pub mod Value
pub mod Rules
pub mod Revoke
pub mod Once
use morok_relay.Prelude.{
  ℕ, suc, ◌+◌, ◌-◌, ◌*◌, String, Bool, true, false, not, Option, none, some, List, [], ◌∷◌, ◌++◌,
  ◌==◌, eqb, ltb, map, if◌then◌else◌,
}
use morok_relay.Prelude.Json.{Dict, str, Json, or_null}
use morok_relay.Redis.{
  Key, Command, Payload, Redis, text, number, document, set, set_nx, del, expire, sadd, srem,
  publish,
}
use morok_relay.Redis.Pipeline.{◌▸◌, exists, get, members_at, run_all}
use morok_relay.Exec.{World, Exec, Outcome, ok, pure, gets, call, command, catch_all, ◌>>=◌, ◌>>◌}
use morok_relay.Queue.Model.{Sha256}
use Value.{Decimal, partition, stamped}

abbrev pub session_ttl_seconds : ℕ
session_ttl_seconds = 7 * 24 * 60 * 60

abbrev pub session_absolute_max_seconds : ℕ
session_absolute_max_seconds = 30 * 24 * 60 * 60

abbrev pub ws_ticket_ttl_seconds : ℕ
ws_ticket_ttl_seconds = 25

abbrev pub challenge_ttl_seconds : ℕ
challenge_ttl_seconds = 60

pub record Session : Type 0 where
  pub token : String
  pub pubkey : String
  pub expires_at : ℕ

-- a value that GET returned, decoded
abbrev pub decoded : Option Payload → Option String
decoded (some (text s)) = some s
decoded _ = none

abbrev pub session_revoked_event : ⦃H : Sha256⦄ → Option String → Dict
session_revoked_event none = ("kind", str "session_revoked") ∷ ("token_hash", Json.null) ∷ []
session_revoked_event ⦃H⦄ (some token) =
    ("kind", str "session_revoked")
    ∷ ("token_hash", if token == "" then Json.null else str (H.of_text token))
    ∷ []

-- `int(created_str)`, or `now` for a text that is no number
abbrev pub created_or : ℕ → Option ℕ → ℕ
created_or now none = now
created_or now (some n) = n

-- whether the absolute ceiling has been passed
unfoldable pub is_over : ⦃D : Decimal⦄ → ℕ → String → Bool
is_over ⦃D⦄ now created =
    if created == ""
    then false
    else ltb session_absolute_max_seconds (now - created_or now (D.read created))

module _ ⦃R : Redis⦄ ⦃H : Sha256⦄ ⦃D : Decimal⦄ where
  abbrev pub read_key : Key → Exec (Option String)
  read_key k = call (λ s. (decoded (get k s), s))

  unfoldable pub create_session : String → String → Exec Session
  create_session token pubkey = do
    now ← gets (λ w. w.now)
    command
        (set (Key.session (H.of_text token)) (text (stamped pubkey now)) (some session_ttl_seconds))
    command (sadd (Key.user_sessions pubkey) (H.of_text token))
    command (expire (Key.user_sessions pubkey) (session_absolute_max_seconds + 86400))
    pure (record { token = token; pubkey = pubkey; expires_at = now + session_ttl_seconds })

  -- the transaction that moves a legacy session to the hashed key
  unfoldable pub migrate_commands : String → String → ℕ → List Command
  migrate_commands token pubkey now =
      set (Key.session (H.of_text token)) (text (stamped pubkey now)) (some session_ttl_seconds)
      ∷ del (Key.session token)
      ∷ srem (Key.user_sessions pubkey) token
      ∷ sadd (Key.user_sessions pubkey) (H.of_text token)
      ∷ []

  unfoldable pub migrate : String → ℕ → Option String → Exec (Option String)
  unfolding migrate_commands
  migrate token now none = pure none
  migrate token now (some value) = do
    let pubkey = (partition value).0
    call (λ s. (tt, run_all (migrate_commands token pubkey now) s))
    pure (some (stamped pubkey now))

  unfoldable pub find_value : String → ℕ → Option String → Exec (Option String)
  unfolding migrate
  find_value token now (some value) = pure (some value)
  find_value token now none = do migrate token now (← read_key (Key.session token))

  unfoldable pub end_session : String → String → Exec (Option Session)
  end_session token pubkey = do
    command (del (Key.session (H.of_text token)))
    command (srem (Key.user_sessions pubkey) (H.of_text token))
    pure none

  unfoldable pub refresh : String → String → ℕ → Exec (Option Session)
  refresh token pubkey now = do
    command (expire (Key.session (H.of_text token)) session_ttl_seconds)
    command (expire (Key.user_sessions pubkey) (session_absolute_max_seconds + 86400))
    pure (some (record { token = token; pubkey = pubkey; expires_at = now + session_ttl_seconds }))

  unfoldable pub check_value : String → ℕ → Option String → Exec (Option Session)
  unfolding end_session refresh
  check_value token now none = pure none
  check_value token now (some raw) =
      let (pubkey, created) = partition raw in
      if is_over now created then end_session token pubkey else refresh token pubkey now

  verify_token : String → Exec (Option Session)
  unfolding find_value check_value
  verify_token token = do
    now ← gets (λ w. w.now)
    value ← read_key (Key.session (H.of_text token))
    found ← find_value token now value
    check_value token now found

  unfoldable pub verify_session_token : String → Exec (Option Session)
  unfolding verify_token
  verify_session_token token = if token == "" then pure none else verify_token token

  abbrev pub alive_value : ℕ → Option String → Bool
  alive_value now none = false
  alive_value now (some raw) = not (is_over now (partition raw).1)

  unfoldable pub or_legacy : String → Option String → Exec (Option String)
  or_legacy token (some value) = pure (some value)
  or_legacy token none = read_key (Key.session token)

  check_alive : String → Exec Bool
  unfolding or_legacy
  check_alive token = do
    now ← gets (λ w. w.now)
    value ← or_legacy token (← read_key (Key.session (H.of_text token)))
    pure (alive_value now value)

  unfoldable pub is_session_alive : String → Exec Bool
  unfolding check_alive
  is_session_alive token = if token == "" then pure false else check_alive token

  unfoldable pub has_any_live_session : String → Exec Bool
  has_any_live_session pubkey =
      call (λ s. (elim (members_at (Key.user_sessions pubkey) s) [ [] ↦ false | _ ↦ true ], s))

  unfoldable pub publish_session_revoked : String → Option String → Exec (Unit {0})
  publish_session_revoked pubkey token =
      catch_all (command (publish pubkey (session_revoked_event token))) (pure tt)

  -- DEL of one key, with whether it was there
  unfoldable pub delete_key : Key → R.Store → Bool × R.Store
  delete_key k s = (exists k s, s ▸ del k)

  unfoldable pub revoke_found : String → String → String → Exec Bool
  unfolding delete_key publish_session_revoked
  revoke_found token identifier value = do
    let pubkey = (partition value).0
    deleted ← call (delete_key (Key.session identifier))
    call (λ s. (
      tt,
      s ▸ srem (Key.user_sessions pubkey) token ▸ srem (Key.user_sessions pubkey) (H.of_text token),
    ))
    publish_session_revoked pubkey (some token)
    pure deleted

  unfoldable pub revoke_legacy : String → Option String → Exec Bool
  unfolding revoke_found
  revoke_legacy token none = pure false
  revoke_legacy token (some value) = revoke_found token token value

  unfoldable pub revoke_value : String → Option String → Exec Bool
  unfolding revoke_found revoke_legacy
  revoke_value token (some value) = revoke_found token (H.of_text token) value
  revoke_value token none = do revoke_legacy token (← read_key (Key.session token))

  unfoldable pub revoke_session : String → Exec Bool
  unfolding revoke_value
  revoke_session token = do revoke_value token (← read_key (Key.session (H.of_text token)))

  -- DEL of several keys, with how many were there
  unfoldable pub delete_sessions : List String → R.Store → ℕ × R.Store
  delete_sessions [] s = (0, s)
  delete_sessions (m ∷ ms) s =
      let (n, s') = delete_sessions ms (s ▸ del (Key.session m)) in
      (if exists (Key.session m) s then suc n else n, s')

  unfoldable pub revoke_members : String → List String → Exec ℕ
  unfolding delete_sessions publish_session_revoked
  revoke_members pubkey [] = do publish_session_revoked pubkey none; pure 0
  revoke_members pubkey (m ∷ ms) = do
    count ←
        call (λ s.
          let (n, s') = delete_sessions (m ∷ ms) s in (n, s' ▸ del (Key.user_sessions pubkey)))
    publish_session_revoked pubkey none
    pure count

  unfoldable pub revoke_all_sessions : String → Exec ℕ
  unfolding revoke_members
  revoke_all_sessions pubkey = do
    members ← call (λ s. (members_at (Key.user_sessions pubkey) s, s))
    revoke_members pubkey members

module _ ⦃R : Redis⦄ where
  unfoldable pub issue_ws_ticket : String → String → Exec String
  issue_ws_ticket ticket pubkey = do
    command (set_nx (Key.ws_ticket ticket) (text pubkey) ws_ticket_ttl_seconds)
    pure ticket

  -- GET and DEL in one step: GETDEL, or a transaction
  unfoldable pub get_and_delete : Key → R.Store → Option String × R.Store
  get_and_delete k s = (decoded (get k s), s ▸ del k)

  unfoldable pub consume_ws_ticket : String → Exec (Option String)
  unfolding get_and_delete
  consume_ws_ticket ticket = call (get_and_delete (Key.ws_ticket ticket))

  unfoldable pub store_challenge : String → String → Exec (Unit {0})
  store_challenge challenge pubkey =
      command (set (Key.challenge challenge) (text pubkey) (some challenge_ttl_seconds))

  unfoldable pub consume_challenge : String → Exec (Option String)
  unfolding get_and_delete
  consume_challenge challenge = call (get_and_delete (Key.challenge challenge))
