-- ===== src/Dms/Session.antt =====
-- deps.py: `get_current_session`, which verifies the bearer token of a request and takes the request
-- for a sign of life.
use Prim.Native.Char.{code}
use morok_relay.Prelude.{String, not, ◌||◌, Option, none, some, ◌==◌, eqb, if◌then◌else◌}
use morok_relay.Redis.{Redis}
use morok_relay.Exec.{Exec, http, pure, raise, raise_if, ◌>>=◌, ◌>>◌}
use morok_relay.Queue.Model.{Sha256}
use morok_relay.Sessions.Value.{Decimal}
use morok_relay.Sessions.{Session, verify_session_token}
use morok_relay.Dms.{Db, Settings, Codec}
use morok_relay.Dms.Liveness.{touch_owner}

-- `s.partition(" ")`: the texts before and after the first space
unfoldable pub partition_space : String → String × String
partition_space String.[] = ("", "")
partition_space (String.◌∷◌ c s) =
    let rest = partition_space s in
    if eqb (code c) 32 then ("", s) else (String.◌∷◌ c rest.0, rest.1)

module _ ⦃R : Redis⦄ ⦃H : Sha256⦄ ⦃D : Decimal⦄ ⦃C : Codec⦄ where
  abbrev pub or_invalid_token : Option Session → Exec Session
  or_invalid_token none = raise (http 401 "invalid_or_expired_token")
  or_invalid_token (some session) = pure session

  -- the token of the header
  abbrev pub bearer : Option String → Exec String
  bearer none = raise (http 401 "missing_authorization")
  bearer (some authorization) = do
    raise_if (authorization == "") (http 401 "missing_authorization")
    let parts = partition_space authorization
    raise_if (not (C.lower parts.0 == "bearer") || parts.1 == "")
        (http 401 "invalid_authorization_scheme")
    pure (C.strip parts.1)

  unfoldable pub get_current_session : Settings → Option String → Db → Exec (Session × Db)
  unfolding partition_space touch_owner
  get_current_session settings authorization db = do
    token ← bearer authorization
    found ← verify_session_token token
    session ← or_invalid_token found
    db' ← touch_owner settings session.pubkey db
    pure (session, db')
