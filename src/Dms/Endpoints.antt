-- ===== src/Dms/Endpoints.antt =====
-- api/dms.py: the handlers, each in a transaction. The identifier of a new row is an argument.
use Prim.Native.String.{count, ◌++◌ as ◌+ˢ◌}
use morok_relay.Prelude.{
  ℕ, ◌+◌, String, Bool, true, false, not, Option, none, some, List, [], ◌∷◌, ◌++◌, map, leb, ltb,
  length, ◌==◌, if◌then◌else◌,
}
use morok_relay.Prelude.Json.{Dict, int, str}
use morok_relay.Redis.{Redis}
use morok_relay.Exec.{Exec, ok, raised, http, value_error, pure, raise, raise_if, gets, ◌>>=◌, ◌>>◌}
use morok_relay.Sessions.Value.{Decimal}
use morok_relay.SensitiveAction.{Ed25519, Proof, distance, enforce_sensitive_action}
use morok_relay.Dms.{
  Status, armed, triggered, cancelled, status_text, is_armed, Tier, free, Recipient, Dms, User, Db,
  Settings, Codec, Tx,
}
use morok_relay.Dms.Requests.{
  DmsCreate, free_max_recipients, premium_max_recipients, free_max_active, premium_max_active,
  free_max_total_bytes, premium_max_total_bytes,
}
use morok_relay.Dms.Liveness.{
  is_armed_of, count_armed, bump_check_in, remember_signed_checkin, signed_checkin_enforced,
}

abbrev pub max_recipients : Tier → ℕ
max_recipients free = free_max_recipients
max_recipients _ = premium_max_recipients

abbrev pub max_active : Tier → ℕ
max_active free = free_max_active
max_active _ = premium_max_active

abbrev pub max_bytes : Tier → ℕ
max_bytes free = free_max_total_bytes
max_bytes _ = premium_max_total_bytes

-- `SELECT sum(length(payload_encrypted))` of the armed switches of an owner
unfoldable pub bytes_armed : String → List Dms → ℕ
bytes_armed pubkey [] = 0
bytes_armed pubkey (d ∷ ds) =
    let rest = bytes_armed pubkey ds in
    if is_armed_of pubkey d then count d.payload_encrypted + rest else rest

unfoldable pub find_user : String → List User → Option User
find_user pubkey [] = none
find_user pubkey (u ∷ us) = if u.pubkey == pubkey then some u else find_user pubkey us

unfoldable pub find_dms : String → List Dms → Option Dms
find_dms id [] = none
find_dms id (d ∷ ds) = if d.id == id then some d else find_dms id ds

-- the UPDATE of one row
unfoldable pub put_dms : Dms → List Dms → List Dms
put_dms dms [] = []
put_dms dms (d ∷ ds) = if d.id == dms.id then dms ∷ ds else d ∷ put_dms dms ds

pub record DmsInfo : Type 0 where
  pub dms_id : String
  pub trigger_seconds : ℕ
  pub last_check_in_at : ℕ
  pub fires_at : ℕ
  pub label : Option String
  pub status : String
  pub created_at : ℕ
  pub triggered_at : Option ℕ
  pub cancelled_at : Option ℕ
  pub recipients : List Recipient

unfoldable pub to_info : Dms → DmsInfo
to_info dms = record {
  dms_id = dms.id;
  trigger_seconds = dms.trigger_seconds;
  last_check_in_at = dms.last_check_in_at;
  fires_at = dms.last_check_in_at + dms.trigger_seconds;
  label = dms.label;
  status = status_text dms.status;
  created_at = dms.created_at;
  triggered_at = dms.triggered_at;
  cancelled_at = dms.cancelled_at;
  recipients = dms.recipients;
}

-- the stable sort of the list, newest first
unfoldable pub place_newest : Dms → List Dms → List Dms
place_newest d [] = d ∷ []
place_newest d (e ∷ es) =
    let rest = place_newest d es in if leb e.created_at d.created_at then d ∷ e ∷ es else e ∷ rest

-- the rows of an owner, newest first
unfoldable pub owned : String → List Dms → List Dms
unfolding place_newest
owned pubkey [] = []
owned pubkey (d ∷ ds) =
    let rest = owned pubkey ds in if d.creator_pubkey == pubkey then place_newest d rest else rest

pub record CheckedIn : Type 0 where
  pub dms_id : String
  pub last_check_in_at : ℕ
  pub fires_at : ℕ

pub record SignedCheckIn : Type 0 where
  pub timestamp : ℕ
  pub signature_hex : String

abbrev pub checkin_message : String → ℕ → Dict
checkin_message pubkey timestamp =
    ("morok_dms_checkin", str "v1") ∷ ("pubkey", str pubkey) ∷ ("timestamp", int timestamp) ∷ []

abbrev pub new_dms : String → String → DmsCreate → String → ℕ → Dms
new_dms id pubkey body payload now = record {
  id = id;
  creator_pubkey = pubkey;
  trigger_seconds = body.trigger_seconds;
  last_check_in_at = now;
  payload_encrypted = payload;
  label = body.label;
  status = armed;
  created_at = now;
  triggered_at = none;
  cancelled_at = none;
  recipients =
      map (λ pk. record { recipient_pubkey = pk; delivered_at = none }) body.recipient_pubkeys_hex;
}

module _ ⦃R : Redis⦄ ⦃C : Codec⦄ where
  abbrev pub the_user : Settings → String → ℕ → Db → Option User → User × Db
  the_user settings pubkey now db (some user) = (user, db)
  the_user settings pubkey now db none =
      let user : User = record {
        pubkey = pubkey;
        home_relay = settings.relay_name;
        tier = free;
        last_seen_at = now;
      } in
      (user, record db { users = user ∷ db.users })

  unfoldable pub get_current_user : Settings → String → ℕ → Db → User × Db
  unfolding find_user
  get_current_user settings pubkey now db =
      the_user settings pubkey now db (find_user pubkey db.users)

  abbrev pub or_malformed : Option String → Exec String
  or_malformed none = raise (http 400 "malformed_dms_id")
  or_malformed (some id) = pure id

  unfoldable pub parse_dms_id : String → Exec String
  parse_dms_id dms_id = or_malformed (C.uuid dms_id)

  abbrev pub or_not_found : String → Option Dms → Exec Dms
  or_not_found pubkey none w = (raised (http 404 "dms_not_found"), w)
  or_not_found pubkey (some dms) w =
      (if dms.creator_pubkey == pubkey then ok dms else raised (http 404 "dms_not_found"), w)

  unfoldable pub load_dms_for_owner : String → String → Db → Exec Dms
  unfolding find_dms
  load_dms_for_owner id pubkey db = or_not_found pubkey (find_dms id db.switches)

  -- the two steps that the handlers of one switch begin with
  unfoldable pub own_dms : String → String → Db → Exec Dms
  unfolding parse_dms_id load_dms_for_owner
  own_dms dms_id pubkey db = parse_dms_id dms_id >>= λ id. load_dms_for_owner id pubkey db

  abbrev pub or_value_error : Option String → Exec String
  or_value_error none = raise value_error
  or_value_error (some payload) = pure payload

  module _ ⦃D : Decimal⦄ where
    abbrev pub within_quota : Tier → String → String → List Dms → Exec (Unit {0})
    within_quota tier pubkey payload switches = do
      raise_if (leb (max_active tier) (count_armed pubkey switches))
          (http 403 ("too_many_active_dms_max_" +ˢ D.show (max_active tier)))
      raise_if (ltb (max_bytes tier) (bytes_armed pubkey switches + count payload))
          (http 403 ("dms_storage_quota_exceeded_max_" +ˢ (D.show (max_bytes tier) +ˢ "_bytes")))

    -- the rows of the new switch
    abbrev pub add_dms : String → String → DmsCreate → Db → ℕ → String → Exec (DmsInfo × Db)
    add_dms id pubkey body db now payload =
        let dms = new_dms id pubkey body payload now in
        pure (to_info dms, record db { switches = db.switches ++ (dms ∷ []) })

    unfoldable pub with_payload :
        String → String → DmsCreate → Tier → Db → ℕ → String → Exec (DmsInfo × Db)
    unfolding to_info
    with_payload id pubkey body tier db now payload = do
      within_quota tier pubkey payload db.switches
      add_dms id pubkey body db now payload

    abbrev pub check_recipients : Tier → DmsCreate → Exec (Unit {0})
    check_recipients tier body =
        raise_if (ltb (max_recipients tier) (length body.recipient_pubkeys_hex))
          (http 403 ("too_many_recipients_for_tier_max_" +ˢ D.show (max_recipients tier)))

    -- the part after the clock was read
    unfoldable pub create_dms_at :
        Settings → String → String → DmsCreate → Db → ℕ → Exec (DmsInfo × Db)
    unfolding get_current_user with_payload
    create_dms_at settings id pubkey body db now = do
      let (user, db') = get_current_user settings pubkey now db
      check_recipients user.tier body
      or_value_error (C.b64decode body.payload_encrypted)
          >>= with_payload id pubkey body user.tier db' now

    unfoldable pub create_dms : Settings → String → String → DmsCreate → Tx DmsInfo
    unfolding create_dms_at
    create_dms settings id pubkey body db =
        gets (λ w. w.now) >>= create_dms_at settings id pubkey body db

  unfoldable pub list_my_dms : String → Tx (List DmsInfo)
  unfolding owned to_info
  list_my_dms pubkey db = pure (map to_info (owned pubkey db.switches), db)

  unfoldable pub get_dms : String → String → Tx DmsInfo
  unfolding own_dms to_info
  get_dms dms_id pubkey db = do dms ← own_dms dms_id pubkey db; pure (to_info dms, db)

  abbrev pub checked_in : Dms → Db → ℕ → Exec (CheckedIn × Db)
  checked_in dms db now = pure (
    record { dms_id = dms.id; last_check_in_at = now; fires_at = now + dms.trigger_seconds },
    record db { switches = put_dms (record dms { last_check_in_at = now }) db.switches },
  )

  unfoldable pub check_in_row : Db → Dms → Exec (CheckedIn × Db)
  unfolding put_dms
  check_in_row db dms = do
    raise_if (not (is_armed dms.status))
        (http 409 ("dms_not_armed_status_" +ˢ status_text dms.status))
    gets (λ w. w.now) >>= checked_in dms db

  -- by the bearer token, unless the owner has used a signed check-in
  unfoldable pub check_in_by : String → String → Db → Bool → Exec (CheckedIn × Db)
  unfolding own_dms check_in_row
  check_in_by dms_id pubkey db enforced = do
    raise_if enforced (http 410 "signed_checkin_required")
    own_dms dms_id pubkey db >>= check_in_row db

  unfoldable pub check_in : Settings → String → String → Tx CheckedIn
  unfolding check_in_by
  check_in settings dms_id pubkey db =
      signed_checkin_enforced settings pubkey >>= check_in_by dms_id pubkey db

  module _ ⦃E : Ed25519⦄ where
    -- the rows are committed before the mark is written, which does not raise
    abbrev pub signed_in : String → Db → ℕ → Exec ((ℕ × ℕ) × Db)
    signed_in pubkey db now = do
      remember_signed_checkin pubkey
      pure (((bump_check_in pubkey now db).0, now), (bump_check_in pubkey now db).1)

    abbrev pub check_signed : SignedCheckIn → String → ℕ → Exec (Unit {0})
    check_signed body pubkey now = do
      raise_if (ltb 300 (distance now body.timestamp)) (http 401 "stale_timestamp")
      raise_if (not (E.is_hex body.signature_hex)) (http 401 "invalid_signature")
      raise_if (not (E.verify (checkin_message pubkey body.timestamp) body.signature_hex pubkey))
          (http 401 "invalid_signature")

    unfoldable pub check_in_signed_at : SignedCheckIn → String → Db → ℕ → Exec ((ℕ × ℕ) × Db)
    unfolding bump_check_in
    check_in_signed_at body pubkey db now = do check_signed body pubkey now; signed_in pubkey db now

    unfoldable pub check_in_signed : SignedCheckIn → String → Tx (ℕ × ℕ)
    unfolding check_in_signed_at
    check_in_signed body pubkey db = gets (λ w. w.now) >>= check_in_signed_at body pubkey db

    abbrev pub scrubbed : Dms → Db → ℕ → Exec (Bool × Db)
    scrubbed dms db now = pure (
      true,
      record db {
        switches =
            put_dms
              (record dms { status = cancelled; cancelled_at = some now; payload_encrypted = "" })
              db.switches;
      },
    )

    -- the part of an armed switch
    unfoldable pub cancel_armed : Settings → String → Option Proof → Dms → Tx Bool
    cancel_armed settings pubkey proof dms db = do
      enforce_sensitive_action settings.action_proof_required settings.relay_name "dms_cancel"
          pubkey dms.id proof
      gets (λ w. w.now) >>= scrubbed dms db

    abbrev pub cancel_by_status : Settings → String → Option Proof → Dms → Status → Tx Bool
    cancel_by_status settings pubkey proof dms triggered db = pure (false, db)
    cancel_by_status settings pubkey proof dms cancelled db = pure (true, db)
    cancel_by_status settings pubkey proof dms armed db = cancel_armed settings pubkey proof dms db

    unfoldable pub cancel_dms : Settings → String → String → Option Proof → Tx Bool
    unfolding own_dms cancel_armed
    cancel_dms settings dms_id pubkey proof db =
        own_dms dms_id pubkey db >>= λ dms. cancel_by_status settings pubkey proof dms dms.status db
