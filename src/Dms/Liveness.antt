-- ===== src/Dms/Liveness.antt =====
-- dms_liveness.py, and the check-in that deps.py makes of a request with a bearer token.
use morok_relay.Prelude.{
  ℕ, ◌*◌, String, Bool, false, not, some, List, [], ◌∷◌, ◌==◌, elem, map, ◌&&◌, if◌then◌else◌, suc,
}
use morok_relay.Redis.{Key, Redis, text, set, set_nx}
use morok_relay.Redis.Pipeline.{◌▸◌, exists}
use morok_relay.Exec.{Exec, pure, gets, call, command, catch_all, ◌>>=◌}
use morok_relay.Dms.{Dms, Db, User, Settings, is_armed}

abbrev pub ttl_seconds : ℕ
ttl_seconds = 400 * 86400

abbrev pub dms_checkin_throttle_seconds : ℕ
dms_checkin_throttle_seconds = 300

abbrev pub last_seen_throttle_seconds : ℕ
last_seen_throttle_seconds = 3600

-- the WHERE of the UPDATE: an armed switch of this owner
abbrev pub is_armed_of : String → Dms → Bool
is_armed_of pubkey dms = dms.creator_pubkey == pubkey && is_armed dms.status

abbrev pub bumped : String → ℕ → Dms → Dms
bumped pubkey now dms =
    if is_armed_of pubkey dms then record dms { last_check_in_at = now } else dms

unfoldable pub count_armed : String → List Dms → ℕ
count_armed pubkey [] = 0
count_armed pubkey (d ∷ ds) =
    let rest = count_armed pubkey ds in if is_armed_of pubkey d then suc rest else rest

-- the UPDATE, with its number of rows
unfoldable pub bump_check_in : String → ℕ → Db → ℕ × Db
unfolding count_armed
bump_check_in pubkey now db =
    (count_armed pubkey db.switches, record db { switches = map (bumped pubkey now) db.switches })

abbrev pub seen : String → ℕ → User → User
seen pubkey now user = if user.pubkey == pubkey then record user { last_seen_at = now } else user

-- `_bump_last_seen`
unfoldable pub bump_last_seen : String → ℕ → Db → Db
bump_last_seen pubkey now db = record db { users = map (seen pubkey now) db.users }

module _ ⦃R : Redis⦄ where
  unfoldable pub remember_signed_checkin : String → Exec (Unit {0})
  remember_signed_checkin pubkey =
      catch_all (command (set (Key.signed_checkin pubkey) (text "1") (some ttl_seconds))) (pure tt)

  unfoldable pub signed_checkin_enforced : Settings → String → Exec Bool
  signed_checkin_enforced settings pubkey =
      if not (elem "dms_checkin" settings.action_proof_required)
      then pure false
      else catch_all (call (λ s. (exists (Key.signed_checkin pubkey) s, s))) (pure false)

  -- SET NX with a time to live, `False` when it fails
  unfoldable pub first_in_window : Key → ℕ → Exec Bool
  first_in_window key window =
      catch_all (call (λ s. (not (exists key s), s ▸ set_nx key (text "1") window))) (pure false)

  unfoldable pub should_bump : Settings → String → Exec Bool
  unfolding signed_checkin_enforced first_in_window
  should_bump settings pubkey = do
    enforced ← signed_checkin_enforced settings pubkey
    if enforced
        then pure false
        else first_in_window (Key.checkin_throttle pubkey) dms_checkin_throttle_seconds

  abbrev pub bump_owner : String → Db → ℕ → Bool → Db
  bump_owner pubkey db now bump = if bump then (bump_check_in pubkey now db).1 else db

  abbrev pub bump_user : String → Db → ℕ → Bool → Exec Db
  bump_user pubkey db now bump = pure (if bump then bump_last_seen pubkey now db else db)

  unfoldable pub touch_seen : String → Db → ℕ → Bool → Exec Db
  unfolding bump_check_in bump_last_seen first_in_window
  touch_seen pubkey db now bump =
      first_in_window (Key.last_seen_throttle pubkey) last_seen_throttle_seconds
      >>= bump_user pubkey (bump_owner pubkey db now bump) now

  unfoldable pub touch_owner_at : Settings → String → Db → ℕ → Exec Db
  unfolding should_bump touch_seen
  touch_owner_at settings pubkey db now = should_bump settings pubkey >>= touch_seen pubkey db now

  -- the two tasks that `get_current_session` spawns for a verified session; each runs in a
  -- transaction of its own, here at once
  unfoldable pub touch_owner : Settings → String → Db → Exec Db
  unfolding touch_owner_at
  touch_owner settings pubkey db = gets (λ w. w.now) >>= touch_owner_at settings pubkey db
