-- ===== src/Tests/Dms.antt =====
-- The dead man's switch at concrete inputs.
use morok_relay.Prelude.{◌≤◌, String, ◌≡◌, refl, Bool, false, none, some, [], ◌∷◌, arith}
use morok_relay.Redis.Memory.{blank}
use morok_relay.Exec.{World, ok, calm, call}
use morok_relay.Dms.{free, Dms, User, Db, Codec, Settings}
use morok_relay.Dms.Requests.{
  DmsCreate, validate_create, is_payload, validate_recipients, each_recipient, is_pubkey_hex,
}
use morok_relay.Dms.Liveness.{count_armed, signed_checkin_enforced}
use morok_relay.Dms.Endpoints.{
  CheckedIn, new_dms, to_info, create_dms, create_dms_at, with_payload, get_current_user, find_user,
  bytes_armed, check_in, check_in_by, check_in_row, own_dms, parse_dms_id, load_dms_for_owner,
  find_dms, put_dms, max_recipients,
}
use morok_relay.Dms.Reaper.{Stats, fire_dms_switches, fire_all, fire_if_due, is_due}
use morok_relay.Exec.Runs.{Runs}
use morok_relay.Dms.Reaper.Rows.{Ran, fire_dms_switches-FiredAll}
use morok_relay.Dms.Table.{none_there}
use morok_relay.Dms.Sound.{AreSound}
use morok_relay.Dms.Sound.History.{creates, here, next, DmsReach-AreSound}
use morok_relay.Dms.Alive.{IsCheckedIn, check_in-fire_dms_switches}
use morok_relay.Dms.Quota.{IsWithinQuota, create_dms-IsWithinQuota}
use morok_relay.Tests.Fixtures.{server, tagged, unary, lenient, healthy}

-- codes that change nothing
instance abbrev pub plain : Codec
plain = record {
  b64decode = λ s. some s;
  b64encode = λ s. s;
  uuid = λ s. some s;
  from_hex = λ s. some s;
  digest = λ parts. "d16e57";
  to_bytes = λ n. "8";
  sign = λ m k. k;
  lower = λ s. s;
  strip = λ s. s;
}

abbrev settings : Settings
settings = record {
  relay_name = "relay";
  relay_pubkey_hex = "5e1f";
  relay_privkey_hex = "0123456789abcdef0123456789abcdef";
  message_ttl_hard_seconds = 86400;
  action_proof_required = "dms_checkin" ∷ [];
}

abbrev heir : String
heir = "0123456789abcdef0123456789abcdef0123456789abcdef0123456789abcdef"

abbrev last_will : DmsCreate
last_will = record {
  trigger_seconds = 7200;
  payload_encrypted = "c1fe7";
  recipient_pubkeys_hex = heir ∷ [];
  label = none;
}

abbrev no_rows : Db
no_rows = record { switches = []; users = [] }

abbrev start : World
start = calm blank 1000 [] healthy

abbrev will_row : Dms
will_row = new_dms "1d" "a11ce" last_will "c1fe7" 1000

abbrev owner : User
owner = record { pubkey = "a11ce"; home_relay = "relay"; tier = free; last_seen_at = 1000 }

abbrev rows : Db
rows = record { switches = will_row ∷ []; users = owner ∷ [] }

will_is_valid : validate_create last_will ≡ some last_will
unfolding validate_create is_payload validate_recipients each_recipient is_pubkey_hex
will_is_valid = refl

will_is_created :
    (create_dms settings "1d" "a11ce" last_will no_rows start).0 ≡ ok (to_info will_row, rows)
unfolding create_dms create_dms_at with_payload get_current_user find_user bytes_armed count_armed
will_is_created = refl

DmsReach-AreSound_example : AreSound rows
DmsReach-AreSound_example =
    DmsReach-AreSound settings
      (next here (
        creates start "1d" "a11ce" last_will last_will no_rows (to_info will_row, rows)
          will_is_valid will_is_created))
      none_there

create_dms-IsWithinQuota_example :
    IsWithinQuota (get_current_user settings "a11ce" 1000 no_rows).0.tier "a11ce" rows.switches
    × 1 ≤ max_recipients (get_current_user settings "a11ce" 1000 no_rows).0.tier
create_dms-IsWithinQuota_example =
    create_dms-IsWithinQuota settings "1d" "a11ce" last_will no_rows start (to_info will_row, rows)
      will_is_created

-- two hours later
abbrev two_hours : World
two_hours = calm blank 8200 [] healthy

abbrev unlocked : String → Bool
unlocked id = false

fire_dms_switches-FiredAll_example :
    Runs (fire_dms_switches settings unlocked rows) two_hours (Ran settings unlocked two_hours rows)
fire_dms_switches-FiredAll_example = fire_dms_switches-FiredAll settings unlocked rows two_hours

abbrev checked_row : Dms
checked_row = record will_row { last_check_in_at = 5000 }

abbrev checked_rows : Db
checked_rows = record rows { switches = checked_row ∷ [] }

abbrev checked : CheckedIn
checked = record { dms_id = "1d"; last_check_in_at = 5000; fires_at = 12200 }

is_checked_in :
    (check_in settings "1d" "a11ce" rows (calm blank 5000 [] healthy)).0
    ≡ ok (checked, checked_rows)
unfolding check_in check_in_by check_in_row own_dms parse_dms_id load_dms_for_owner find_dms put_dms
    signed_checkin_enforced call
is_checked_in = refl

-- nothing fires two hours after the creation
abbrev nothing_fired : Stats
nothing_fired = record {
  dms_scanned = 0;
  dms_fired = 0;
  dms_skipped_not_due = 0;
  envelopes_delivered = 0;
  errors = 0;
}

quiet_run :
    (fire_dms_switches settings unlocked checked_rows two_hours).0
    ≡ ok (nothing_fired, checked_rows)
unfolding fire_dms_switches fire_all fire_if_due is_due call
quiet_run = refl

check_in-fire_dms_switches_example :
    (d : Dms) × (IsCheckedIn (checked, checked_rows) d
      × find_dms "1d" checked_rows.switches ≡ some d)
check_in-fire_dms_switches_example =
    check_in-fire_dms_switches settings unlocked "1d" "a11ce" rows (calm blank 5000 [] healthy)
      two_hours (checked, checked_rows) (nothing_fired, checked_rows) is_checked_in quiet_run
      (omega arith)
