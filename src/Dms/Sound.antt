-- ===== src/Dms/Sound.antt =====
-- What the status of a switch promises of the other columns.
pub mod Handlers
pub mod History
use Prim.Native.String.{count}
use morok_relay.Prelude.{
  ℕ, ◌+◌, String, ◌≡◌, refl, sym, ap, ◌∙◌, inl, inr, ◌⊎◌, Bool, true, false, not, ◌&&◌, Option,
  none, some, List, [], ◌∷◌, ◌++◌, arith, eqb, Bool-cases, eq_iff, if◌then◌else◌,
}
use morok_relay.Queue.Model.{Sha256}
use morok_relay.Dms.{
  Status, armed, triggered, cancelled, is_armed, Tier, Dms, Db, User, Codec, Settings,
}
use morok_relay.Redis.{Redis}
use morok_relay.Exec.{World, Exec, Outcome, ok, raised, raise_if, pure, gets, ◌>>=◌}
use morok_relay.Exec.Yields.{
  Yields, Yields-bind, Yields-pure, Yields-any, Yields-guard, Yields-gets, Yields-raise,
  Returns-Yields,
}
use morok_relay.Sessions.Value.{Decimal}
use morok_relay.SensitiveAction.{Ed25519, Proof, enforce_sensitive_action}
use morok_relay.Dms.Requests.{
  DmsCreate, validate_create, with_recipients, validate_recipients, is_payload,
}
use morok_relay.Dms.Liveness.{
  bumped, is_armed_of, bump_check_in, signed_checkin_enforced, remember_signed_checkin,
}
use morok_relay.Dms.Endpoints.{
  find_dms, put_dms, the_user, get_current_user, find_user, or_value_error, new_dms, or_not_found,
  load_dms_for_owner, own_dms, parse_dms_id, check_in, check_in_by, check_in_row, checked_in,
  SignedCheckIn, check_in_signed, check_in_signed_at, check_signed, signed_in, cancel_armed,
  cancel_by_status, cancel_dms, scrubbed, create_dms, create_dms_at, within_quota, add_dms,
  with_payload, check_recipients,
}
use morok_relay.Dms.Reaper.{is_due}
use morok_relay.Dms.Table.{
  All, All-find_dms, All-put_dms, All-map, All-add, All-reap_rows, All-FiredAll, find_dms-id,
}
use morok_relay.Dms.Reaper.Outcomes.{all_delivered, Fired, left, retried, released}

abbrev pub is_given : Option ℕ → Bool
is_given none = false
is_given (some t) = true

-- An armed switch has a payload and no end; each recipient of a triggered one has a delivery time,
-- a cancelled one has not been triggered, and neither has a payload any more.
abbrev pub is_sound_as : Status → Dms → Bool
is_sound_as armed d =
    not (eqb (count d.payload_encrypted) 0)
    && (not (is_given d.triggered_at) && not (is_given d.cancelled_at))
is_sound_as triggered d =
    eqb (count d.payload_encrypted) 0
    && (is_given d.triggered_at && (not (is_given d.cancelled_at) && all_delivered d.recipients))
is_sound_as cancelled d =
    eqb (count d.payload_encrypted) 0 && (is_given d.cancelled_at && not (is_given d.triggered_at))

unfoldable pub is_sound : Dms → Bool
is_sound d = is_sound_as d.status d

pub record IsSound (d : Dms) : Type 0 where
  pub sound : is_sound d ≡ true

pub armed_status : (s : Status) → is_armed s ≡ true → s ≡ armed
armed_status armed h = refl
armed_status triggered h = cc
armed_status cancelled h = cc

pub due-armed :
    (locked : String → Bool) (now : ℕ) (d : Dms) → is_due locked now d ≡ true → d.status ≡ armed
unfolding is_due
due-armed locked now d h = armed_status d.status (ground (arith, h))

module _ ⦃R : Redis⦄ ⦃H : Sha256⦄ ⦃C : Codec⦄ where
  pub Fired-IsSound :
      {settings : Settings} {relay_priv : String} {locked : String → Bool} {now : ℕ} (d e : Dms)
      (w w' : World)
      → Fired settings relay_priv locked now w d e w'
      → IsSound d
      → IsSound e
  unfolding is_sound
  Fired-IsSound d e w w' (left idle) h = h
  Fired-IsSound d e w w' (retried rs due p a) h =
      let is = due-armed _ _ d due in
      let good = simp is at h.sound in record { sound = simp is good }
  Fired-IsSound d e w w' (released rs due p a) h =
      let is = due-armed _ _ d due in
      let good = simp is at h.sound in record { sound = ground (arith, good, a) }

checked_sound :
    (now : ℕ) (s : Status) (d : Dms)
    → is_sound_as s d ≡ is_sound_as s (record d { last_check_in_at = now })
checked_sound now armed d = refl
checked_sound now triggered d = refl
checked_sound now cancelled d = refl

pub checked-IsSound :
    (now : ℕ) (d : Dms) → IsSound d → IsSound (record d { last_check_in_at = now })
unfolding is_sound
checked-IsSound now d h = record { sound = sym (checked_sound now d.status d) ∙ h.sound }

pub bumped-IsSound :
    (pubkey : String) (now : ℕ) (d : Dms) → IsSound d → IsSound (bumped pubkey now d)
unfolding is_sound
bumped-IsSound pubkey now d h = elim (Bool-cases (is_armed_of pubkey d)) [
  | inl mine ↦ simp mine (checked-IsSound now d h)
  | inr other ↦ simp other h
]

abbrev pub AreSound : Db → Type 0
AreSound db = All IsSound db.switches
