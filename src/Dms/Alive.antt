-- ===== src/Dms/Alive.antt =====
-- The owner is alive: what a check-in does to the reaper, and the switch to signed check-ins.
use morok_relay.Prelude.{
  ℕ, ◌+◌, ◌<◌, String, ◌≡◌, refl, sym, inl, inr, Bool, true, false, not, some, List, arith, leb,
  elem, eq_refl, Bool-cases,
}
use morok_relay.Redis.{Key, Redis, elapsed, set, text}
use morok_relay.Redis.Pipeline.{◌▸◌, exists}
use morok_relay.Exec.{World, Outcome, ok, raised, http, gets, raise_if, continue, calm, call, ◌>>=◌}
use morok_relay.Exec.Yields.{
  Yields, Yields-bind, Yields-pure, Yields-any, Yields-gets, Yields-guard,
}
use morok_relay.Queue.Model.{Sha256}
use morok_relay.SensitiveAction.{Ed25519}
use morok_relay.Dms.{armed, is_armed, Dms, Db, Codec, Settings}
use morok_relay.Dms.Liveness.{
  ttl_seconds, signed_checkin_enforced, remember_signed_checkin, touch_owner, touch_owner_at,
  touch_seen, should_bump, bump_user, bump_last_seen, first_in_window, last_seen_throttle_seconds,
}
use morok_relay.Dms.Endpoints.{
  CheckedIn, SignedCheckIn, find_dms, own_dms, check_in, check_in_by, check_in_row, checked_in,
  check_in_signed, check_in_signed_at, check_signed, signed_in,
}
use morok_relay.Dms.Reaper.{Stats, is_due, fire_dms_switches}
use morok_relay.Dms.Reaper.Outcomes.{Fired, left, retried, released}
use morok_relay.Dms.Reaper.Rows.{due-old, Ran-rows, fire_dms_switches-FiredAll}
use morok_relay.Dms.Table.{find_dms-FiredAll, find_dms-put_dms}
use morok_relay.Dms.Sound.{armed_status}
use morok_relay.Dms.Sound.Handlers.{own_dms-Yields}

-- a row that is not due is left
module _ ⦃R : Redis⦄ ⦃H : Sha256⦄ ⦃C : Codec⦄ where
  Fired-same :
      {settings : Settings} {relay_priv : String} {locked : String → Bool} {now : ℕ} (d e : Dms)
      {w w' : World}
      → Fired settings relay_priv locked now w d e w'
      → is_due locked now d ≡ false
      → e ≡ d
  Fired-same d e (left idle) h = refl
  Fired-same d e (retried rs due p a) h = cc
  Fired-same d e (released rs due p a) h = cc

early :
    (locked : String → Bool) (now : ℕ) (d : Dms)
    → now < d.last_check_in_at + d.trigger_seconds
    → is_due locked now d ≡ false
early locked now d h = elim (Bool-cases (is_due locked now d)) [
  | inl due ↦ absurd (omega (arith, due-old locked now d due, h))
  | inr idle ↦ idle
]

-- the answer of a check-in, and the row that it names
abbrev pub IsCheckedIn : CheckedIn × Db → Dms → Type 0
IsCheckedIn out d =
    find_dms out.0.dms_id out.1.switches ≡ some d
    × (d.status ≡ armed × out.0.fires_at ≡ d.last_check_in_at + d.trigger_seconds)

module _ ⦃R : Redis⦄ ⦃C : Codec⦄ where
  check_in_row-Yields :
      (db : Db) (c : Dms)
      → find_dms c.id db.switches ≡ some c
      → Yields (λ out. (d : Dms) × IsCheckedIn out d) (check_in_row db c)
  unfolding check_in_row
  check_in_row-Yields db c here =
      Yields-guard (not (is_armed c.status)) _ (gets (λ w. w.now) >>= checked_in c db) (λ armed_row.
        Yields-gets (λ w. w.now) (checked_in c db)
          (λ now. Yields-pure _ (
            record c { last_check_in_at = now },
            (
              find_dms-put_dms (record c { last_check_in_at = now }) db.switches c here,
              (armed_status c.status (ground (arith, armed_row)), refl),
            ),
          )))

  check_in-Yields :
      (settings : Settings) (dms_id pubkey : String) (db : Db)
      → Yields (λ out. (d : Dms) × IsCheckedIn out d) (check_in settings dms_id pubkey db)
  unfolding check_in check_in_by
  check_in-Yields settings dms_id pubkey db =
      Yields-bind (signed_checkin_enforced settings pubkey) (check_in_by dms_id pubkey db)
        (Yields-any _)
        (λ enforced _.
          Yields-bind (raise_if enforced _) (λ _. own_dms dms_id pubkey db >>= check_in_row db)
            (Yields-any _)
            (λ _ _.
              Yields-bind (own_dms dms_id pubkey db) (check_in_row db)
                (own_dms-Yields dms_id pubkey db) (λ d p. check_in_row-Yields db d p.0)))

  module _ ⦃H : Sha256⦄ where
    -- A check-in that was answered postpones the switch: every run of the reaper before the time
    -- `fires_at` of the answer leaves the row armed and as the check-in wrote it.
    pub check_in-fire_dms_switches :
        (settings : Settings) (locked : String → Bool) (dms_id pubkey : String) (db : Db)
        (w w' : World) (out : CheckedIn × Db) (run : Stats × Db)
        → (check_in settings dms_id pubkey db w).0 ≡ ok out
        → (fire_dms_switches settings locked out.1 w').0 ≡ ok run
        → w'.now < out.0.fires_at
        → (d : Dms) × (IsCheckedIn out d × find_dms out.0.dms_id run.1.switches ≡ some d)
    check_in-fire_dms_switches settings locked dms_id pubkey db w w' out run h fire soon =
        let (d, is) = (check_in-Yields settings dms_id pubkey db).yields w out h in
        let (made, (v, (returned, ran))) = fire_dms_switches-FiredAll settings locked out.1 w' in
        let same : made ≡ run = cc in
        (
          d,
          (
            is,
            rw (sym same) (elim (Ran-rows settings locked ran) [
              | inl idle ↦ rw idle is.0
              | inr (priv, (u, did)) ↦
                  let (e, (u', (u'', (found, one)))) = find_dms-FiredAll out.0.dms_id d did is.0 in
                  rw
                    (sym (Fired-same d e one (early locked w'.now d (omega (arith, soon, is.1.1)))))
                    found
            ]),
          ),
        )

module _ ⦃R : Redis⦄ ⦃C : Codec⦄ ⦃E : Ed25519⦄ (pubkey : String) (t : ℕ)
    (d : List (String × String)) (k : String → Bool) where
  check_signed-world :
      (body : SignedCheckIn) (now : ℕ) (w : World) → (check_signed body pubkey now w).1 ≡ w
  check_signed-world body now w = ground arith

  marked_after :
      (o : Outcome (Unit {0})) (db : Db) (s : R.Store) (out : (ℕ × ℕ) × Db)
      → (continue (λ _. signed_in pubkey db t) o (calm s t d k)).0 ≡ ok out
      → (continue (λ _. signed_in pubkey db t) o (calm s t d k)).1.db
        ≡ s ▸ set (Key.signed_checkin pubkey) (text "1") (some ttl_seconds)
  unfolding remember_signed_checkin call
  marked_after (ok x) db s out h = refl
  marked_after (raised e) db s out h = cc

  check_in_signed-db :
      (body : SignedCheckIn) (db : Db) (s : R.Store) (out : (ℕ × ℕ) × Db)
      → (check_in_signed body pubkey db (calm s t d k)).0 ≡ ok out
      → (check_in_signed body pubkey db (calm s t d k)).1.db
        ≡ s ▸ set (Key.signed_checkin pubkey) (text "1") (some ttl_seconds)
  unfolding check_in_signed check_in_signed_at
  check_in_signed-db body db s out h =
      let same = check_signed-world body t (calm s t d k) in
      let h' = rw same at h in
      rw same (marked_after (check_signed body pubkey t (calm s t d k)).0 db s out h')

  module _ (settings : Settings)
      (required : elem "dms_checkin" settings.action_proof_required ≡ true) where
    enforced :
        (s : R.Store) (t' : ℕ)
        → exists (Key.signed_checkin pubkey) s ≡ true
        → signed_checkin_enforced settings pubkey (calm s t' d k) ≡ (ok true, calm s t' d k)
    unfolding signed_checkin_enforced call
    enforced s t' there = simp (required, there)

    still_marked :
        (s s' : R.Store) (e : ℕ)
        → e < ttl_seconds
        → R.at s' (Key.signed_checkin pubkey)
          ≡ elapsed e (
              R.at
                (s ▸ set (Key.signed_checkin pubkey) (text "1") (some ttl_seconds))
                (Key.signed_checkin pubkey))
        → exists (Key.signed_checkin pubkey) s' ≡ true
    still_marked s s' e young h =
        let h' = simp (R.at_run, eq_refl) at h in
        let within : leb ttl_seconds e ≡ false = ground (arith, young) in rw h' (rw within refl)

    bumped_user :
        (db : Db) (n : ℕ) (bump : Bool)
        → Yields (λ db'. db'.switches ≡ db.switches) (bump_user pubkey db n bump)
    unfolding bump_last_seen
    bumped_user db n true = Yields-pure _ refl
    bumped_user db n false = Yields-pure db refl

    touch_seen-switches :
        (db db' : Db) (n : ℕ) (w : World)
        → (touch_seen pubkey db n false w).0 ≡ ok db'
        → db'.switches ≡ db.switches
    unfolding touch_seen
    touch_seen-switches db db' n w h =
        (Yields-bind (first_in_window (Key.last_seen_throttle pubkey) last_seen_throttle_seconds)
            (bump_user pubkey db n) (Yields-any _) (λ seen _. bumped_user db n seen)).yields
          w db' h

    -- After a signed check-in that was accepted, for 400 days and while signed check-ins are
    -- required, the bearer token alone is no sign of life: a check-in with it is answered by 410, and a
    -- request with it leaves the switches as they are.
    pub check_in_signed-check_in :
        (body : SignedCheckIn) (db : Db) (s : R.Store) (out : (ℕ × ℕ) × Db) (s' : R.Store)
        (t' e : ℕ)
        → (check_in_signed body pubkey db (calm s t d k)).0 ≡ ok out
        → R.at s' (Key.signed_checkin pubkey)
          ≡ elapsed e (
              R.at (check_in_signed body pubkey db (calm s t d k)).1.db (Key.signed_checkin pubkey))
        → e < ttl_seconds
        → (dms_id : String) (db' db'' : Db)
        → (touch_owner settings pubkey db' (calm s' t' d k)).0 ≡ ok db''
        → (check_in settings dms_id pubkey db' (calm s' t' d k)).0
            ≡ raised (http 410 "signed_checkin_required")
          × db''.switches ≡ db'.switches
    unfolding check_in check_in_by touch_owner touch_owner_at should_bump
    check_in_signed-check_in body db s out s' t' e h later young dms_id db' db'' h' =
        let marked = rw (check_in_signed-db body db s out h) at later in
        let strict = enforced s' t' (still_marked s s' e young marked) in
        let h'' = rw strict at h' in (rw strict refl, touch_seen-switches db' db'' t' _ h'')
