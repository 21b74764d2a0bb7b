-- ===== src/Dms/Sound/History.antt =====
-- Every history of requests, of the reaper and of the cleanup keeps each switch sound.
use morok_relay.Prelude.{ℕ, String, ◌≡◌, sym, ap, ◌∙◌, inl, inr, Bool, true, false, Option, some}
use morok_relay.Redis.{Key, Redis}
use morok_relay.Exec.{World, ok}
use morok_relay.Exec.Yields.{Yields, Yields-bind, Yields-pure, Yields-any, Yields-gets}
use morok_relay.Queue.Model.{Sha256}
use morok_relay.Sessions.Value.{Decimal}
use morok_relay.SensitiveAction.{Ed25519, Proof}
use morok_relay.Dms.{Db, Codec, Settings}
use morok_relay.Dms.Requests.{DmsCreate, validate_create}
use morok_relay.Dms.Liveness.{
  touch_owner, touch_owner_at, touch_seen, bump_owner, bump_user, last_seen_throttle_seconds,
  should_bump, first_in_window, bump_last_seen,
}
use morok_relay.Dms.Endpoints.{
  DmsInfo, CheckedIn, SignedCheckIn, create_dms, check_in, check_in_signed, cancel_dms,
}
use morok_relay.Dms.Reaper.{Stats, fire_dms_switches, reap_terminal_dms, reap_rows}
use morok_relay.Dms.Reaper.Rows.{Ran-rows, fire_dms_switches-FiredAll}
use morok_relay.Dms.Table.{All-reap_rows, All-FiredAll}
use morok_relay.Dms.Sound.{AreSound, Fired-IsSound}
use morok_relay.Dms.Sound.Handlers.{
  create_dms-Yields, check_in-Yields, check_in_signed-Yields, cancel_dms-Yields, bump-AreSound,
}

module _ ⦃R : Redis⦄ ⦃H : Sha256⦄ ⦃D : Decimal⦄ ⦃C : Codec⦄ ⦃E : Ed25519⦄
    (settings : Settings) where
  -- A transaction that commits, in any world: any state of Redis, of the network, of the disk and of
  -- the clock. One that raises is rolled back.
  pub data DmsStep : Db → Db → Type 0 where
    creates :
        (w : World) (id pubkey : String) (raw body : DmsCreate) (db : Db) (out : DmsInfo × Db)
        → validate_create raw ≡ some body
        → (create_dms settings id pubkey body db w).0 ≡ ok out
        → DmsStep db out.1
    checks_in :
        (w : World) (dms_id pubkey : String) (db : Db) (out : CheckedIn × Db)
        → (check_in settings dms_id pubkey db w).0 ≡ ok out
        → DmsStep db out.1
    signs_in :
        (w : World) (body : SignedCheckIn) (pubkey : String) (db : Db) (out : (ℕ × ℕ) × Db)
        → (check_in_signed body pubkey db w).0 ≡ ok out
        → DmsStep db out.1
    touches :
        (w : World) (pubkey : String) (db db' : Db)
        → (touch_owner settings pubkey db w).0 ≡ ok db'
        → DmsStep db db'
    cancels :
        (w : World) (dms_id pubkey : String) (proof : Option Proof) (db : Db) (out : Bool × Db)
        → (cancel_dms settings dms_id pubkey proof db w).0 ≡ ok out
        → DmsStep db out.1
    fires :
        (w : World) (locked : String → Bool) (db : Db) (out : Stats × Db)
        → (fire_dms_switches settings locked db w).0 ≡ ok out
        → DmsStep db out.1
    reaps :
        (w : World) (db : Db) (out : ℕ × Db)
        → (reap_terminal_dms db w).0 ≡ ok out
        → DmsStep db out.1

  pub data DmsReach (db : Db) : Db → Type 0 where
    here : DmsReach db db
    next : {u v : Db} → DmsReach db u → DmsStep u v → DmsReach db v

  bumped_owner :
      (pubkey : String) (db : Db) (now : ℕ) (bump : Bool)
      → AreSound db
      → AreSound (bump_owner pubkey db now bump)
  bumped_owner pubkey db now true a = bump-AreSound pubkey now db a
  bumped_owner pubkey db now false a = a

  bumped_user :
      (pubkey : String) (db : Db) (now : ℕ) (bump : Bool)
      → AreSound db
      → Yields AreSound (bump_user pubkey db now bump)
  unfolding bump_last_seen
  bumped_user pubkey db now true a = Yields-pure _ a
  bumped_user pubkey db now false a = Yields-pure db a

  touched :
      (pubkey : String) (db : Db) → AreSound db → Yields AreSound (touch_owner settings pubkey db)
  unfolding touch_owner touch_owner_at touch_seen
  touched pubkey db a =
      Yields-gets (λ w. w.now) (touch_owner_at settings pubkey db)
        (λ now.
          Yields-bind (should_bump settings pubkey) (touch_seen pubkey db now) (Yields-any _)
            (λ bump _.
              Yields-bind
                (first_in_window (Key.last_seen_throttle pubkey) last_seen_throttle_seconds)
                (bump_user pubkey (bump_owner pubkey db now bump) now) (Yields-any _)
                (λ seen _. bumped_user pubkey _ now seen (bumped_owner pubkey db now bump a))))

  reaped :
      (w : World) (db : Db) (out : ℕ × Db)
      → AreSound db
      → (reap_terminal_dms db w).0 ≡ ok out
      → AreSound out.1
  unfolding reap_terminal_dms
  reaped w db out a h =
      let reply : ℕ × Db = (
        (reap_rows w.now db.switches).0,
        record db { switches = (reap_rows w.now db.switches).1 },
      ) in
      let same : reply ≡ out = cc in
      rw (ap (λ o. o.1.switches) (sym same)) (All-reap_rows w.now db.switches a)

  fired :
      (locked : String → Bool) (db : Db) (w : World) (out : Stats × Db)
      → AreSound db
      → (fire_dms_switches settings locked db w).0 ≡ ok out
      → AreSound out.1
  fired locked db w out a h =
      let (made, (v, (returned, ran))) = fire_dms_switches-FiredAll settings locked db w in
      let same : made ≡ out = cc in
      elim (Ran-rows settings locked ran) [
        | inl idle ↦ rw (ap (λ o. o.1.switches) (sym same) ∙ idle) a
        | inr (priv, (u, did)) ↦
            rw (ap (λ o. o.1.switches) (sym same)) (All-FiredAll Fired-IsSound did a)
      ]

  -- From tables in which each switch is sound - an armed one has a payload and no end, each
  -- recipient of a triggered one has a delivery time, neither a triggered nor a cancelled one has its
  -- payload any more, and a cancelled one has not been triggered - every history of transactions
  -- leads to such tables.
  pub DmsReach-AreSound : {u v : Db} → DmsReach u v → AreSound u → AreSound v
  DmsReach-AreSound here a = a
  DmsReach-AreSound (next r (creates w id pubkey raw body db out valid h)) a =
      (create_dms-Yields settings id pubkey raw body db valid (DmsReach-AreSound r a)).yields w out
        h
  DmsReach-AreSound (next r (checks_in w dms_id pubkey db out h)) a =
      (check_in-Yields settings dms_id pubkey db (DmsReach-AreSound r a)).yields w out h
  DmsReach-AreSound (next r (signs_in w body pubkey db out h)) a =
      (check_in_signed-Yields body pubkey db (DmsReach-AreSound r a)).yields w out h
  DmsReach-AreSound (next r (touches w pubkey db db' h)) a =
      (touched pubkey db (DmsReach-AreSound r a)).yields w db' h
  DmsReach-AreSound (next r (cancels w dms_id pubkey proof db out h)) a =
      (cancel_dms-Yields settings dms_id pubkey proof db (DmsReach-AreSound r a)).yields w out h
  DmsReach-AreSound (next r (fires w locked db out h)) a =
      fired locked db w out (DmsReach-AreSound r a) h
  DmsReach-AreSound (next r (reaps w db out h)) a = reaped w db out (DmsReach-AreSound r a) h
