-- ===== src/Dms/Reaper/Rows.antt =====
-- What a run of the reaper does to each row.
use Prim.Native.String.{count}
use morok_relay.Prelude.{
  ℕ, ◌+◌, ◌-◌, ◌≤◌, String, ◌≡◌, refl, sym, ap, suc, inl, inr, ◌⊎◌, Bool, true, false, ◌&&◌, Option,
  none, some, List, [], ◌∷◌, arith, ltb, eqb, Bool-cases, if◌then◌else◌,
}
use morok_relay.Redis.{Redis}
use morok_relay.Exec.{World, Exn, ok, raised, call}
use morok_relay.Exec.Runs.{Runs, ended, returned, failed}
use morok_relay.Exec.Yields.{call_reply}
use morok_relay.Queue.Model.{Sha256}
use morok_relay.Queue.Enqueue.{write_blob_then_enqueue}
use morok_relay.Dms.{Recipient, Dms, Db, Settings, Codec}
use morok_relay.Dms.Reaper.Outcomes.{
  all_delivered, Attempt, Progress, done, had, got, missed, Fired, left, retried, released,
  FiredAll, none_left, one_more,
}
use morok_relay.Dms.Reaper.{
  failed as bad, Stats, no_stats, build_and_deliver_envelope, dms_envelope, is_due, settled,
  try_deliver, marked, tallied, deliver_all, fire_one, fire_if_due, fire_all, fire_with,
  fire_dms_switches,
}

some-cases : (o : Option ℕ) → ((t : ℕ) × o ≡ some t) ⊎ (o ≡ none)
some-cases none = inr refl
some-cases (some t) = inl (t, refl)

pub due-old :
    (locked : String → Bool) (now : ℕ) (d : Dms)
    → is_due locked now d ≡ true
    → d.last_check_in_at + d.trigger_seconds ≤ now
unfolding is_due
due-old locked now d h = ground (arith, h)

old : (now last trigger : ℕ) → last + trigger ≤ now → ltb (now - last) trigger ≡ false
old now last trigger h = ground (arith, h)

module _ ⦃R : Redis⦄ ⦃H : Sha256⦄ ⦃C : Codec⦄ (settings : Settings) (relay_priv : String) where
  abbrev Delivered :
      ℕ → Dms → World → List Recipient → List Recipient × (Bool × Stats) → World → Type 0
  Delivered now dms w rs out w' =
      Progress settings relay_priv now dms w rs out.0 w' × out.1.0 ≡ all_delivered out.0

  -- what `try_deliver` answers, and what has happened
  pub data Tried (dms : Dms) (r : Recipient) (w : World) : Bool → World → Type 0 where
    arrived :
        {expires_at : Option ℕ} {v : World}
        → Attempt settings relay_priv dms r w (ok expires_at, v)
        → Tried dms r w true v
    lost :
        {e : Exn} {v : World}
        → Attempt settings relay_priv dms r w (raised e, v)
        → Tried dms r w false v

  try_deliver-Runs :
      (dms : Dms) (r : Recipient) (w : World)
      → Runs (try_deliver settings relay_priv dms r.recipient_pubkey) w (Tried dms r w)
  unfolding try_deliver build_and_deliver_envelope
  try_deliver-Runs dms r w =
      elim (ended (
        write_blob_then_enqueue (dms_envelope settings relay_priv dms r.recipient_pubkey w.now)
          dms.payload_encrypted w)) [
            | returned x v e ↦ (true, (v, (rw e refl, arrived e)))
            | failed x v e ↦ (false, (v, (rw e refl, lost e)))
          ]

  tried :
      (now : ℕ) (dms : Dms) (r : Recipient) (delivered all : Bool) (w v w' : World)
      (rs rs' : List Recipient) (stats : Stats)
      → r.delivered_at ≡ none
      → Tried dms r w delivered v
      → Progress settings relay_priv now dms v rs rs' w'
      → all ≡ all_delivered rs'
      → Delivered now dms w
          (r ∷ rs)
          (marked settings relay_priv now r delivered ∷ rs', (delivered && all, stats))
          w'
  unfolding all_delivered
  tried now dms r true all w v w' rs rs' stats h (arrived a) p e = (got r h a p, e)
  tried now dms r false all w v w' rs rs' stats h (lost a) p e = (missed r h a p, rw h refl)

  kept :
      (r : Recipient) (t : ℕ) (rest : List Recipient × (Bool × Stats))
      → r.delivered_at ≡ some t
      → rest.1.0 ≡ all_delivered rest.0
      → rest.1.0 ≡ all_delivered (r ∷ rest.0)
  unfolding all_delivered
  kept r t rest h e = simp (h, e)

  deliver_all-Runs :
      (now : ℕ) (dms : Dms) (rs : List Recipient) (stats : Stats) (w : World)
      → Runs (deliver_all settings relay_priv now dms rs stats) w (Delivered now dms w rs)
  unfolding deliver_all all_delivered
  deliver_all-Runs now dms [] stats w = (_, (w, (refl, (done, refl))))
  deliver_all-Runs now dms (r ∷ rs) stats w = elim (some-cases r.delivered_at) [
    | inl (t, h) ↦
        let (rest, (w', (made, p))) = deliver_all-Runs now dms rs stats w in
        ((r ∷ rest.0, rest.1), (w', (simp h (rw made refl), (had r t h p.0, kept r t rest h p.1))))
    | inr h ↦
        let (delivered, (v, (first, is))) = try_deliver-Runs dms r w in
        let (rest, (w', (made, p))) =
          deliver_all-Runs now dms rs (tallied settings relay_priv stats delivered) v in
        (
          (marked settings relay_priv now r delivered ∷ rest.0, (delivered && rest.1.0, rest.1.1)),
          (
            w',
            (
              simp h (rw (first, made) refl),
              tried now dms r delivered rest.1.0 w v w' rs rest.0 rest.1.1 h is p.0 p.1,
            ),
          ),
        )
  ]

  settled-Fired :
      (locked : String → Bool) (now : ℕ) (d : Dms) (rs : List Recipient) (all : Bool) (w w' : World)
      → is_due locked now d ≡ true
      → Progress settings relay_priv now d w d.recipients rs w'
      → all ≡ all_delivered rs
      → Fired settings relay_priv locked now w d (settled now d rs all) w'
  unfolding settled
  settled-Fired locked now d rs true w w' due p e = released rs due p (sym e)
  settled-Fired locked now d rs false w w' due p e = retried rs due p (sym e)

  fire_if_due-Runs :
      (locked : String → Bool) (now : ℕ) (d : Dms) (stats : Stats) (w : World)
      → Runs
          (fire_if_due settings relay_priv locked now d stats)
          w
          (λ out w'. Fired settings relay_priv locked now w d out.0 w')
  unfolding fire_if_due fire_one
  fire_if_due-Runs locked now d stats w = elim (Bool-cases (is_due locked now d)) [
    | inl due ↦
        let ready : ltb (now - d.last_check_in_at) d.trigger_seconds ≡ false =
          old _ _ _ (due-old locked now d due) in
        let (out, (w', (made, p))) =
          deliver_all-Runs now d d.recipients (record stats { dms_scanned = suc stats.dms_scanned })
            w in
        (
          (
            settled now d out.0 out.1.0,
            if out.1.0 then record out.1.1 { dms_fired = suc out.1.1.dms_fired } else out.1.1,
          ),
          (
            w',
            (rw (due, ready, made) refl, settled-Fired locked now d out.0 out.1.0 w w' due p.0 p.1),
          ),
        )
    | inr idle ↦ ((d, stats), (w, (rw idle refl, left idle)))
  ]

  pub fire_all-Runs :
      (locked : String → Bool) (now : ℕ) (ds : List Dms) (stats : Stats) (w : World)
      → Runs
          (fire_all settings relay_priv locked now ds stats)
          w
          (λ out w'. FiredAll settings relay_priv locked now w ds out.0 w')
  unfolding fire_all
  fire_all-Runs locked now [] stats w = (([], stats), (w, (refl, none_left)))
  fire_all-Runs locked now (d ∷ ds) stats w =
      let (fired, (v, (first, p))) = fire_if_due-Runs locked now d stats w in
      let (rest, (w', (made, q))) = fire_all-Runs locked now ds fired.1 v in
      ((fired.0 ∷ rest.0, rest.1), (w', (rw (first, made) refl, one_more p q)))

module _ ⦃R : Redis⦄ where
  pong : (w : World) (b : Bool) (v : World) → call (λ s. (true, s)) w ≡ (ok b, v) → b ≡ true
  pong w b v h = call_reply (λ s. (true, s)) w b (ap (λ r. r.0) h)

module _ ⦃R : Redis⦄ ⦃H : Sha256⦄ ⦃C : Codec⦄ (settings : Settings) (locked : String → Bool) where
  -- What a run does: nothing without a usable key, nothing if the PING fails, and otherwise it does
  -- to each row what `Fired` says.
  pub data Ran (w : World) (db : Db) : Stats × Db → World → Type 0 where
    no_key : (stats : Stats) → C.from_hex settings.relay_privkey_hex ≡ none → Ran w db (stats, db) w
    bad_key :
        (stats : Stats) (priv : String)
        → C.from_hex settings.relay_privkey_hex ≡ some priv
        → eqb (count priv) 32 ≡ false
        → Ran w db (stats, db) w
    no_ping :
        (stats : Stats) (e : Exn) {v : World}
        → call (λ s. (true, s)) w ≡ (raised e, v)
        → Ran w db (stats, db) v
    fired :
        (stats : Stats) (priv : String) {rows : List Dms} {v w' : World}
        → C.from_hex settings.relay_privkey_hex ≡ some priv
        → eqb (count priv) 32 ≡ true
        → call (λ s. (true, s)) w ≡ (ok true, v)
        → FiredAll settings priv locked w.now v db.switches rows w'
        → Ran w db (stats, record db { switches = rows }) w'

  -- the rows as they were, or each of them fired or left
  pub Ran-rows :
      {w w' : World} {db : Db} {out : Stats × Db}
      → Ran w db out w'
      → (out.1.switches ≡ db.switches)
        ⊎ ((priv : String) × ((v : World) × FiredAll settings priv locked w.now v db.switches
                out.1.switches w'))
  Ran-rows (no_key stats h) = inl refl
  Ran-rows (bad_key stats priv h b) = inl refl
  Ran-rows (no_ping stats e h) = inl refl
  Ran-rows (fired stats priv {v = v} h b c f) = inr (priv, (v, f))

  fire_with-Runs :
      (o : Option String) (db : Db) (w : World)
      → C.from_hex settings.relay_privkey_hex ≡ o
      → Runs (fire_with settings locked o db) w (Ran w db)
  fire_with-Runs none db w h = ((bad no_stats, db), (w, (refl, no_key _ h)))
  fire_with-Runs (some priv) db w h = elim (Bool-cases (eqb (count priv) 32)) [
    | inr wrong ↦ ((bad no_stats, db), (w, (rw wrong refl, bad_key _ priv h wrong)))
    | inl right ↦ elim (ended (call (λ s. (true, s)) w)) [
      | failed e v down ↦ ((bad no_stats, db), (v, (rw (right, down) refl, no_ping _ e down)))
      | returned b v up ↦
          let is_true : b ≡ true = pong w b v up in
          let (out, (w', (made, p))) =
            fire_all-Runs settings priv locked w.now db.switches no_stats v in
          let up' : call (λ s. (true, s)) w ≡ (ok true, v) = rw is_true at up in
          (
            (out.1, record db { switches = out.0 }),
            (w', (rw (right, up', made) refl, fired out.1 priv h right up' p)),
          )
    ]
  ]

  -- A run of the reaper does not raise. If the relay's private key is not 32 bytes of hex, or if the
  -- PING fails, it leaves the tables as they are. Otherwise it takes the rows one after the other. Of
  -- one that is armed, was not checked in for its seconds and is not held by a request, it tries to put the payload into the queue of each recipient who has no delivery time,
  -- in order, and gives those the time of this run for whom that has returned and not those for whom
  -- it has raised; it triggers the row and erases its payload if and only if each recipient has a
  -- time then. The other rows stay as they are.
  pub fire_dms_switches-FiredAll :
      (db : Db) (w : World) → Runs (fire_dms_switches settings locked db) w (Ran w db)
  unfolding fire_dms_switches
  fire_dms_switches-FiredAll db w = fire_with-Runs (C.from_hex settings.relay_privkey_hex) db w refl
