-- ===== src/Dms/Reaper/Outcomes.antt =====
-- What a run of the reaper makes of the recipients of a row, of a row, and of the table.
use morok_relay.Prelude.{ℕ, String, ◌≡◌, Bool, true, false, Option, none, some, List, [], ◌∷◌}
use morok_relay.Redis.{Redis}
use morok_relay.Exec.{World, Outcome, Exn, ok, raised}
use morok_relay.Queue.Model.{Sha256}
use morok_relay.Queue.Enqueue.{write_blob_then_enqueue}
use morok_relay.Dms.{triggered, Recipient, Dms, Settings, Codec}
use morok_relay.Dms.Reaper.{dms_envelope, is_due}

unfoldable pub all_delivered : List Recipient → Bool
all_delivered [] = true
all_delivered (r ∷ rs) =
    let rest = all_delivered rs in elim r.delivered_at [ none ↦ false | some t ↦ rest ]

module _ ⦃R : Redis⦄ ⦃H : Sha256⦄ ⦃C : Codec⦄ (settings : Settings) (relay_priv : String) where
  -- How it ends to put the envelope of a switch for one recipient, with its payload, into the queue,
  -- from the world `w`.
  abbrev pub Attempt : Dms → Recipient → World → Outcome (Option ℕ) × World → Type 0
  Attempt dms r w out =
      write_blob_then_enqueue (dms_envelope settings relay_priv dms r.recipient_pubkey w.now)
        dms.payload_encrypted w
      ≡ out

  -- What one run makes of the recipients of a switch, and of the world.
  pub data Progress (now : ℕ) (dms : Dms)
      : World → List Recipient → List Recipient → World → Type 0 where
    done : {w : World} → Progress now dms w [] [] w
    -- delivered in an earlier run, at the time `t`: not tried again
    had :
        (r : Recipient) (t : ℕ) {w w' : World} {rs rs' : List Recipient}
        → r.delivered_at ≡ some t
        → Progress now dms w rs rs' w'
        → Progress now dms w (r ∷ rs) (r ∷ rs') w'
    -- tried, and the delivery has returned
    got :
        (r : Recipient) {expires_at : Option ℕ} {w v w' : World} {rs rs' : List Recipient}
        → r.delivered_at ≡ none
        → Attempt dms r w (ok expires_at, v)
        → Progress now dms v rs rs' w'
        → Progress now dms w (r ∷ rs) (record r { delivered_at = some now } ∷ rs') w'
    -- tried, and the delivery has raised
    missed :
        (r : Recipient) {e : Exn} {w v w' : World} {rs rs' : List Recipient}
        → r.delivered_at ≡ none
        → Attempt dms r w (raised e, v)
        → Progress now dms v rs rs' w'
        → Progress now dms w (r ∷ rs) (r ∷ rs') w'

  -- what one run makes of a row
  pub data Fired (locked : String → Bool) (now : ℕ) (w : World) (d : Dms)
      : Dms → World → Type 0 where
    left : is_due locked now d ≡ false → Fired locked now w d d w
    retried :
        (rs : List Recipient) {w' : World}
        → is_due locked now d ≡ true
        → Progress now d w d.recipients rs w'
        → all_delivered rs ≡ false
        → Fired locked now w d (record d { recipients = rs }) w'
    released :
        (rs : List Recipient) {w' : World}
        → is_due locked now d ≡ true
        → Progress now d w d.recipients rs w'
        → all_delivered rs ≡ true
        → Fired locked now w d
            (record d {
              recipients = rs;
              status = triggered;
              triggered_at = some now;
              payload_encrypted = "";
            })
            w'

  -- the rows, one after the other
  pub data FiredAll (locked : String → Bool) (now : ℕ)
      : World → List Dms → List Dms → World → Type 0 where
    none_left : {w : World} → FiredAll locked now w [] [] w
    one_more :
        {d e : Dms} {ds es : List Dms} {w v w' : World}
        → Fired locked now w d e v
        → FiredAll locked now v ds es w'
        → FiredAll locked now w (d ∷ ds) (e ∷ es) w'
