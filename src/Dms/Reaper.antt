-- ===== src/Dms/Reaper.antt =====
-- scripts/dms_reaper.py, which fires the switches that are due, and `reap_terminal_dms` of cleanup.py.
-- One run is one transaction. `locked` says which rows a request holds at that time.
pub mod Outcomes
pub mod Rows
use Prim.Native.String.{count}
use morok_relay.Prelude.{
  ℕ, ◌+◌, ◌-◌, ◌*◌, String, Bool, true, false, not, ◌&&◌, Option, none, some, List, [], ◌∷◌, leb,
  ltb, eqb, if◌then◌else◌, suc,
}
use morok_relay.Prelude.Json.{Dict, int, str}
use morok_relay.Redis.{Redis}
use morok_relay.Exec.{World, Exec, Outcome, ok, raised, pure, gets, call, catch_all, ◌>>=◌, ◌>>◌}
use morok_relay.Queue.Model.{Sha256, Envelope}
use morok_relay.Queue.Enqueue.{write_blob_then_enqueue}
use morok_relay.Dms.{
  Status, armed, triggered, cancelled, is_armed, Recipient, Dms, Db, Settings, Codec, Tx,
}

abbrev pub dms_terminal_retention_seconds : ℕ
dms_terminal_retention_seconds = 30 * 86400

pub record Stats : Type 0 where
  pub dms_scanned : ℕ
  pub dms_fired : ℕ
  pub dms_skipped_not_due : ℕ
  pub envelopes_delivered : ℕ
  pub errors : ℕ

abbrev pub no_stats : Stats
no_stats = record {
  dms_scanned = 0;
  dms_fired = 0;
  dms_skipped_not_due = 0;
  envelopes_delivered = 0;
  errors = 0;
}

abbrev pub failed : Stats → Stats
failed stats = record stats { errors = suc stats.errors }

-- `build_dms_attestation_message`
abbrev pub attestation_message : String → String → ℕ → String → String → Dict
attestation_message envelope_id recipient timestamp creator dms_id =
    ("morok_dms_trigger", str "v1")
    ∷ ("envelope_id", str envelope_id)
    ∷ ("to", str recipient)
    ∷ ("ts", int timestamp)
    ∷ ("dms_creator_pubkey", str creator)
    ∷ ("dms_id", str dms_id)
    ∷ []

-- `crypto.SIGNED_FIELDS` of the envelope
abbrev pub signed_fields : String → String → ℕ → ℕ → String → Dict
signed_fields sender recipient timestamp ttl blob =
    ("from", str sender)
    ∷ ("to", str recipient)
    ∷ ("ts", int timestamp)
    ∷ ("ttl", int ttl)
    ∷ ("blob", str blob)
    ∷ []

-- the SQL condition of the rows that are taken
unfoldable pub is_due : (String → Bool) → ℕ → Dms → Bool
is_due locked now dms =
    is_armed dms.status
    && (leb (dms.last_check_in_at + dms.trigger_seconds) now && not (locked dms.id))

module _ ⦃C : Codec⦄ where
  unfoldable pub dms_envelope_id : Dms → String → String
  dms_envelope_id dms recipient = C.digest (dms.id ∷ recipient ∷ dms.payload_encrypted ∷ [])

  unfoldable pub dms_envelope : Settings → String → Dms → String → ℕ → Envelope
  unfolding dms_envelope_id
  dms_envelope settings relay_priv dms recipient now =
      let id = dms_envelope_id dms recipient in
      record {
        envelope_id = id;
        sender = settings.relay_pubkey_hex;
        recipient = recipient;
        timestamp = now;
        ttl_seconds = settings.message_ttl_hard_seconds;
        signature =
            C.sign
              (signed_fields settings.relay_pubkey_hex recipient now
                settings.message_ttl_hard_seconds (C.b64encode dms.payload_encrypted))
              relay_priv;
        hard_ceiling_seconds = settings.message_ttl_hard_seconds;
        sender_username = none;
        sealed = false;
        delete_key_hash = none;
        channel = none;
        mail_from = none;
        mail_origin = none;
        extra_meta =
            ("kind", str "dms_trigger")
            ∷ ("dms_creator_pubkey", str dms.creator_pubkey)
            ∷ ("dms_id", str dms.id)
            ∷ (
              "dms_attestation_sig",
              str (
                  C.sign (attestation_message id recipient now dms.creator_pubkey dms.id)
                    relay_priv),
            )
            ∷ [];
      }

-- the row after its recipients were tried
unfoldable pub settled : ℕ → Dms → List Recipient → Bool → Dms
settled now dms recipients all_delivered =
    if all_delivered
    then record dms {
      recipients = recipients;
      status = triggered;
      triggered_at = some now;
      payload_encrypted = "";
    }
    else record dms { recipients = recipients }

module _ ⦃R : Redis⦄ ⦃H : Sha256⦄ ⦃C : Codec⦄ (settings : Settings) (relay_priv : String) where
  unfoldable pub build_and_deliver_envelope : Dms → String → Exec String
  unfolding dms_envelope write_blob_then_enqueue dms_envelope_id
  build_and_deliver_envelope dms recipient = do
    now ← gets (λ w. w.now)
    write_blob_then_enqueue (dms_envelope settings relay_priv dms recipient now)
        dms.payload_encrypted
    pure (dms_envelope_id dms recipient)

  -- the body of the loop over the recipients: whether this one has it now
  unfoldable pub try_deliver : Dms → String → Exec Bool
  unfolding build_and_deliver_envelope
  try_deliver dms recipient =
      catch_all (build_and_deliver_envelope dms recipient >>= λ _. pure true) (pure false)

  abbrev pub marked : ℕ → Recipient → Bool → Recipient
  marked now r delivered = if delivered then record r { delivered_at = some now } else r

  abbrev pub tallied : Stats → Bool → Stats
  tallied stats delivered =
      if delivered
      then record stats { envelopes_delivered = suc stats.envelopes_delivered }
      else failed stats

  -- the loop: the recipients, whether all have it, the counts
  unfoldable pub deliver_all :
      ℕ → Dms → List Recipient → Stats → Exec (List Recipient × (Bool × Stats))
  unfolding try_deliver
  deliver_all now dms [] stats = pure ([], (true, stats))
  deliver_all now dms (r ∷ rs) stats = elim r.delivered_at [
    | some t ↦ do rest ← deliver_all now dms rs stats; pure (r ∷ rest.0, rest.1)
    | none ↦ do
      delivered ← try_deliver dms r.recipient_pubkey
      rest ← deliver_all now dms rs (tallied stats delivered)
      pure (marked now r delivered ∷ rest.0, (delivered && rest.1.0, rest.1.1))
  ]

  -- the body of the loop over the rows
  unfoldable pub fire_one : ℕ → Dms → Stats → Exec (Dms × Stats)
  unfolding deliver_all settled
  fire_one now dms stats =
      let scanned = record stats { dms_scanned = suc stats.dms_scanned } in
      if ltb (now - dms.last_check_in_at) dms.trigger_seconds
      then pure (dms, record scanned { dms_skipped_not_due = suc scanned.dms_skipped_not_due })
      else do
        result ← deliver_all now dms dms.recipients scanned
        pure (
          settled now dms result.0 result.1.0,
          if result.1.0
              then record result.1.1 { dms_fired = suc result.1.1.dms_fired }
              else result.1.1,
        )

  -- a row that the query takes, and one that it does not
  unfoldable pub fire_if_due : (String → Bool) → ℕ → Dms → Stats → Exec (Dms × Stats)
  unfolding is_due fire_one
  fire_if_due locked now dms stats =
      if is_due locked now dms then fire_one now dms stats else pure (dms, stats)

  unfoldable pub fire_all : (String → Bool) → ℕ → List Dms → Stats → Exec (List Dms × Stats)
  unfolding fire_if_due
  fire_all locked now [] stats = pure ([], stats)
  fire_all locked now (dms ∷ ds) stats = do
    fired ← fire_if_due locked now dms stats
    rest ← fire_all locked now ds fired.1
    pure (fired.0 ∷ rest.0, rest.1)

module _ ⦃R : Redis⦄ ⦃H : Sha256⦄ ⦃C : Codec⦄ where
  -- after the PING
  abbrev pub run_switches : Settings → (String → Bool) → String → ℕ → Bool → Tx Stats
  run_switches settings locked relay_priv now false db = pure (failed no_stats, db)
  run_switches settings locked relay_priv now true db = do
    result ← fire_all settings relay_priv locked now db.switches no_stats
    pure (result.1, record db { switches = result.0 })

  abbrev pub fire_with : Settings → (String → Bool) → Option String → Tx Stats
  fire_with settings locked none db = pure (failed no_stats, db)
  fire_with settings locked (some relay_priv) db =
      if not (eqb (count relay_priv) 32) then pure (failed no_stats, db) else do
        now ← gets (λ w. w.now)
        up ← catch_all (call (λ s. (true, s))) (pure false)
        run_switches settings locked relay_priv now up db

  unfoldable pub fire_dms_switches : Settings → (String → Bool) → Tx Stats
  unfolding fire_all
  fire_dms_switches settings locked db =
      fire_with settings locked (C.from_hex settings.relay_privkey_hex) db

-- `coalesce(cancelled_at, triggered_at)`
abbrev pub ended_at : Dms → Option ℕ
ended_at dms = elim dms.cancelled_at [ none ↦ dms.triggered_at | some t ↦ some t ]

-- `ended_at < now - retention`, kept on one side
unfoldable pub is_reaped : ℕ → Dms → Bool
is_reaped now dms =
    not (is_armed dms.status)
    && elim (ended_at dms) [ none ↦ false | some t ↦ ltb (t + dms_terminal_retention_seconds) now ]

-- the DELETE, with its number of rows
unfoldable pub reap_rows : ℕ → List Dms → ℕ × List Dms
unfolding is_reaped
reap_rows now [] = (0, [])
reap_rows now (d ∷ ds) =
    let (n, rest) = reap_rows now ds in if is_reaped now d then (suc n, rest) else (n, d ∷ rest)

module _ ⦃R : Redis⦄ where
  unfoldable pub reap_terminal_dms : Tx ℕ
  unfolding reap_rows
  reap_terminal_dms db = do
    now ← gets (λ w. w.now)
    let (n, rest) = reap_rows now db.switches
    pure (n, record db { switches = rest })
