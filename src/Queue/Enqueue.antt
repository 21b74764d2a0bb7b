-- ===== src/Queue/Enqueue.antt =====
-- queue.py: `enqueue_envelope` and `write_blob_then_enqueue`.
pub mod Outcomes
pub mod Contract
use morok_relay.Prelude.{
  ℕ, ◌+◌, ◌-◌, String, Bool, true, false, not, ◌&&◌, Option, none, some, List, [], ◌∷◌, ◌++◌, ◌==◌,
  leb, max, if◌then◌else◌,
}
use morok_relay.Prelude.Json.{Dict}
use morok_relay.Redis.{
  Key, Command, Redis, document, text, set, set_nx, del, expire, zadd, sadd, publish,
}
use morok_relay.Redis.Pipeline.{◌▸◌, exists, run_all}
use morok_relay.Exec.{
  World, Exec, Outcome, ok, raised, rejected, value_error, pure, raise, gets, call, command,
  catch_all, on_rejected, raise_if, ◌>>=◌, ◌>>◌,
}
use morok_relay.Blob.{write_blob, secure_delete_blob}
use morok_relay.Queue.Model.{
  Sha256, Envelope, expiry, meta_of, new_event, sender_tombstone_value, max_inbox_queue_depth,
  inbox_key_ttl_slack_seconds, tombstone_extra_ttl_seconds,
}
use morok_relay.Queue.Scripts.{inbox_enqueue_lua}

-- the tombstone, which outlives the metadata; a sealed envelope has none
unfoldable pub tombstone_commands : ⦃H : Sha256⦄ → Envelope → ℕ → List Command
tombstone_commands e ttl =
    if not e.sealed && not (e.sender == "")
    then set (Key.env_tomb e.envelope_id) (text (sender_tombstone_value e.sender e.recipient))
        (some (ttl + tombstone_extra_ttl_seconds))
      ∷ []
    else []

-- the transaction that follows the insertion
unfoldable pub enqueue_commands : ⦃H : Sha256⦄ → Envelope → ℕ → ℕ → List Command
enqueue_commands e expires_at ttl =
    expire (Key.inbox e.recipient) (max ttl 60 + inbox_key_ttl_slack_seconds)
    ∷ publish e.recipient (new_event e.envelope_id)
    ∷ sadd (Key.pending e.envelope_id) e.recipient
    ∷ expire (Key.pending e.envelope_id) ttl
    ∷ zadd Key.blob_expiry_index e.envelope_id expires_at
    ∷ tombstone_commands e ttl

module _ ⦃R : Redis⦄ ⦃H : Sha256⦄ where
  abbrev pub or_value_error : Option Dict → Exec Dict
  or_value_error none = raise value_error
  or_value_error (some meta) = pure meta

  -- `try: redis.delete(meta key) except Exception: pass`
  unfoldable pub drop_meta : String → Exec (Unit {0})
  drop_meta envelope_id = catch_all (command (del (Key.envelope envelope_id))) (pure tt)

  -- SET NX: the gate against duplicates
  unfoldable pub claim : String → Dict → ℕ → R.Store → Bool × R.Store
  claim envelope_id meta ttl s = (
    not (exists (Key.envelope envelope_id) s),
    s ▸ set_nx (Key.envelope envelope_id) (document meta) ttl,
  )

  unfoldable pub announce : Envelope → ℕ → ℕ → Exec (Option ℕ)
  announce e now expires_at = do
    call (λ s. (tt, run_all (enqueue_commands e expires_at (expires_at - now)) s))
    pure (some expires_at)

  unfoldable pub insert_and_announce : Envelope → ℕ → ℕ → Exec (Option ℕ)
  unfolding drop_meta announce
  insert_and_announce e now expires_at = do
    inserted ←
        catch_all
          (call (
            inbox_enqueue_lua (Key.inbox e.recipient) now e.envelope_id expires_at
              max_inbox_queue_depth))
          (drop_meta e.envelope_id >> raise (rejected 503 "queue_backend_unavailable"))
    if inserted
        then announce e now expires_at
        else do drop_meta e.envelope_id; raise (rejected 429 "recipient_queue_full")

  unfoldable pub enqueue_envelope : Envelope → Exec (Option ℕ)
  unfolding claim insert_and_announce
  enqueue_envelope e = do
    now ← gets (λ w. w.now)
    let expires_at = expiry e.timestamp e.ttl_seconds now e.hard_ceiling_seconds
    raise_if (leb expires_at now) (rejected 400 "envelope_already_expired")
    meta ← or_value_error (meta_of e expires_at)
    written ← call (claim e.envelope_id meta (expires_at - now))
    if written then insert_and_announce e now expires_at else pure none

  unfoldable pub write_blob_then_enqueue : Envelope → String → Exec (Option ℕ)
  write_blob_then_enqueue e blob = do
    write_blob e.envelope_id blob
    on_rejected (enqueue_envelope e)
        (catch_all (secure_delete_blob e.envelope_id >>= λ _. pure tt) (pure tt))
