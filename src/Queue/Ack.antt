-- ===== src/Queue/Ack.antt =====
-- queue.py: `acknowledge_envelope`. The task that deletes the blob runs at once.
pub mod Outcomes
pub mod Contract
use morok_relay.Prelude.{
  ℕ, String, Bool, true, false, Option, none, some, List, [], ◌∷◌, if◌then◌else◌,
}
use morok_relay.Redis.{Key, Redis, text, set, zrem}
use morok_relay.Redis.Pipeline.{◌▸◌, zset_at}
use morok_relay.Redis.Sets.{zscore}
use morok_relay.Exec.{World, Exec, Outcome, ok, pure, call, command, catch_all, ◌>>=◌, ◌>>◌}
use morok_relay.Blob.{secure_delete_blob}
use morok_relay.Queue.Model.{delivery_tombstone_ttl_seconds}
use morok_relay.Queue.Scripts.{AckReply, untracked, waiting, last, ack_pending_lua}
use morok_relay.Queue.Inbox.{is_some}

module _ ⦃R : Redis⦄ where
  -- `_delete_blob_after_last_ack`
  unfoldable pub delete_blob_after_last_ack : String → Exec (Unit {0})
  delete_blob_after_last_ack envelope_id =
      catch_all (secure_delete_blob envelope_id >>= λ _. pure tt) (pure tt)

  abbrev pub finish : String → Option AckReply → Exec (Unit {0})
  finish envelope_id (some last) = delete_blob_after_last_ack envelope_id
  finish envelope_id _ = pure tt

  -- ZREM, with whether the member was there
  unfoldable pub take_out : String → String → R.Store → Bool × R.Store
  take_out recipient envelope_id s = (
    is_some (zscore envelope_id (zset_at (Key.inbox recipient) s)),
    s ▸ zrem (Key.inbox recipient) envelope_id,
  )

  unfoldable pub settle : String → String → Exec Bool
  unfolding delete_blob_after_last_ack
  settle recipient envelope_id = do
    catch_all
        (command (
          set (Key.delivered envelope_id recipient) (text "1")
            (some delivery_tombstone_ttl_seconds)))
        (pure tt)
    result ←
        catch_all
          (call (ack_pending_lua (Key.pending envelope_id) (Key.envelope envelope_id) recipient)
            >>= λ r. pure (some r))
          (pure none)
    finish envelope_id result
    pure true

  unfoldable pub acknowledge_envelope : String → String → Exec Bool
  unfolding take_out settle
  acknowledge_envelope recipient envelope_id = do
    removed ← call (take_out recipient envelope_id)
    if removed then settle recipient envelope_id else pure false
