-- ===== src/Queue/Scripts.antt =====
-- queue.py: the Lua scripts `_INBOX_ENQUEUE_LUA` and `_ACK_PENDING_LUA`. EVAL is atomic.
pub mod Replies
use morok_relay.Prelude.{
  ℕ, String, Bool, true, false, not, List, [], ◌∷◌, leb, eqb, length, if◌then◌else◌,
}
use morok_relay.Redis.{Key, Command, Redis, zremrangebyscore, zadd, srem, del}
use morok_relay.Redis.Pipeline.{◌▸◌, exists, zset_at, members_at}
use morok_relay.Redis.Sets.{card}

-- -1, 0 and 1
pub data AckReply : Type 0 where
  untracked waiting last : AckReply

module _ ⦃R : Redis⦄ where
  unfoldable pub inbox_enqueue_lua : Key → ℕ → String → ℕ → ℕ → R.Store → Bool × R.Store
  inbox_enqueue_lua key now envelope_id expires_at max_depth s =
      let pruned = s ▸ zremrangebyscore key now in
      if leb max_depth (card (zset_at key pruned))
      then (false, pruned)
      else (true, pruned ▸ zadd key envelope_id expires_at)

  unfoldable pub ack_pending_lua : Key → Key → String → R.Store → AckReply × R.Store
  ack_pending_lua pending_key meta_key recipient s =
      if exists pending_key s
      then (let left = s ▸ srem pending_key recipient in
          if eqb (card (members_at pending_key left)) 0
          then (last, left ▸ del pending_key ▸ del meta_key)
          else (waiting, left))
      else (untracked, s)
