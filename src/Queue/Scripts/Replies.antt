-- ===== src/Queue/Scripts/Replies.antt =====
-- The scripts of queue.py by their replies, at the keys that the source gives them.
use morok_relay.Prelude.{
  ℕ, ◌≤◌, ◌<◌, String, ◌≡◌, ap, true, false, eq_refl, eq_iff, le→leb, lt→not-leb,
}
use morok_relay.Redis.{Key, Redis, key_eq, zremrangebyscore, zadd}
use morok_relay.Redis.Pipeline.{◌▸◌, zset_at}
use morok_relay.Redis.Sets.{card, zprune}
use morok_relay.Queue.Scripts.{inbox_enqueue_lua}

pub key_eq-envelope :
    (id : String) (j : Key) → key_eq (Key.envelope id) j ≡ true → Key.envelope id ≡ j
key_eq-envelope id (Key.envelope b) h = ap Key.envelope ((eq_iff id b).0 h)
key_eq-envelope id _ h = cc

module _ ⦃R : Redis⦄ where
  zset_at-prune :
      (r : String) (now : ℕ) (s : R.Store)
      → zset_at (Key.inbox r) (s ▸ zremrangebyscore (Key.inbox r) now)
        ≡ zprune now (zset_at (Key.inbox r) s)
  zset_at-prune r now s = simp (R.at_run, eq_refl)

  pub inbox_enqueue_lua-full :
      (r : String) (now : ℕ) (id : String) (x m : ℕ) (s : R.Store)
      → m ≤ card (zprune now (zset_at (Key.inbox r) s))
      → inbox_enqueue_lua (Key.inbox r) now id x m s
        ≡ (false, s ▸ zremrangebyscore (Key.inbox r) now)
  unfolding inbox_enqueue_lua
  inbox_enqueue_lua-full r now id x m s h = rw (zset_at-prune r now s, le→leb _ _ h)

  pub inbox_enqueue_lua-room :
      (r : String) (now : ℕ) (id : String) (x m : ℕ) (s : R.Store)
      → card (zprune now (zset_at (Key.inbox r) s)) < m
      → inbox_enqueue_lua (Key.inbox r) now id x m s
        ≡ (true, s ▸ zremrangebyscore (Key.inbox r) now ▸ zadd (Key.inbox r) id x)
  unfolding inbox_enqueue_lua
  inbox_enqueue_lua-room r now id x m s h = rw (zset_at-prune r now s, lt→not-leb _ _ h)
