-- ===== src/Queue/Enqueue/Outcomes.antt =====
-- `enqueue_envelope` with the connection up: the reply and the store on each of its branches.
use morok_relay.Prelude.{
  ℕ, ◌-◌, ◌≤◌, ◌<◌, String, ◌≡◌, Bool, true, false, none, some, List, lt→not-leb, le→leb,
}
use morok_relay.Prelude.Json.{Dict}
use morok_relay.Redis.{Key, Redis, document, set_nx, zremrangebyscore, zadd, del}
use morok_relay.Redis.Pipeline.{◌▸◌, run_all, zset_at, exists}
use morok_relay.Redis.Sets.{card, zprune}
use morok_relay.Exec.{ok, raised, rejected, call, calm}
use morok_relay.Queue.Model.{Sha256, Envelope, expiry, meta_of, max_inbox_queue_depth}
use morok_relay.Queue.Scripts.Replies.{inbox_enqueue_lua-full, inbox_enqueue_lua-room}
use morok_relay.Queue.Enqueue.{enqueue_envelope, enqueue_commands}

-- when the envelope expires, as `enqueue_envelope` computes it at the time `t`
abbrev pub deadline : Envelope → ℕ → ℕ
deadline e t = expiry e.timestamp e.ttl_seconds t e.hard_ceiling_seconds

module _ ⦃R : Redis⦄ ⦃H : Sha256⦄ (e : Envelope) (s : R.Store) (t : ℕ) (d : List (String × String))
    (k : String → Bool) where
  -- the store once the metadata is written
  abbrev pub claimed : Dict → R.Store
  claimed meta = s ▸ set_nx (Key.envelope e.envelope_id) (document meta) (deadline e t - t)

  abbrev pub pruned : Dict → R.Store
  pruned meta = claimed meta ▸ zremrangebyscore (Key.inbox e.recipient) t

  pub enqueue_late :
      deadline e t ≤ t
      → enqueue_envelope e (calm s t d k)
        ≡ (raised (rejected 400 "envelope_already_expired"), calm s t d k)
  unfolding enqueue_envelope
  enqueue_late late = rw (le→leb _ _ late)

  module _ {meta : Dict} (early : t < deadline e t)
      (built : meta_of e (deadline e t) ≡ some meta) where
    pub enqueue_duplicate :
        exists (Key.envelope e.envelope_id) s ≡ true
        → enqueue_envelope e (calm s t d k) ≡ (ok none, calm (claimed meta) t d k)
    unfolding enqueue_envelope call
    enqueue_duplicate there = rw (lt→not-leb _ _ early, built, there)

    pub enqueue_full :
        exists (Key.envelope e.envelope_id) s ≡ false
        → max_inbox_queue_depth ≤ card (zprune t (zset_at (Key.inbox e.recipient) s))
        → enqueue_envelope e (calm s t d k) ≡ (
          raised (rejected 429 "recipient_queue_full"),
          calm (pruned meta ▸ del (Key.envelope e.envelope_id)) t d k,
        )
    unfolding enqueue_envelope call
    enqueue_full fresh full = rw (
      lt→not-leb _ _ early,
      built,
      fresh,
      inbox_enqueue_lua-full e.recipient t e.envelope_id (deadline e t) max_inbox_queue_depth
          (claimed meta) (rw R.at_run full),
    )

    pub enqueue_room :
        exists (Key.envelope e.envelope_id) s ≡ false
        → card (zprune t (zset_at (Key.inbox e.recipient) s)) < max_inbox_queue_depth
        → enqueue_envelope e (calm s t d k) ≡ (
          ok (some (deadline e t)),
          calm
              (run_all
                (enqueue_commands e (deadline e t) (deadline e t - t))
                (pruned meta ▸ zadd (Key.inbox e.recipient) e.envelope_id (deadline e t)))
              t
              d
              k,
        )
    unfolding enqueue_envelope call
    enqueue_room fresh room = rw (
      lt→not-leb _ _ early,
      built,
      fresh,
      inbox_enqueue_lua-room e.recipient t e.envelope_id (deadline e t) max_inbox_queue_depth
          (claimed meta) (rw R.at_run room),
    )
