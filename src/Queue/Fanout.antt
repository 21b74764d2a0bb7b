-- ===== src/Queue/Fanout.antt =====
-- queue.py: `enqueue_envelope_for_recipients`, and the events to many channels.
pub mod Delivery
use morok_relay.Prelude.{
  ℕ, ◌+◌, ◌-◌, String, Bool, Option, none, some, List, [], ◌∷◌, ◌++◌, ◌==◌, map, length, leb, max,
  if◌then◌else◌,
}
use morok_relay.Prelude.Json.{Dict, int, str, or_null}
use morok_relay.Redis.{Key, Command, Redis, document, set, expire, zadd, sadd, publish}
use morok_relay.Redis.Pipeline.{◌▸◌, run_all}
use morok_relay.Exec.{Exec, pure, gets, call, catch_all, ◌>>=◌, ◌>>◌}
use morok_relay.Queue.Model.{
  expiry, new_event, group_gone_event, read_event, max_inbox_queue_depth,
  inbox_key_ttl_slack_seconds,
}
use morok_relay.Queue.Scripts.{inbox_enqueue_lua}

-- the arguments of `enqueue_envelope_for_recipients`
pub record GroupEnvelope : Type 0 where
  pub envelope_id : String
  pub sender : String
  pub recipients : List String
  pub timestamp : ℕ
  pub ttl_seconds : ℕ
  pub signature : String
  pub hard_ceiling_seconds : ℕ
  pub group_id : Option String
  pub sender_username : Option String

abbrev pub to_value : Option String → String
to_value none = "broadcast"
to_value (some g) = if g == "" then "broadcast" else g

unfoldable pub group_meta : GroupEnvelope → ℕ → Dict
group_meta e expires_at =
    ("envelope_id", str e.envelope_id)
    ∷ ("from", str e.sender)
    ∷ ("from_username", or_null e.sender_username)
    ∷ ("to", str (to_value e.group_id))
    ∷ ("ts", int e.timestamp)
    ∷ ("ttl", int e.ttl_seconds)
    ∷ ("sig", str e.signature)
    ∷ ("expires_at", int expires_at)
    ∷ ("group_id", or_null e.group_id)
    ∷ []

-- the recipients whose script returned 1
unfoldable pub eligible_of : List String → List Bool → List String
eligible_of (r ∷ rs) (b ∷ bs) = let rest = eligible_of rs bs in if b then r ∷ rest else rest
eligible_of _ _ = []

unfoldable pub notify_commands : List String → String → ℕ → List Command
notify_commands [] envelope_id ttl = []
notify_commands (r ∷ rs) envelope_id ttl =
    expire (Key.inbox r) (max ttl 60 + inbox_key_ttl_slack_seconds)
    ∷ publish r (new_event envelope_id)
    ∷ notify_commands rs envelope_id ttl

unfoldable pub pending_commands : List String → String → ℕ → List Command
pending_commands [] envelope_id ttl = []
pending_commands (r ∷ rs) envelope_id ttl =
    map (sadd (Key.pending envelope_id)) (r ∷ rs) ++ expire (Key.pending envelope_id) ttl ∷ []

unfoldable pub fanout_commands : List String → String → ℕ → ℕ → List Command
unfolding notify_commands pending_commands
fanout_commands eligible envelope_id expires_at ttl =
    notify_commands eligible envelope_id ttl
    ++ pending_commands eligible envelope_id ttl
    ++ zadd Key.blob_expiry_index envelope_id expires_at ∷ []

module _ ⦃R : Redis⦄ where
  -- the scripts of one pipeline, with their replies
  unfoldable pub enqueue_each : List String → ℕ → String → ℕ → R.Store → List Bool × R.Store
  enqueue_each [] now envelope_id expires_at s = ([], s)
  enqueue_each (r ∷ rs) now envelope_id expires_at s =
      let (inserted, s') =
        inbox_enqueue_lua (Key.inbox r) now envelope_id expires_at max_inbox_queue_depth s in
      let (replies, s'') = enqueue_each rs now envelope_id expires_at s' in
      (inserted ∷ replies, s'')

  unfoldable pub store_meta : GroupEnvelope → ℕ → ℕ → Command
  store_meta e expires_at ttl =
      set (Key.envelope e.envelope_id) (document (group_meta e expires_at)) (some ttl)

  -- the atomic batch; the recipients that have room
  unfoldable pub insert_atomically : GroupEnvelope → ℕ → ℕ → Exec (List String)
  unfolding enqueue_each store_meta eligible_of
  insert_atomically e now expires_at = do
    replies ← call (λ s.
        enqueue_each e.recipients now e.envelope_id expires_at
          (s ▸ store_meta e expires_at (expires_at - now)))
    pure (eligible_of e.recipients replies)

  -- what follows when the batch raised: everybody, whatever the depth
  unfoldable pub insert_all : GroupEnvelope → ℕ → ℕ → Exec (List String)
  unfolding store_meta
  insert_all e now expires_at = do
    call (λ s. (
      tt,
      run_all
          (store_meta e expires_at (expires_at - now)
            ∷ map (λ r. zadd (Key.inbox r) e.envelope_id expires_at) e.recipients)
          s,
    ))
    pure e.recipients

  unfoldable pub fan_out : GroupEnvelope → ℕ → ℕ → Exec (ℕ × ℕ)
  fan_out e now expires_at = do
    eligible ← catch_all (insert_atomically e now expires_at) (insert_all e now expires_at)
    call (λ s.
        (tt, run_all (fanout_commands eligible e.envelope_id expires_at (expires_at - now)) s))
    pure (expires_at, length eligible)

  unfoldable pub enqueue_envelope_for_recipients : GroupEnvelope → Exec (ℕ × ℕ)
  unfolding fan_out insert_atomically insert_all
  enqueue_envelope_for_recipients e = do
    now ← gets (λ w. w.now)
    let expires_at = expiry e.timestamp e.ttl_seconds now e.hard_ceiling_seconds
    if leb expires_at now then pure (expires_at, 0) else fan_out e now expires_at

  unfoldable pub publish_group_gone : List String → String → String → Exec (Unit {0})
  publish_group_gone [] group_id by = pure tt
  publish_group_gone (r ∷ rs) group_id by =
      catch_all
        (call
          (λ s. (tt, run_all (map (λ pk. publish pk (group_gone_event group_id by)) (r ∷ rs)) s)))
        (pure tt)

  unfoldable pub publish_read_receipt : String → String → String → Option String → Exec (Unit {0})
  publish_read_receipt sender envelope_id reader group_id =
      catch_all (call (λ s. (tt, s ▸ publish sender (read_event envelope_id reader group_id))))
        (pure tt)
