-- ===== src/Queue/Depth/Reach.antt =====
-- Histories: the calls of the queue in any order, by any callers, over any network, with time
-- passing between them. The group fan-out falls back to unconditional insertion when its batch
-- raises, so it stands here with the connection up.
use morok_relay.Prelude.{
  ℕ, ◌+◌, String, refl, inl, inr, Bool, List, [], ◌∷◌, ◌++◌, map, leb, Bool-cases,
}
use morok_relay.Redis.{Key, Command, Redis, sadd, elapse}
use morok_relay.Redis.Pipeline.{◌▸◌}
use morok_relay.Exec.{World, Net, call, calm}
use morok_relay.Queue.Model.{Sha256, Envelope, expiry}
use morok_relay.Queue.Enqueue.{enqueue_envelope}
use morok_relay.Queue.Fanout.{
  GroupEnvelope, enqueue_envelope_for_recipients, fan_out, insert_atomically, enqueue_each,
  store_meta, fanout_commands, notify_commands, pending_commands,
}
use morok_relay.Queue.Ack.{acknowledge_envelope}
use morok_relay.Queue.Delete.{
  delete_envelope_by_sender, delete_sealed_envelope, delete_envelope_for_group,
}
use morok_relay.Queue.Inbox.{list_inbox, mark_mail_seen}
use morok_relay.Queue.Depth.{enqueue_envelope-IsCapped, acknowledge_envelope-IsCapped}
use morok_relay.Queue.Depth.Removals.{
  list_inbox-IsCapped, mark_mail_seen-IsCapped, delete_envelope_by_sender-IsCapped,
  delete_sealed_envelope-IsCapped, delete_envelope_for_group-IsCapped,
}
use morok_relay.Queue.Depth.Commands.{
  IsCapped, AreShallow, run-IsCapped, run_all-IsCapped, inbox_enqueue_lua-IsCapped,
}

AreShallow-append : (cs ds : List Command) → AreShallow cs → AreShallow ds → AreShallow (cs ++ ds)
AreShallow-append [] ds h k = k
AreShallow-append (c ∷ cs) ds h k = (h.0, AreShallow-append cs ds h.1 k)

notify-shallow : (rs : List String) (id : String) (t : ℕ) → AreShallow (notify_commands rs id t)
unfolding notify_commands
notify-shallow [] id t = tt
notify-shallow (r ∷ rs) id t = (refl, (refl, notify-shallow rs id t))

sadd-shallow : (rs : List String) (id : String) → AreShallow (map (sadd (Key.pending id)) rs)
sadd-shallow [] id = tt
sadd-shallow (r ∷ rs) id = (refl, sadd-shallow rs id)

pending-shallow : (rs : List String) (id : String) (t : ℕ) → AreShallow (pending_commands rs id t)
unfolding pending_commands
pending-shallow [] id t = tt
pending-shallow (r ∷ rs) id t =
    AreShallow-append (map (sadd (Key.pending id)) (r ∷ rs)) _ (sadd-shallow (r ∷ rs) id) (refl, tt)

fanout-shallow : (rs : List String) (id : String) (x t : ℕ) → AreShallow (fanout_commands rs id x t)
unfolding fanout_commands
fanout-shallow rs id x t =
    AreShallow-append (notify_commands rs id t ++ pending_commands rs id t) _
      (AreShallow-append (notify_commands rs id t) _ (notify-shallow rs id t)
        (pending-shallow rs id t))
      (refl, tt)

module _ ⦃R : Redis⦄ where
  enqueue_each-IsCapped :
      (rs : List String) (now : ℕ) (id : String) (x : ℕ) (s : R.Store)
      → IsCapped s
      → IsCapped (enqueue_each rs now id x s).1
  unfolding enqueue_each
  enqueue_each-IsCapped [] now id x s v = v
  enqueue_each-IsCapped (r ∷ rs) now id x s v =
      enqueue_each-IsCapped rs now id x _ (inbox_enqueue_lua-IsCapped r now id x s v)

  fan_out-IsCapped :
      (e : GroupEnvelope) (t x : ℕ) (s : R.Store) (d : List (String × String)) (k : String → Bool)
      → IsCapped s
      → IsCapped (fan_out e t x (calm s t d k)).1.db
  unfolding fan_out insert_atomically store_meta call
  fan_out-IsCapped e t x s d k v =
      run_all-IsCapped _ _ (fanout-shallow _ e.envelope_id x _)
        (enqueue_each-IsCapped e.recipients t e.envelope_id x _ (run-IsCapped _ s refl v))

  fan_out_calm-IsCapped :
      (e : GroupEnvelope) (t : ℕ) (s : R.Store) (d : List (String × String)) (k : String → Bool)
      → IsCapped s
      → IsCapped (enqueue_envelope_for_recipients e (calm s t d k)).1.db
  unfolding enqueue_envelope_for_recipients
  fan_out_calm-IsCapped e t s d k v =
      let x = expiry e.timestamp e.ttl_seconds t e.hard_ceiling_seconds in
      elim (Bool-cases (leb x t)) [
        | inl late ↦ rw late v
        | inr early ↦ rw early (fan_out-IsCapped e t x s d k v)
      ]

module _ ⦃R : Redis⦄ ⦃H : Sha256⦄ where
  -- what a call of the module, the clock and the network can do
  pub data Step : World → World → Type 0 where
    enqueues : (w : World) (e : Envelope) → Step w (enqueue_envelope e w).1
    -- while the connection is up: else the fan-out inserts whatever the depth
    fans_out :
        (e : GroupEnvelope) (t : ℕ) (s : R.Store) (d : List (String × String)) (k : String → Bool)
        → Step (calm s t d k) (enqueue_envelope_for_recipients e (calm s t d k)).1
    acknowledges : (w : World) (r id : String) → Step w (acknowledge_envelope r id w).1
    lists : (w : World) (r : String) (limit : ℕ) → Step w (list_inbox r limit w).1
    marks : (w : World) (r : String) (ids : List String) → Step w (mark_mail_seen r ids w).1
    deletes : (w : World) (id c r : String) → Step w (delete_envelope_by_sender id c r w).1
    deletes_sealed : (w : World) (id key : String) → Step w (delete_sealed_envelope id key w).1
    deletes_for_group :
        (w : World) (id g : String) (rs : List String) (by : String)
        → Step w (delete_envelope_for_group id g rs by w).1
    passes : (w : World) (d : ℕ) → Step w (record w { db = w.db ▸ elapse d; now = w.now + d })
    network : (w : World) (n : List Net) → Step w (record w { net = n })

  pub data Reach (w : World) : World → Type 0 where
    here : Reach w w
    next : {u v : World} → Reach w u → Step u v → Reach w v

  Step-IsCapped : {u v : World} → Step u v → IsCapped u.db → IsCapped v.db
  Step-IsCapped (enqueues w e) h = (enqueue_envelope-IsCapped e).holds w h
  Step-IsCapped (fans_out e t s d k) h = fan_out_calm-IsCapped e t s d k h
  Step-IsCapped (acknowledges w r id) h = (acknowledge_envelope-IsCapped r id).holds w h
  Step-IsCapped (lists w r limit) h = (list_inbox-IsCapped r limit).holds w h
  Step-IsCapped (marks w r ids) h = (mark_mail_seen-IsCapped r ids).holds w h
  Step-IsCapped (deletes w id c r) h = (delete_envelope_by_sender-IsCapped id c r).holds w h
  Step-IsCapped (deletes_sealed w id key) h = (delete_sealed_envelope-IsCapped id key).holds w h
  Step-IsCapped (deletes_for_group w id g rs by) h =
      (delete_envelope_for_group-IsCapped id g rs by).holds w h
  Step-IsCapped (passes w d) h = run-IsCapped (elapse d) w.db refl h
  Step-IsCapped (network w n) h = h

  -- If no inbox is deeper than 5000 envelopes, none is after any history of calls, of passing time and
  -- of failures of the network, in which every fan-out to a group met a connection that was up.
  pub Reach-IsCapped : {u v : World} → Reach u v → IsCapped u.db → IsCapped v.db
  Reach-IsCapped here h = h
  Reach-IsCapped (next r st) h = Step-IsCapped st (Reach-IsCapped r h)
