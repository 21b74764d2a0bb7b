-- ===== src/Queue/Fanout/Delivery.antt =====
-- Whom the fan-out to a group reaches.
use morok_relay.Prelude.{
  ℕ, suc, ◌-◌, ◌<◌, ◌++◌, String, ◌≡◌, refl, ◌∙◌, inl, inr, Bool, true, false, not, ◌&&◌, List, [],
  ◌∷◌, arith, eq_iff, eq_refl, elem, leb, ltb, length, map, Bool-cases, ◌==◌, if◌then◌else◌,
}
use morok_relay.Redis.{Key, Entry, Redis, zset_of, zremrangebyscore, sadd}
use morok_relay.Redis.Pipeline.{◌▸◌, run_all, effects, effects-append, zset_at, at-run_all}
use morok_relay.Redis.Sets.{ZSet, card, zprune, zinsert}
use morok_relay.Exec.{ok, calm, call}
use morok_relay.Queue.Model.{expiry, max_inbox_queue_depth}
use morok_relay.Queue.Scripts.{inbox_enqueue_lua}
use morok_relay.Queue.Fanout.{
  GroupEnvelope, eligible_of, enqueue_each, notify_commands, pending_commands, fanout_commands,
  store_meta, fan_out, insert_atomically, enqueue_envelope_for_recipients,
}

-- no recipient is listed twice
unfoldable pub distinct : List String → Bool
distinct [] = true
distinct (r ∷ rs) = let rest = distinct rs in not (elem r rs) && rest

module _ ⦃R : Redis⦄ (now : ℕ) (id : String) (x : ℕ) where
  -- the queue of `r` without what has run out
  abbrev pub live : String → R.Store → ZSet
  live r s = zprune now (zset_at (Key.inbox r) s)

  abbrev pub has_room : String → R.Store → Bool
  has_room r s = ltb (card (live r s)) max_inbox_queue_depth

  -- how many of the recipients have room
  pub with_room : List String → R.Store → ℕ
  with_room [] s = 0
  with_room (r ∷ rs) s = let rest = with_room rs s in if has_room r s then suc rest else rest

  -- what becomes of the queue of `r`
  abbrev pub offered : List String → String → R.Store → ZSet
  offered rs r s =
      if elem r rs
      then (if has_room r s then zinsert id x (live r s) else live r s)
      else zset_at (Key.inbox r) s

  abbrev insert_in : String → R.Store → Bool × R.Store
  insert_in k s = inbox_enqueue_lua (Key.inbox k) now id x max_inbox_queue_depth s

  abbrev is_full : String → R.Store → Bool
  is_full k s =
      leb max_inbox_queue_depth
        (card (zset_at (Key.inbox k) (s ▸ zremrangebyscore (Key.inbox k) now)))

  full_or_room : (k : String) (s : R.Store) → is_full k s ≡ not (has_room k s)
  full_or_room k s = simp (R.at_run, eq_refl) (ground arith)

  took : (k : String) (s : R.Store) → (insert_in k s).0 ≡ has_room k s
  unfolding inbox_enqueue_lua
  took k s = elim (Bool-cases (has_room k s)) [
    | inl room ↦ simp (full_or_room k s, room)
    | inr full ↦ simp (full_or_room k s, full)
  ]

  own_queue :
      (k : String) (s : R.Store)
      → zset_at (Key.inbox k) (insert_in k s).1
        ≡ (if has_room k s then zinsert id x (live k s) else live k s)
  unfolding inbox_enqueue_lua
  own_queue k s = elim (Bool-cases (has_room k s)) [
    | inl room ↦ rw (full_or_room k s, room) (simp (R.at_run, eq_refl))
    | inr full ↦ rw (full_or_room k s, full) (simp (R.at_run, eq_refl))
  ]

  elsewhere :
      (k r : String) (s : R.Store)
      → (k == r) ≡ false
      → zset_at (Key.inbox r) (insert_in k s).1 ≡ zset_at (Key.inbox r) s
  unfolding inbox_enqueue_lua
  elsewhere k r s other = elim (Bool-cases (is_full k s)) [
    | inl full ↦ rw full (simp (R.at_run, other))
    | inr room ↦ rw room (simp (R.at_run, other))
  ]

  untouched :
      (rs : List String) (r : String) (s : R.Store)
      → elem r rs ≡ false
      → zset_at (Key.inbox r) (enqueue_each rs now id x s).1 ≡ zset_at (Key.inbox r) s
  unfolding enqueue_each
  untouched [] r s h = refl
  untouched (k ∷ rs) r s h = elim (Bool-cases (k == r)) [
    | inl same ↦ absurd (ground (arith, same, h))
    | inr other ↦ untouched rs r (insert_in k s).1 (rw other at h) ∙ elsewhere k r s other
  ]

  queues :
      (rs : List String) (r : String) (s : R.Store)
      → distinct rs ≡ true
      → zset_at (Key.inbox r) (enqueue_each rs now id x s).1 ≡ offered rs r s
  unfolding enqueue_each distinct
  queues [] r s h = refl
  queues (k ∷ rs) r s h = elim (Bool-cases (k == r)) [
    | inl same ↦
        let is = (eq_iff k r).0 same in
        let alone' : elem k rs ≡ false = ground (arith, h) in
        let alone : elem r rs ≡ false = rw is at alone' in
        rw (untouched rs r (insert_in k s).1 alone, same) (rw (← is) (own_queue k s))
    | inr other ↦
        rw (queues rs r (insert_in k s).1 (ground (arith, h)), elsewhere k r s other, other) refl
  ]

  with_room_later :
      (rs : List String) (k : String) (s : R.Store)
      → elem k rs ≡ false
      → with_room rs (insert_in k s).1 ≡ with_room rs s
  unfolding with_room
  with_room_later [] k s h = refl
  with_room_later (r ∷ rs) k s h =
      let other : (k == r) ≡ false = ground (arith, h, eq_iff k r, eq_iff r k) in
      rw (elsewhere k r s other, with_room_later rs k s (ground (arith, h))) refl

  how_many :
      (rs : List String) (s : R.Store)
      → distinct rs ≡ true
      → length (eligible_of rs (enqueue_each rs now id x s).0) ≡ with_room rs s
  unfolding enqueue_each eligible_of distinct with_room
  how_many [] s h = refl
  how_many (k ∷ rs) s h =
      let alone : elem k rs ≡ false = ground (arith, h) in
      let rest = how_many rs (insert_in k s).1 (ground (arith, h)) ∙ with_room_later rs k s alone in
      elim (Bool-cases (has_room k s)) [
        | inl room ↦ rw (took k s, room, rest) refl
        | inr full ↦ rw (took k s, full) rest
      ]

-- The transaction that follows touches no row of an inbox.
same_rows_notify :
    (rs : List String) (id r : String) (ttl : ℕ) (o : Entry)
    → zset_of (effects (notify_commands rs id ttl) (Key.inbox r) o).value ≡ zset_of o.value
unfolding notify_commands
same_rows_notify [] id r ttl o = refl
same_rows_notify (k ∷ rs) id r ttl o = same_rows_notify rs id r ttl _ ∙ ground arith

same_rows_sadd :
    (rs : List String) (id r : String) (o : Entry)
    → effects (map (sadd (Key.pending id)) rs) (Key.inbox r) o ≡ o
same_rows_sadd [] id r o = refl
same_rows_sadd (k ∷ rs) id r o = same_rows_sadd rs id r o

same_rows_pending :
    (rs : List String) (id r : String) (ttl : ℕ) (o : Entry)
    → effects (pending_commands rs id ttl) (Key.inbox r) o ≡ o
unfolding pending_commands
same_rows_pending [] id r ttl o = refl
same_rows_pending (k ∷ rs) id r ttl o =
    rw (effects-append (map (sadd (Key.pending id)) (k ∷ rs)) _ (Key.inbox r) o)
      (same_rows_sadd rs id r o)

same_rows :
    (rs : List String) (id r : String) (x ttl : ℕ) (o : Entry)
    → zset_of (effects (fanout_commands rs id x ttl) (Key.inbox r) o).value ≡ zset_of o.value
unfolding fanout_commands
same_rows rs id r x ttl o =
    rw
      (
        effects-append (notify_commands rs id ttl ++ pending_commands rs id ttl) _ (Key.inbox r) o,
        effects-append (notify_commands rs id ttl) (pending_commands rs id ttl) (Key.inbox r) o,
        same_rows_pending rs id r ttl _,
      )
      (same_rows_notify rs id r ttl o)

module _ ⦃R : Redis⦄ (e : GroupEnvelope) (s : R.Store) (t : ℕ) (d : List (String × String))
    (k : String → Bool) where
  abbrev pub deadline : ℕ
  deadline = expiry e.timestamp e.ttl_seconds t e.hard_ceiling_seconds

  abbrev batch : List Bool × R.Store
  batch =
      enqueue_each e.recipients t e.envelope_id deadline (s ▸ store_meta e deadline (deadline - t))

  -- the recipients that the fan-out reaches
  abbrev reached : List String
  reached = eligible_of e.recipients batch.0

  fan_out_lem :
      t < deadline
      → enqueue_envelope_for_recipients e (calm s t d k) ≡ (
        ok (deadline, length reached),
        calm
            (run_all (fanout_commands reached e.envelope_id deadline (deadline - t)) batch.1)
            t
            d
            k,
      )
  unfolding enqueue_envelope_for_recipients fan_out insert_atomically call
  fan_out_lem early = let soon : leb deadline t ≡ false = ground arith in rw soon refl

  start_rows :
      (r : String)
      → zset_at (Key.inbox r) (s ▸ store_meta e deadline (deadline - t)) ≡ zset_at (Key.inbox r) s
  unfolding store_meta
  start_rows r = simp R.at_run

  with_room_start :
      (rs : List String)
      → with_room t e.envelope_id deadline rs (s ▸ store_meta e deadline (deadline - t))
        ≡ with_room t e.envelope_id deadline rs s
  unfolding with_room
  with_room_start [] = refl
  with_room_start (r ∷ rs) = rw (start_rows r, with_room_start rs) refl

  -- With the connection up, a message to a group, of which the time has not run out and which lists
  -- nobody twice, goes into the queue of each of its recipients who has fewer than 5000 envelopes
  -- that have not run out; the other recipients' queues lose only what has run out, and those of
  -- anybody else stay as they are. The reply tells its expiry and how many of the recipients had room.
  pub fan_out_reaches :
      (r : String)
      → t < deadline
      → distinct e.recipients ≡ true
      → let after = enqueue_envelope_for_recipients e (calm s t d k) in
        after.0 ≡ ok (deadline, with_room t e.envelope_id deadline e.recipients s)
        × zset_at (Key.inbox r) after.1.db ≡ offered t e.envelope_id deadline e.recipients r s
  fan_out_reaches r early once =
      let start = s ▸ store_meta e deadline (deadline - t) in
      rw (fan_out_lem early) (
        rw (how_many t e.envelope_id deadline e.recipients start once, with_room_start e.recipients)
            refl,
        simp (at-run_all, same_rows)
            (rw (queues t e.envelope_id deadline e.recipients r start once, start_rows r) refl),
      )
