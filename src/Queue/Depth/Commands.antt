-- ===== src/Queue/Depth/Commands.antt =====
-- The cap on the inboxes under single commands, transactions and the scripts.
use morok_relay.Prelude.{
  ℕ, ◌≤◌, String, ◌≡◌, refl, inl, inr, Bool, true, false, List, [], ◌∷◌, arith, eq_iff, leb, eqb,
  Bool-cases,
}
use morok_relay.Redis.{
  Key, Entry, Command, Redis, effect, zset_of, del, zadd, zrem, zremrangebyscore, srem,
}
use morok_relay.Redis.Pipeline.{◌▸◌, exists, run_all, zset_at, members_at}
use morok_relay.Redis.Sets.{card, card-zremove-le, card-zinsert-le, card-zprune-le}
use morok_relay.Queue.Model.{max_inbox_queue_depth}
use morok_relay.Queue.Scripts.{inbox_enqueue_lua, ack_pending_lua}

-- every command but ZADD to an inbox
abbrev pub is_deepening : Command → Bool
is_deepening (zadd (Key.inbox r) m x) = true
is_deepening _ = false

abbrev pub depth : String → Entry → ℕ
depth r e = card (zset_of e.value)

-- Such a command makes no inbox deeper.
depth-effect :
    (c : Command) (r : String) (e : Entry)
    → is_deepening c ≡ false
    → card (zset_of (effect c (Key.inbox r) e).value) ≤ card (zset_of e.value)
depth-effect (zrem (Key.inbox k) m) r e h = ground (arith, card-zremove-le m (zset_of e.value))
depth-effect (zremrangebyscore (Key.inbox k) hi) r e h =
    ground (arith, card-zprune-le hi (zset_of e.value))
depth-effect (zadd (Key.inbox k) m x) r e h = cc
depth-effect _ r e h = ground arith

abbrev pub AreShallow : List Command → Type 0
AreShallow [] = Unit
AreShallow (c ∷ cs) = (is_deepening c ≡ false) × AreShallow cs

module _ ⦃R : Redis⦄ where
  -- No inbox is deeper than the cap.
  pub record IsCapped (s : R.Store) : Type 0 where
    pub within : (r : String) → card (zset_at (Key.inbox r) s) ≤ max_inbox_queue_depth

  pub run-IsCapped :
      (c : Command) (s : R.Store) → is_deepening c ≡ false → IsCapped s → IsCapped (s ▸ c)
  run-IsCapped c s h v = record {
    within =
        λ r. rw R.at_run (omega (arith, depth-effect c r (R.at s (Key.inbox r)) h, v.within r));
  }

  pub run_all-IsCapped :
      (cs : List Command) (s : R.Store) → AreShallow cs → IsCapped s → IsCapped (run_all cs s)
  unfolding run_all
  run_all-IsCapped [] s h v = v
  run_all-IsCapped (c ∷ cs) s h v = run_all-IsCapped cs (s ▸ c) h.1 (run-IsCapped c s h.0 v)

  -- ZADD to an inbox with room
  add_with_room :
      (k m : String) (x : ℕ) (s : R.Store)
      → leb max_inbox_queue_depth (card (zset_at (Key.inbox k) s)) ≡ false
      → IsCapped s
      → IsCapped (s ▸ zadd (Key.inbox k) m x)
  add_with_room k m x s room v = record {
    within = λ r. rw R.at_run (
        ground (
          arith,
          card-zinsert-le m x (zset_at (Key.inbox r) s),
          v.within r,
          v.within k,
          eq_iff k r,
        ));
  }

  pub inbox_enqueue_lua-IsCapped :
      (k : String) (now : ℕ) (m : String) (x : ℕ) (s : R.Store)
      → IsCapped s
      → IsCapped (inbox_enqueue_lua (Key.inbox k) now m x max_inbox_queue_depth s).1
  unfolding inbox_enqueue_lua
  inbox_enqueue_lua-IsCapped k now m x s v =
      let pruned : IsCapped _ = run-IsCapped (zremrangebyscore (Key.inbox k) now) s refl v in
      elim (Bool-cases (
        leb max_inbox_queue_depth
          (card (zset_at (Key.inbox k) (s ▸ zremrangebyscore (Key.inbox k) now))))) [
            | inl full ↦ rw full pruned
            | inr room ↦ rw room (add_with_room k m x _ room pruned)
          ]

  pub ack_pending_lua-IsCapped :
      (id r : String) (s : R.Store)
      → IsCapped s
      → IsCapped (ack_pending_lua (Key.pending id) (Key.envelope id) r s).1
  unfolding ack_pending_lua
  ack_pending_lua-IsCapped id r s v =
      let left : IsCapped _ = run-IsCapped (srem (Key.pending id) r) s refl v in
      elim (Bool-cases (exists (Key.pending id) s)) [
        | inr untracked ↦ rw untracked v
        | inl tracked ↦
            rw tracked
              (elim (Bool-cases
                (eqb (card (members_at (Key.pending id) (s ▸ srem (Key.pending id) r))) 0)) [
                  | inl empty ↦ rw empty (
                      run-IsCapped (del (Key.envelope id)) _ refl
                        (run-IsCapped (del (Key.pending id)) _ refl left))
                  | inr more ↦ rw more left
                ])
      ]
