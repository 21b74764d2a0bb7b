-- ===== src/Queue/Enqueue/Contract.antt =====
-- What `enqueue_envelope` promises its callers.
use morok_relay.Prelude.{
  ℕ, ◌≤◌, ◌<◌, String, ◌≡◌, refl, inl, inr, Bool, true, false, Option, none, some, List, [], ◌∷◌,
  ◌++◌, arith, eq_refl, leb, leb→le, not-leb→lt, Bool-cases,
}
use mathlib.Core.List.{append-nil}
use morok_relay.Prelude.Json.{Dict}
use morok_relay.Redis.{Key, Redis, Entry, document, gone, key_eq}
use morok_relay.Redis.Pipeline.{
  effects, all_sent, zset_at, exists, get, members_at, at-run_all, published-run_all,
}
use morok_relay.Redis.Sets.{card, zprune, zscore, zscore-zinsert, sinsert}
use morok_relay.Exec.{World, Outcome, ok, raised, rejected, calm}
use morok_relay.Queue.Model.{Sha256, Envelope, meta_of, new_event, max_inbox_queue_depth}
use morok_relay.Queue.Enqueue.{enqueue_envelope, enqueue_commands, tombstone_commands}
use morok_relay.Queue.Enqueue.Outcomes.{
  deadline, enqueue_late, enqueue_duplicate, enqueue_full, enqueue_room,
}
use morok_relay.Queue.Scripts.Replies.{key_eq-envelope}

effects-tombstone :
    ⦃H : Sha256⦄ (e : Envelope) (ttl : ℕ) (j : Key) (o : Entry)
    → key_eq (Key.env_tomb e.envelope_id) j ≡ false
    → effects (tombstone_commands e ttl) j o ≡ o
unfolding tombstone_commands
effects-tombstone e ttl j o other = ground arith

all_sent-tombstone :
    ⦃H : Sha256⦄ (e : Envelope) (ttl : ℕ) → all_sent (tombstone_commands e ttl) ≡ []
unfolding tombstone_commands
all_sent-tombstone e ttl = ground arith

abbrev Call : ⦃R : Redis⦄ → Type 0
Call = Outcome (Option ℕ) × World

module _ ⦃R : Redis⦄ where
  -- `None`, and nothing that can be read has changed
  pub record IsDuplicate (s : R.Store) (r : Call) : Type 0 where
    pub reply : r.0 ≡ ok none
    pub entries : (j : Key) → R.at r.1.db j ≡ R.at s j
    pub events : R.published r.1.db ≡ R.published s

  -- The envelope waits for its recipient, who has been told.
  pub record IsWaiting (e : Envelope) (x : ℕ) (meta : Dict) (s : R.Store) (r : Call) : Type 0 where
    pub reply : r.0 ≡ ok (some x)
    pub stored : get (Key.envelope e.envelope_id) r.1.db ≡ some (document meta)
    pub queued : zscore e.envelope_id (zset_at (Key.inbox e.recipient) r.1.db) ≡ some x
    pub pending :
        members_at (Key.pending e.envelope_id) r.1.db
        ≡ sinsert e.recipient (members_at (Key.pending e.envelope_id) s)
    pub indexed : zscore e.envelope_id (zset_at Key.blob_expiry_index r.1.db) ≡ some x
    pub announced :
        R.published r.1.db ≡ R.published s ++ (e.recipient, new_event e.envelope_id) ∷ []

  -- No trace of the refused envelope is left.
  pub record IsRefused (e : Envelope) (c : ℕ) (why : String) (s : R.Store) (r : Call) : Type 0 where
    pub reply : r.0 ≡ raised (rejected c why)
    pub meta : R.at r.1.db (Key.envelope e.envelope_id) ≡ gone
    pub pending : R.at r.1.db (Key.pending e.envelope_id) ≡ R.at s (Key.pending e.envelope_id)
    pub silent : R.published r.1.db ≡ R.published s

module _ ⦃R : Redis⦄ ⦃H : Sha256⦄ (e : Envelope) (s : R.Store) (t : ℕ) (d : List (String × String))
    (k : String → Bool) {meta : Dict} (early : t < deadline e t)
    (built : meta_of e (deadline e t) ≡ some meta) where
  pub enqueue_again-IsDuplicate :
      exists (Key.envelope e.envelope_id) s ≡ true
      → IsDuplicate s (enqueue_envelope e (calm s t d k))
  enqueue_again-IsDuplicate there = rw (enqueue_duplicate e s t d k early built there) (record {
    reply = refl;
    entries = λ j. rw R.at_run (ground (arith, key_eq-envelope e.envelope_id j));
    events = simp (R.published_run, append-nil);
  })

  pub enqueue_full-IsRefused :
      exists (Key.envelope e.envelope_id) s ≡ false
      → max_inbox_queue_depth ≤ card (zprune t (zset_at (Key.inbox e.recipient) s))
      → IsRefused e 429 "recipient_queue_full" s (enqueue_envelope e (calm s t d k))
  enqueue_full-IsRefused fresh full = rw (enqueue_full e s t d k early built fresh full) (record {
    reply = refl;
    meta = simp (R.at_run, eq_refl);
    pending = simp R.at_run;
    silent = simp (R.published_run, append-nil);
  })

  pub enqueue_room-IsWaiting :
      exists (Key.envelope e.envelope_id) s ≡ false
      → card (zprune t (zset_at (Key.inbox e.recipient) s)) < max_inbox_queue_depth
      → IsWaiting e (deadline e t) meta s (enqueue_envelope e (calm s t d k))
  unfolding enqueue_commands
  enqueue_room-IsWaiting fresh room = rw (enqueue_room e s t d k early built fresh room) (record {
    reply = refl;
    stored =
        simp (at-run_all, R.at_run, effects-tombstone e _ (Key.envelope _) _ refl, eq_refl)
          (ground (arith, fresh));
    queued =
        simp (
          at-run_all,
          R.at_run,
          effects-tombstone e _ (Key.inbox _) _ refl,
          eq_refl,
          zscore-zinsert,
        );
    pending = simp (at-run_all, R.at_run, effects-tombstone e _ (Key.pending _) _ refl, eq_refl);
    indexed = simp (
      at-run_all,
      R.at_run,
      effects-tombstone e _ Key.blob_expiry_index _ refl,
      eq_refl,
      zscore-zinsert,
    );
    announced = simp (published-run_all, all_sent-tombstone, R.published_run, append-nil);
  })

-- How a call ends at the time `t`, and what holds then.
pub data Ends ⦃R : Redis⦄ (e : Envelope) (meta : Dict) (s : R.Store) (t : ℕ) (w : World) (r : Call)
    : Type 0 where
  expired :
      deadline e t ≤ t
      → r ≡ (raised (rejected 400 "envelope_already_expired"), w)
      → Ends e meta s t w r
  duplicate : exists (Key.envelope e.envelope_id) s ≡ true → IsDuplicate s r → Ends e meta s t w r
  full :
      max_inbox_queue_depth ≤ card (zprune t (zset_at (Key.inbox e.recipient) s))
      → IsRefused e 429 "recipient_queue_full" s r
      → Ends e meta s t w r
  waits :
      exists (Key.envelope e.envelope_id) s ≡ false
      → t < deadline e t
      → IsWaiting e (deadline e t) meta s r
      → Ends e meta s t w r

-- With the connection up, and extra metadata that overrides no field, a call always ends, in one of
-- four ways, and a reply tells which: it is
-- expired and nothing has changed; it is a duplicate and nothing has changed; the recipient's
-- queue is full and no metadata is left; or the envelope waits for its recipient.
pub enqueue_envelope-Ends :
    ⦃R : Redis⦄ ⦃H : Sha256⦄ (e : Envelope) (s : R.Store) (t : ℕ) (d : List (String × String))
    (k : String → Bool) {meta : Dict}
    → meta_of e (deadline e t) ≡ some meta
    → Ends e meta s t (calm s t d k) (enqueue_envelope e (calm s t d k))
enqueue_envelope-Ends e s t d k built = elim (Bool-cases (leb (deadline e t) t)) [
  | inl late ↦ expired (leb→le _ _ late) (enqueue_late e s t d k (leb→le _ _ late))
  | inr early ↦
      let soon = not-leb→lt _ _ early in
      elim (Bool-cases (exists (Key.envelope e.envelope_id) s)) [
        | inl there ↦ duplicate there (enqueue_again-IsDuplicate e s t d k soon built there)
        | inr fresh ↦
            elim (Bool-cases
              (leb max_inbox_queue_depth (card (zprune t (zset_at (Key.inbox e.recipient) s))))) [
                | inl deep ↦
                    full (leb→le _ _ deep)
                      (enqueue_full-IsRefused e s t d k soon built fresh (leb→le _ _ deep))
                | inr room ↦
                    waits fresh soon
                      (enqueue_room-IsWaiting e s t d k soon built fresh (not-leb→lt _ _ room))
              ]
      ]
]
