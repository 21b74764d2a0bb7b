-- ===== src/Queue/Ack/Contract.antt =====
-- What `acknowledge_envelope` promises: the queue forgets the envelope for this recipient, once,
-- and the metadata and the blob go with the last recipient.
use morok_relay.Prelude.{
  ℕ, zero, suc, ◌<◌, String, ◌≡◌, refl, ◌⊎◌, inl, inr, Bool, true, false, none, some, arith,
  eq_refl, Bool-cases, Option-cases,
}
use morok_relay.Redis.{Key, Redis, gone, text}
use morok_relay.Redis.Pipeline.{exists, get, zset_at, members_at}
use morok_relay.Redis.Sets.{card, zscore, zscore-zremove, zremove, sremove}
use morok_relay.Exec.{World, Outcome, ok, call, calm}
use morok_relay.Blob.{Disk}
use morok_relay.Queue.Inbox.{was_delivered_to, is_envelope_in_inbox}
use morok_relay.Queue.Ack.{acknowledge_envelope}
use morok_relay.Queue.Ack.Outcomes.{shredded, ack_absent, ack_untracked, ack_waiting, ack_last}

zero_or_more : (n : ℕ) → (n ≡ 0) ⊎ (0 < n)
zero_or_more zero = inl refl
zero_or_more (suc n) = inr (omega arith)

module _ ⦃R : Redis⦄ (r id : String) (s : R.Store) (t : ℕ) (d : Disk) (k : String → Bool) where
  -- How a call ends: `r` had nothing to acknowledge; or others have the envelope still before them,
  -- or may have, since it is not tracked who does; or `r` was the last one.
  pub data Acked (a : Outcome Bool × World) : Type 0 where
    absent :
        zscore id (zset_at (Key.inbox r) s) ≡ none
        → a.0 ≡ ok false
        → a.1.disk ≡ d
        → zset_at (Key.inbox r) a.1.db ≡ zremove id (zset_at (Key.inbox r) s)
        → R.at a.1.db (Key.envelope id) ≡ R.at s (Key.envelope id)
        → Acked a
    others_wait :
        {x : ℕ}
        → zscore id (zset_at (Key.inbox r) s) ≡ some x
        → (exists (Key.pending id) s ≡ false)
          ⊎ ((exists (Key.pending id) s ≡ true)
              × 0 < card (sremove r (members_at (Key.pending id) s)))
        → a.0 ≡ ok true
        → a.1.disk ≡ d
        → zset_at (Key.inbox r) a.1.db ≡ zremove id (zset_at (Key.inbox r) s)
        → get (Key.delivered id r) a.1.db ≡ some (text "1")
        → R.at a.1.db (Key.envelope id) ≡ R.at s (Key.envelope id)
        → Acked a
    was_last :
        {x : ℕ}
        → zscore id (zset_at (Key.inbox r) s) ≡ some x
        → exists (Key.pending id) s ≡ true
        → card (sremove r (members_at (Key.pending id) s)) ≡ 0
        → a.0 ≡ ok true
        → a.1.disk ≡ shredded id k d
        → zset_at (Key.inbox r) a.1.db ≡ zremove id (zset_at (Key.inbox r) s)
        → get (Key.delivered id r) a.1.db ≡ some (text "1")
        → R.at a.1.db (Key.envelope id) ≡ gone
        → R.at a.1.db (Key.pending id) ≡ gone
        → Acked a

  ends_absent :
      zscore id (zset_at (Key.inbox r) s) ≡ none → Acked (acknowledge_envelope r id (calm s t d k))
  ends_absent h =
      rw (ack_absent r id s t d k h) (absent h refl refl (simp (R.at_run, eq_refl)) (simp R.at_run))

  module _ {x : ℕ} (there : zscore id (zset_at (Key.inbox r) s) ≡ some x) where
    ends_untracked :
        exists (Key.pending id) s ≡ false → Acked (acknowledge_envelope r id (calm s t d k))
    ends_untracked h = rw (ack_untracked r id s t d k there h) (
        others_wait there (inl h) refl refl (simp (R.at_run, eq_refl)) (simp (R.at_run, eq_refl))
          (simp R.at_run))

    ends_waiting :
        exists (Key.pending id) s ≡ true
        → 0 < card (sremove r (members_at (Key.pending id) s))
        → Acked (acknowledge_envelope r id (calm s t d k))
    ends_waiting h left = rw (ack_waiting r id s t d k there h left) (
        others_wait there (inr (h, left)) refl refl (simp (R.at_run, eq_refl))
          (simp (R.at_run, eq_refl)) (simp R.at_run))

    ends_last :
        exists (Key.pending id) s ≡ true
        → card (sremove r (members_at (Key.pending id) s)) ≡ 0
        → Acked (acknowledge_envelope r id (calm s t d k))
    ends_last h none_left = rw (ack_last r id s t d k there h none_left) (
        was_last there h none_left refl refl (simp (R.at_run, eq_refl)) (simp (R.at_run, eq_refl))
          (simp (R.at_run, eq_refl)) (simp (R.at_run, eq_refl)))

  -- With the connection up a call ends in one of three ways. It returns False exactly when the
  -- envelope is not in the recipient's queue. Otherwise it returns True, takes the envelope out of
  -- the queue and records the receipt; then the metadata and the blob go if it is recorded who waits
  -- for the envelope and nobody but this recipient does, and both stay as they are if others wait or
  -- nothing is recorded.
  pub acknowledge_envelope-Acked : Acked (acknowledge_envelope r id (calm s t d k))
  acknowledge_envelope-Acked = elim (Option-cases (zscore id (zset_at (Key.inbox r) s))) [
    | inl h ↦ ends_absent h
    | inr (x, there) ↦ elim (Bool-cases (exists (Key.pending id) s)) [
      | inr h ↦ ends_untracked there h
      | inl h ↦ elim (zero_or_more (card (sremove r (members_at (Key.pending id) s)))) [
        | inl none_left ↦ ends_last there h none_left
        | inr left ↦ ends_waiting there h left
      ]
    ]
  ]

  inbox_after :
      {a : Outcome Bool × World}
      → Acked a
      → zset_at (Key.inbox r) a.1.db ≡ zremove id (zset_at (Key.inbox r) s)
  inbox_after (absent _ _ _ h _) = h
  inbox_after (others_wait _ _ _ _ h _ _) = h
  inbox_after (was_last _ _ _ _ _ h _ _ _) = h

  receipt_after :
      {a : Outcome Bool × World}
      → Acked a
      → a.0 ≡ ok true
      → get (Key.delivered id r) a.1.db ≡ some (text "1")
  receipt_after (absent _ f _ _ _) e = cc
  receipt_after (others_wait _ _ _ _ _ h _) e = h
  receipt_after (was_last _ _ _ _ _ _ h _ _) e = h

  taken : zscore id (zset_at (Key.inbox r) (acknowledge_envelope r id (calm s t d k)).1.db) ≡ none
  taken = simp (inbox_after acknowledge_envelope-Acked, zscore-zremove, eq_refl)

  -- With the connection up, after a call, whatever it returned, the same call on the store that it
  -- left returns False, at any time and with any blob directory, and the envelope is not in the queue.
  pub acknowledge_twice :
      (t' : ℕ) (d' : Disk) (k' : String → Bool)
      → let s' = (acknowledge_envelope r id (calm s t d k)).1.db in
        ((acknowledge_envelope r id (calm s' t' d' k')).0 ≡ ok false)
        × ((is_envelope_in_inbox r id (calm s' t' d' k')).0 ≡ ok false)
  unfolding is_envelope_in_inbox call
  acknowledge_twice t' d' k' = (rw (ack_absent r id _ t' d' k' taken), rw taken)

  -- With the connection up, a reader whose acknowledgement was accepted is known to have been given
  -- the envelope, as long as the store stays as the call left it.
  pub acknowledged-was_delivered_to :
      (t' : ℕ) (d' : Disk) (k' : String → Bool)
      → (acknowledge_envelope r id (calm s t d k)).0 ≡ ok true
      → let s' = (acknowledge_envelope r id (calm s t d k)).1.db in
        (was_delivered_to id r (calm s' t' d' k')).0 ≡ ok true
  unfolding was_delivered_to call
  acknowledged-was_delivered_to t' d' k' h =
      let e = receipt_after acknowledge_envelope-Acked h in ground (arith, e)
