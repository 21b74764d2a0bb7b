-- ===== src/Queue/Lifecycle.antt =====
-- An envelope from `write_blob_then_enqueue` to its last acknowledgement: the blob and the metadata
-- are there while somebody waits for them, and no longer.
use morok_relay.Prelude.{
  ℕ, ◌-◌, ◌≤◌, ◌<◌, String, ◌≡◌, refl, ◌⊎◌, inl, inr, Bool, true, false, Option, none, some, List,
  [], ◌∷◌, arith, eq_refl,
}
use morok_relay.Redis.{Key, Entry, Redis, document, zadd, srem, del, gone, members_of, is_there}
use morok_relay.Redis.Pipeline.{◌▸◌, run_all, exists, zset_at, members_at, get}
use morok_relay.Redis.Sets.{card, zscore, zscore-zremove, zprune, sinsert, sremove}
use morok_relay.Prelude.Json.{Dict}
use morok_relay.Exec.{ok, raised, rejected, calm}
use morok_relay.Blob.{Disk, file, put_file, is_blob_id, write_blob, file-put_file}
use morok_relay.Queue.Model.{Sha256, Envelope, meta_of, max_inbox_queue_depth}
use morok_relay.Queue.Enqueue.{enqueue_envelope, enqueue_commands, write_blob_then_enqueue}
use morok_relay.Queue.Enqueue.Outcomes.{deadline, pruned, enqueue_room, enqueue_full, enqueue_late}
use morok_relay.Queue.Enqueue.Contract.{IsWaiting, enqueue_room-IsWaiting}
use morok_relay.Queue.Ack.{acknowledge_envelope, delete_blob_after_last_ack}
use morok_relay.Queue.Ack.Outcomes.{shredded, file-shredded, ack_last, marked, delete_blob_lem}

exists_of_members :
    {r : String} {l : List String} (o : Entry) → members_of o.value ≡ r ∷ l → is_there o ≡ true
exists_of_members o h = ground arith

module _ ⦃R : Redis⦄ ⦃H : Sha256⦄ (e : Envelope) (blob : String) (s : R.Store) (t : ℕ) (d : Disk)
    (k : String → Bool) (valid : is_blob_id e.envelope_id ≡ true)
    (well : k e.envelope_id ≡ false) where
  abbrev with_blob : Disk
  with_blob = put_file e.envelope_id blob d

  write_blob_lem : write_blob e.envelope_id blob (calm s t d k) ≡ (ok tt, calm s t with_blob k)
  unfolding write_blob
  write_blob_lem = rw (valid, well)

  -- what follows when the queue takes the envelope
  taken :
      (a : Option ℕ) (s' : R.Store)
      → enqueue_envelope e (calm s t with_blob k) ≡ (ok a, calm s' t with_blob k)
      → write_blob_then_enqueue e blob (calm s t d k) ≡ (ok a, calm s' t with_blob k)
  unfolding write_blob_then_enqueue
  taken a s' h = rw (write_blob_lem, h)

  -- and when it refuses it
  refused :
      (c : ℕ) (why : String) (s' : R.Store)
      → enqueue_envelope e (calm s t with_blob k) ≡ (raised (rejected c why), calm s' t with_blob k)
      → ((write_blob_then_enqueue e blob (calm s t d k)).0 ≡ raised (rejected c why))
        × (file e.envelope_id (write_blob_then_enqueue e blob (calm s t d k)).1.disk ≡ none)
  unfolding write_blob_then_enqueue delete_blob_after_last_ack
  refused c why s' h =
      rw (write_blob_lem, h)
        (
          refl,
          rw (delete_blob_lem e.envelope_id s' t with_blob k)
              (file-shredded e.envelope_id k with_blob valid well),
        )

  -- With the connection up and a disk that works, an envelope that is refused, since it has expired or since the recipient's queue is full, leaves
  -- no blob: the caller sees the refusal, and the file that was just written is gone again.
  pub refused_leaves_no_blob :
      (meta : Dict)
      → meta_of e (deadline e t) ≡ some meta
      → (deadline e t ≤ t)
        ⊎ ((t < deadline e t)
            × (exists (Key.envelope e.envelope_id) s ≡ false)
            × (max_inbox_queue_depth ≤ card (zprune t (zset_at (Key.inbox e.recipient) s))))
      → (c : ℕ) × (why : String) × ((write_blob_then_enqueue e blob (calm s t d k)).0
          ≡ raised (rejected c why))
        × (file e.envelope_id (write_blob_then_enqueue e blob (calm s t d k)).1.disk ≡ none)
  refused_leaves_no_blob meta built (inl late) =
      let p = refused 400 "envelope_already_expired" s (enqueue_late e s t with_blob k late) in
      (400, "envelope_already_expired", p.0, p.1)
  refused_leaves_no_blob meta built (inr (early, fresh, full)) =
      let p =
        refused 429 "recipient_queue_full" _
          (enqueue_full e s t with_blob k early built fresh full) in
      (429, "recipient_queue_full", p.0, p.1)

  module _ {meta : Dict} (early : t < deadline e t) (built : meta_of e (deadline e t) ≡ some meta)
      (fresh : exists (Key.envelope e.envelope_id) s ≡ false)
      (room : card (zprune t (zset_at (Key.inbox e.recipient) s)) < max_inbox_queue_depth) where
    abbrev queued : R.Store
    queued =
        run_all (enqueue_commands e (deadline e t) (deadline e t - t))
          (pruned e s t d k meta ▸ zadd (Key.inbox e.recipient) e.envelope_id (deadline e t))

    accepted :
        write_blob_then_enqueue e blob (calm s t d k)
        ≡ (ok (some (deadline e t)), calm queued t with_blob k)
    accepted =
        taken (some (deadline e t)) queued (enqueue_room e s t with_blob k early built fresh room)

    waiting :
        IsWaiting e (deadline e t) meta s (ok (some (deadline e t)), calm queued t with_blob k)
    waiting =
        rw (← enqueue_room e s t with_blob k early built fresh room)
          (enqueue_room-IsWaiting e s t with_blob k early built fresh room)

    module _ (nobody : members_at (Key.pending e.envelope_id) s ≡ []) where
      one_pending : members_at (Key.pending e.envelope_id) queued ≡ e.recipient ∷ []
      unfolding sinsert
      one_pending = rw (waiting.pending, nobody)

      acknowledged : acknowledge_envelope e.recipient e.envelope_id (calm queued t with_blob k) ≡ (
        ok true,
        calm
            (marked e.recipient e.envelope_id queued t with_blob k
              ▸ srem (Key.pending e.envelope_id) e.recipient
              ▸ del (Key.pending e.envelope_id)
              ▸ del (Key.envelope e.envelope_id))
            t
            (shredded e.envelope_id k with_blob)
            k,
      )
      unfolding sremove
      acknowledged =
          ack_last e.recipient e.envelope_id queued t with_blob k waiting.queued
            (exists_of_members (R.at queued (Key.pending e.envelope_id)) one_pending)
            (rw one_pending (simp eq_refl))

      -- With the connection up and a disk that works, a direct message under a new id, for which the
      -- queue has room, is on the disk until its recipient, the only one recorded, acknowledges it, and
      -- from then on neither its blob nor its metadata nor its row in the queue is there.
      pub delivered_then_erased :
          let sent = write_blob_then_enqueue e blob (calm s t d k) in
          let acked = acknowledge_envelope e.recipient e.envelope_id sent.1 in
          (sent.0 ≡ ok (some (deadline e t)))
          × (file e.envelope_id sent.1.disk ≡ some blob)
          × (get (Key.envelope e.envelope_id) sent.1.db ≡ some (document meta))
          × (acked.0 ≡ ok true)
          × (file e.envelope_id acked.1.disk ≡ none)
          × (R.at acked.1.db (Key.envelope e.envelope_id) ≡ gone)
          × (zscore e.envelope_id (zset_at (Key.inbox e.recipient) acked.1.db) ≡ none)
      delivered_then_erased =
          rw (accepted, acknowledged)
            (
              refl,
              simp (file-put_file, eq_refl),
              waiting.stored,
              refl,
              file-shredded e.envelope_id k with_blob valid well,
              simp (R.at_run, eq_refl),
              simp (R.at_run, eq_refl, zscore-zremove),
            )
