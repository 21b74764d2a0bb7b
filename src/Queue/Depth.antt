-- ===== src/Queue/Depth.antt =====
-- How deep an inbox queue can get.
pub mod Commands
pub mod Removals
pub mod Reach
use morok_relay.Prelude.{
  ℕ, String, ◌≡◌, ◌-◌, refl, inl, inr, Bool, true, false, Option, none, some, List, [], ◌∷◌, ◌++◌,
  ◌==◌, not, ◌&&◌, arith, Bool-cases, leb,
}
use morok_relay.Prelude.Json.{Dict}
use morok_relay.Redis.{
  Key, Command, Redis, zremrangebyscore, set, set_nx, del, zrem, document, text,
}
use morok_relay.Redis.Pipeline.{◌▸◌, run_all}
use morok_relay.Exec.{Exec, pure, raise, rejected, raise_if, gets, call, command, ◌>>=◌}
use morok_relay.Exec.Keeps.{
  Keeps, keeps_rules, Keeps-call, Keeps-pure, Keeps-raise, Keeps-catch_all, Keeps-bind, Keeps-if,
  Keeps-gets, Keeps-raise_if,
}
use morok_relay.Blob.{secure_delete_blob}
use morok_relay.Queue.Model.{
  Sha256, Envelope, expiry, meta_of, delivery_tombstone_ttl_seconds, max_inbox_queue_depth,
}
use morok_relay.Queue.Scripts.{
  inbox_enqueue_lua, ack_pending_lua, AckReply, last, waiting, untracked,
}
use morok_relay.Queue.Enqueue.{
  enqueue_commands, tombstone_commands, drop_meta, claim, announce, insert_and_announce,
  enqueue_envelope, or_value_error,
}
use morok_relay.Queue.Ack.{
  take_out, settle, acknowledge_envelope, delete_blob_after_last_ack, finish,
}
use morok_relay.Queue.Delete.{
  sender_delete_commands, sealed_delete_commands, group_delete_commands, remove_from,
  delete_envelope_by_sender, delete_sealed_envelope, delete_envelope_for_group,
}
use morok_relay.Queue.Inbox.{list_inbox, mark_mail_seen, write_seen}
use Commands.{
  IsCapped, AreShallow, run-IsCapped, run_all-IsCapped, inbox_enqueue_lua-IsCapped,
  ack_pending_lua-IsCapped,
}

module _ ⦃R : Redis⦄ ⦃H : Sha256⦄ where
  enqueue_commands-shallow : (e : Envelope) (x ttl : ℕ) → AreShallow (enqueue_commands e x ttl)
  unfolding enqueue_commands tombstone_commands
  enqueue_commands-shallow e x ttl = ground arith

  drop_meta-IsCapped : (id : String) → Keeps IsCapped (drop_meta id)
  unfolding drop_meta
  drop_meta-IsCapped id =
      Keeps-catch_all _ _ (Keeps-call _ (λ s v. run-IsCapped (del (Key.envelope id)) s refl v))
        (Keeps-pure tt)

  announce-IsCapped : (e : Envelope) (now x : ℕ) → Keeps IsCapped (announce e now x)
  unfolding announce
  announce-IsCapped e now x =
      Keeps-bind _ _
        (Keeps-call _ (λ s v. run_all-IsCapped _ s (enqueue_commands-shallow e x (x - now)) v))
        (λ _. Keeps-pure (some x))

  insert_and_announce-IsCapped :
      (e : Envelope) (now x : ℕ) → Keeps IsCapped (insert_and_announce e now x)
  unfolding insert_and_announce
  insert_and_announce-IsCapped e now x =
      Keeps-bind _ _
        (Keeps-catch_all _ _
          (Keeps-call _ (λ s v. inbox_enqueue_lua-IsCapped e.recipient now e.envelope_id x s v))
          (Keeps-bind _ _ (drop_meta-IsCapped e.envelope_id) (λ _. Keeps-raise _)))
        (λ b.
          Keeps-if b _ _ (λ _. announce-IsCapped e now x)
            (λ _. Keeps-bind _ _ (drop_meta-IsCapped e.envelope_id) (λ _. Keeps-raise _)))

  or_value_error-IsCapped : (o : Option Dict) → Keeps IsCapped (or_value_error o)
  or_value_error-IsCapped none = Keeps-raise _
  or_value_error-IsCapped (some d) = Keeps-pure d

  claim-IsCapped : (id : String) (meta : Dict) (t : ℕ) → Keeps IsCapped (call (claim id meta t))
  unfolding claim
  claim-IsCapped id meta t =
      Keeps-call _ (λ s v. run-IsCapped (set_nx (Key.envelope id) (document meta) t) s refl v)

  -- Enqueuing keeps every inbox within the cap, whatever the network does.
  pub enqueue_envelope-IsCapped : (e : Envelope) → Keeps IsCapped (enqueue_envelope e)
  unfolding enqueue_envelope
  enqueue_envelope-IsCapped e = Keeps-bind (gets (λ w. w.now)) _ (Keeps-gets (λ w. w.now)) λ now.
      let x = expiry e.timestamp e.ttl_seconds now e.hard_ceiling_seconds in
      Keeps-bind (raise_if (leb x now) (rejected 400 "envelope_already_expired")) _
        (Keeps-raise_if _ _)
        λ _.
          Keeps-bind (or_value_error (meta_of e x)) _ (or_value_error-IsCapped (meta_of e x))
            λ meta.
              Keeps-bind (call (claim e.envelope_id meta (x - now))) _
                (claim-IsCapped e.envelope_id meta (x - now))
                λ written.
                  Keeps-if written _ _ (λ _. insert_and_announce-IsCapped e now x)
                    (λ _. Keeps-pure none)

  delete_blob-IsCapped : (id : String) → Keeps IsCapped (delete_blob_after_last_ack id)
  unfolding delete_blob_after_last_ack secure_delete_blob
  delete_blob-IsCapped id = record { holds = λ w v. ground arith }

  finish-IsCapped : (id : String) (o : Option AckReply) → Keeps IsCapped (finish id o)
  finish-IsCapped id (some last) = delete_blob-IsCapped id
  finish-IsCapped id (some waiting) = Keeps-pure tt
  finish-IsCapped id (some untracked) = Keeps-pure tt
  finish-IsCapped id none = Keeps-pure tt

  settle-IsCapped : (r id : String) → Keeps IsCapped (settle r id)
  unfolding settle
  settle-IsCapped r id =
      Keeps-bind _ _
        (Keeps-catch_all _ _
          (Keeps-call _ (λ s v.
            run-IsCapped (set (Key.delivered id r) (text "1") (some delivery_tombstone_ttl_seconds))
              s refl v))
          (Keeps-pure tt))
        λ _.
          Keeps-bind _ _
            (Keeps-catch_all _ _
              (Keeps-bind _ _ (Keeps-call _ (λ s v. ack_pending_lua-IsCapped id r s v))
                (λ a. Keeps-pure (some a)))
              (Keeps-pure none))
            λ o. Keeps-bind _ _ (finish-IsCapped id o) (λ _. Keeps-pure true)

  pub acknowledge_envelope-IsCapped : (r id : String) → Keeps IsCapped (acknowledge_envelope r id)
  unfolding acknowledge_envelope
  acknowledge_envelope-IsCapped r id =
      Keeps-bind (call (take_out r id)) _
        (Keeps-call _ (λ s v. run-IsCapped (zrem (Key.inbox r) id) s refl v))
        λ removed. Keeps-if removed _ _ (λ _. settle-IsCapped r id) (λ _. Keeps-pure false)
