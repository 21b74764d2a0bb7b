-- ===== src/Queue/Depth/Removals.antt =====
-- The cap on the inboxes under the listing of an inbox, the marking of mail and the deletions.
use morok_relay.Prelude.{ℕ, String, refl, Bool, true, false, Option, none, some, List, [], ◌∷◌}
use morok_relay.Prelude.Json.{Dict}
use morok_relay.Redis.{Key, Payload, Command, Redis, document, zremrangebyscore, set_xx_keepttl}
use morok_relay.Exec.{gets, call}
use morok_relay.Exec.Keeps.{Keeps, Keeps-call, Keeps-read, Keeps-pure, Keeps-bind, Keeps-gets}
use morok_relay.Queue.Model.{Sha256}
use morok_relay.Queue.Delete.{
  DeleteError, sender_verdict, by_sender, sealed_verdict, sender_delete_commands,
  sealed_delete_commands, group_delete_commands, remove_from, delete_envelope_by_sender,
  delete_sealed_envelope, delete_envelope_for_group,
}
use morok_relay.Queue.Inbox.{
  list_inbox, mark_mail_seen, mark_batch, write_seen, write_if_any, read_metas,
}
use morok_relay.Queue.Depth.Commands.{IsCapped, AreShallow, run-IsCapped, run_all-IsCapped}

group_delete_commands-shallow :
    ⦃R : Redis⦄ ⦃H : Sha256⦄ (rs : List String) (id g by : String)
    → AreShallow (group_delete_commands rs id g by)
unfolding group_delete_commands
group_delete_commands-shallow [] id g by = tt
group_delete_commands-shallow (r ∷ rs) id g by =
    (refl, (refl, group_delete_commands-shallow rs id g by))

module _ ⦃R : Redis⦄ ⦃H : Sha256⦄ where
  read_metas-IsCapped : (ids : List String) → Keeps IsCapped (read_metas ids)
  unfolding read_metas
  read_metas-IsCapped [] = Keeps-pure []
  read_metas-IsCapped (id ∷ ids) = Keeps-read _

  pub list_inbox-IsCapped : (r : String) (limit : ℕ) → Keeps IsCapped (list_inbox r limit)
  unfolding list_inbox
  list_inbox-IsCapped r limit = Keeps-bind (gets (λ w. w.now)) _ (Keeps-gets (λ w. w.now)) λ now.
      Keeps-bind _ _
        (Keeps-call _ (λ s v. run-IsCapped (zremrangebyscore (Key.inbox r) now) s refl v))
        λ _. Keeps-bind _ _ (Keeps-read _) λ ids. read_metas-IsCapped ids

  write_seen-IsCapped :
      (ms : List (String × Dict)) (s : R.Store) → IsCapped s → IsCapped (write_seen ms s).1
  unfolding write_seen
  write_seen-IsCapped [] s v = v
  write_seen-IsCapped ((id, meta) ∷ ms) s v =
      write_seen-IsCapped ms _
        (run-IsCapped (set_xx_keepttl (Key.envelope id) (document meta)) s refl v)

  write_if_any-IsCapped : (n : ℕ) (ms : List (String × Dict)) → Keeps IsCapped (write_if_any n ms)
  unfolding write_if_any
  write_if_any-IsCapped n [] = Keeps-pure n
  write_if_any-IsCapped n (m ∷ ms) =
      Keeps-bind _ _ (Keeps-call _ (write_seen-IsCapped (m ∷ ms))) λ k. Keeps-pure _

  mark_batch-IsCapped : (r : String) (ids : List String) → Keeps IsCapped (mark_batch r ids)
  unfolding mark_batch
  mark_batch-IsCapped r [] = Keeps-pure 0
  mark_batch-IsCapped r (id ∷ ids) =
      Keeps-bind _ _ (Keeps-read _) λ found. write_if_any-IsCapped found.0 found.1

  pub mark_mail_seen-IsCapped :
      (r : String) (ids : List String) → Keeps IsCapped (mark_mail_seen r ids)
  unfolding mark_mail_seen
  mark_mail_seen-IsCapped r ids = mark_batch-IsCapped r _

  remove_from-IsCapped :
      (r id : String) (cs : List Command)
      → AreShallow cs
      → Keeps IsCapped (call (remove_from r id cs))
  unfolding remove_from
  remove_from-IsCapped r id cs h = Keeps-call _ (λ s v. run_all-IsCapped cs s h v)

  sender_verdict-IsCapped :
      (id c r : String) (b : Bool) (o : Option DeleteError)
      → Keeps IsCapped (sender_verdict id c r b o)
  unfolding sender_delete_commands
  sender_verdict-IsCapped id c r b none =
      Keeps-bind _ _ (remove_from-IsCapped r id _ (refl, (refl, (refl, (refl, tt)))))
        λ f. Keeps-pure _
  sender_verdict-IsCapped id c r b (some e) = Keeps-pure _

  by_sender-IsCapped : (id c r : String) (o : Option Payload) → Keeps IsCapped (by_sender id c r o)
  by_sender-IsCapped id c r (some raw) = sender_verdict-IsCapped id c r true _
  by_sender-IsCapped id c r none =
      Keeps-bind _ _ (Keeps-read _) λ tomb. sender_verdict-IsCapped id c r false _

  pub delete_envelope_by_sender-IsCapped :
      (id c r : String) → Keeps IsCapped (delete_envelope_by_sender id c r)
  unfolding delete_envelope_by_sender
  delete_envelope_by_sender-IsCapped id c r =
      Keeps-bind _ _ (Keeps-read _) λ raw. by_sender-IsCapped id c r raw

  sealed_verdict-IsCapped :
      (id r : String) (o : Option DeleteError) → Keeps IsCapped (sealed_verdict id r o)
  unfolding sealed_delete_commands
  sealed_verdict-IsCapped id r none =
      Keeps-bind _ _ (remove_from-IsCapped r id _ (refl, (refl, (refl, tt)))) λ f. Keeps-pure _
  sealed_verdict-IsCapped id r (some e) = Keeps-pure _

  pub delete_sealed_envelope-IsCapped :
      (id key : String) → Keeps IsCapped (delete_sealed_envelope id key)
  unfolding delete_sealed_envelope
  delete_sealed_envelope-IsCapped id key =
      Keeps-bind _ _ (Keeps-read _) λ meta. sealed_verdict-IsCapped id _ _

  pub delete_envelope_for_group-IsCapped :
      (id g : String) (rs : List String) (by : String)
      → Keeps IsCapped (delete_envelope_for_group id g rs by)
  unfolding delete_envelope_for_group
  delete_envelope_for_group-IsCapped id g rs by = Keeps-bind _ _ (Keeps-read _) λ existed.
      Keeps-bind _ _
        (Keeps-call _
          (λ s v. run_all-IsCapped _ s (refl, group_delete_commands-shallow rs id g by) v))
        λ n. Keeps-pure _
