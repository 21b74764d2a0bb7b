-- ===== src/Queue/Delete.antt =====
-- queue.py: `delete_envelope_by_sender`, `delete_sealed_envelope` and `delete_envelope_for_group`.
pub mod Authority
pub mod Sealed
use morok_relay.Prelude.{
  ℕ, suc, String, Bool, true, false, not, ◌&&◌, ◌||◌, Option, none, some, List, [], ◌∷◌, ◌++◌, ◌==◌,
  length, if◌then◌else◌,
}
use morok_relay.Prelude.Json.{Json, Dict, str, lookup, truthy, is_text}
use morok_relay.Redis.{Key, Payload, Command, Redis, document, text, number, del, zrem, publish}
use morok_relay.Redis.Pipeline.{◌▸◌, get, exists, zset_at, run_all}
use morok_relay.Redis.Sets.{zscore}
use morok_relay.Exec.{World, Exec, Outcome, ok, pure, call, ◌>>=◌, ◌>>◌}
use morok_relay.Queue.Model.{Sha256, deleted_event, sender_tombstone_value}
use morok_relay.Queue.Inbox.{loads, is_some}

pub data DeleteError : Type 0 where
  group_message not_sender recipient_mismatch not_found not_sealed wrong_key : DeleteError

-- the dictionary that the functions return
pub record Deleted : Type 0 where
  pub accepted : Bool
  pub deleted_from_queue : Bool
  pub meta_existed : Bool
  pub error : Option DeleteError

abbrev pub refused : Bool → DeleteError → Deleted
refused meta_existed e = record {
  accepted = false;
  deleted_from_queue = false;
  meta_existed = meta_existed;
  error = some e;
}

-- a payload that is no JSON object reads as `{}`
abbrev pub loads_or_empty : Payload → Dict
loads_or_empty (document d) = d
loads_or_empty _ = []

-- the checks while the metadata is there
unfoldable pub check_meta : Dict → String → String → Option DeleteError
check_meta meta caller recipient =
    if truthy (lookup "group_id" meta)
    then some group_message
    else if is_text (lookup "from" meta) caller
    then (if is_text (lookup "to" meta) recipient then none else some recipient_mismatch)
    else some not_sender

-- the checks against the tombstone
unfoldable pub check_tombstone :
    ⦃H : Sha256⦄ → Option Payload → String → String → Option DeleteError
check_tombstone none caller recipient = some not_found
check_tombstone (some (text tomb)) caller recipient =
    if tomb == sender_tombstone_value caller recipient then none else some not_sender
check_tombstone _ caller recipient = some not_sender

-- `meta.get("to") or ""`
abbrev pub text_or_empty : Option Json → String
text_or_empty (some (str s)) = s
text_or_empty _ = ""

module _ ⦃R : Redis⦄ ⦃H : Sha256⦄ where
  unfoldable pub sender_delete_commands : String → String → String → List Command
  sender_delete_commands envelope_id caller recipient =
      zrem (Key.inbox recipient) envelope_id
      ∷ del (Key.envelope envelope_id)
      ∷ del (Key.env_tomb envelope_id)
      ∷ publish recipient (deleted_event envelope_id caller none)
      ∷ []

  -- a transaction that begins by a ZREM, with whether that found the member
  unfoldable pub remove_from : String → String → List Command → R.Store → Bool × R.Store
  remove_from recipient envelope_id cs s =
      (is_some (zscore envelope_id (zset_at (Key.inbox recipient) s)), run_all cs s)

  abbrev pub sender_verdict : String → String → String → Bool → Option DeleteError → Exec Deleted
  sender_verdict envelope_id caller recipient meta_existed (some e) = pure (refused meta_existed e)
  sender_verdict envelope_id caller recipient meta_existed none = do
    found ←
        call
          (remove_from recipient envelope_id (sender_delete_commands envelope_id caller recipient))
    pure (record {
      accepted = true;
      deleted_from_queue = found;
      meta_existed = meta_existed;
      error = none;
    })

  abbrev pub by_sender : String → String → String → Option Payload → Exec Deleted
  by_sender envelope_id caller recipient (some raw) =
      sender_verdict envelope_id caller recipient true
        (check_meta (loads_or_empty raw) caller recipient)
  by_sender envelope_id caller recipient none = do
    tomb ← call (λ s. (get (Key.env_tomb envelope_id) s, s))
    sender_verdict envelope_id caller recipient false (check_tombstone tomb caller recipient)

  unfoldable pub delete_envelope_by_sender : String → String → String → Exec Deleted
  unfolding remove_from sender_delete_commands
  delete_envelope_by_sender envelope_id caller recipient = do
    raw ← call (λ s. (get (Key.envelope envelope_id) s, s))
    by_sender envelope_id caller recipient raw

  abbrev pub hash_matches : Option String → Option Json → Bool
  hash_matches none stored = false
  hash_matches (some presented) stored = is_text stored presented

  -- `none` lets the deletion through
  unfoldable pub check_sealed : Option Dict → String → Option DeleteError
  check_sealed none key = some not_found
  check_sealed (some meta) key =
      if truthy (lookup "sealed" meta) && truthy (lookup "delete_key_hash" meta)
      then (if hash_matches (H.of_hex key) (lookup "delete_key_hash" meta)
          then none
          else some wrong_key)
      else some not_sealed

  abbrev pub recipient_of : Option Dict → String
  recipient_of none = ""
  recipient_of (some meta) = text_or_empty (lookup "to" meta)

  unfoldable pub sealed_delete_commands : String → String → List Command
  sealed_delete_commands envelope_id recipient =
      zrem (Key.inbox recipient) envelope_id
      ∷ del (Key.envelope envelope_id)
      ∷ publish recipient (deleted_event envelope_id "" none)
      ∷ []

  abbrev pub sealed_verdict : String → String → Option DeleteError → Exec Deleted
  sealed_verdict envelope_id recipient (some e) = pure (refused false e)
  sealed_verdict envelope_id recipient none = do
    found ← call (remove_from recipient envelope_id (sealed_delete_commands envelope_id recipient))
    pure
        (record { accepted = true; deleted_from_queue = found; meta_existed = false; error = none })

  -- the result has no `meta_existed`, which stands here as false
  unfoldable pub delete_sealed_envelope : String → String → Exec Deleted
  unfolding remove_from sealed_delete_commands
  delete_sealed_envelope envelope_id key = do
    meta ← call (λ s. (loads (get (Key.envelope envelope_id) s), s))
    sealed_verdict envelope_id (recipient_of meta) (check_sealed meta key)

  unfoldable pub group_delete_commands : List String → String → String → String → List Command
  group_delete_commands [] envelope_id group_id by = []
  group_delete_commands (r ∷ rs) envelope_id group_id by =
      zrem (Key.inbox r) envelope_id
      ∷ publish r (deleted_event envelope_id by (some group_id))
      ∷ group_delete_commands rs envelope_id group_id by

  -- how many ZREMs of the transaction find the member: a repeated recipient finds it once
  unfoldable pub count_found : List String → String → R.Store → ℕ
  count_found [] envelope_id s = 0
  count_found (r ∷ rs) envelope_id s =
      let rest = count_found rs envelope_id (s ▸ zrem (Key.inbox r) envelope_id) in
      if is_some (zscore envelope_id (zset_at (Key.inbox r) s)) then suc rest else rest

  pub record GroupDeleted : Type 0 where
    pub deleted_from_count : ℕ
    pub meta_existed : Bool
    pub broadcast_to : ℕ

  unfoldable pub delete_envelope_for_group :
      String → String → List String → String → Exec GroupDeleted
  unfolding group_delete_commands count_found
  delete_envelope_for_group envelope_id group_id recipients by = do
    existed ← call (λ s. (exists (Key.envelope envelope_id) s, s))
    count ← call (λ s. (
      count_found recipients envelope_id (s ▸ del (Key.envelope envelope_id)),
      run_all
          (del (Key.envelope envelope_id)
            ∷ group_delete_commands recipients envelope_id group_id by)
          s,
    ))
    pure (record {
      deleted_from_count = count;
      meta_existed = existed;
      broadcast_to = length recipients;
    })
