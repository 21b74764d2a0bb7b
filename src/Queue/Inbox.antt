-- ===== src/Queue/Inbox.antt =====
-- queue.py: `list_inbox`, `is_envelope_in_inbox`, `get_envelope_meta`, `envelope_exists`,
-- `was_delivered_to` and `mark_mail_seen`.
use morok_relay.Prelude.{
  ℕ, suc, ◌+◌, zero, String, Bool, true, false, ◌&&◌, Option, none, some, List, [], ◌∷◌, take,
  if◌then◌else◌,
}
use morok_relay.Prelude.Json.{Dict, bool, lookup, insert, is_text, is_true}
use morok_relay.Redis.{Key, Payload, Redis, document, zremrangebyscore, set_xx_keepttl}
use morok_relay.Redis.Pipeline.{◌▸◌, get, exists, zset_at}
use morok_relay.Redis.Sets.{zscore, zmembers}
use morok_relay.Exec.{Exec, pure, gets, call, ◌>>=◌, ◌>>◌}
use morok_relay.Queue.Model.{mail_seen_batch_max}

-- `json.loads`, with `none` for a missing key and for a JSONDecodeError
abbrev pub loads : Option Payload → Option Dict
loads (some (document d)) = some d
loads _ = none

abbrev pub is_some {ℓ} : {A : Type ℓ} → Option A → Bool
is_some none = false
is_some (some a) = true

abbrev pub keep_some : Option Dict → List Dict → List Dict
keep_some none ds = ds
keep_some (some d) ds = d ∷ ds

-- ZRANGE 0 (limit - 1), which is everything at the limit 0
unfoldable pub first_members : ℕ → List String → List String
first_members zero l = l
first_members (suc n) l = take (suc n) l

-- a mail envelope of this recipient
abbrev pub is_own_mail : String → Dict → Bool
is_own_mail recipient meta =
    is_text (lookup "channel" meta) "mail" && is_text (lookup "to" meta) recipient

module _ ⦃R : Redis⦄ where
  unfoldable pub metas_of : List String → R.Store → List Dict
  metas_of [] s = []
  metas_of (eid ∷ ids) s = keep_some (loads (get (Key.envelope eid) s)) (metas_of ids s)

  unfoldable pub read_metas : List String → Exec (List Dict)
  read_metas [] = pure []
  read_metas (eid ∷ ids) = call (λ s. (metas_of (eid ∷ ids) s, s))

  unfoldable pub list_inbox : String → ℕ → Exec (List Dict)
  unfolding first_members metas_of read_metas
  list_inbox recipient limit = do
    now ← gets (λ w. w.now)
    call (λ s. (tt, s ▸ zremrangebyscore (Key.inbox recipient) now))
    ids ← call (λ s. (first_members limit (zmembers (zset_at (Key.inbox recipient) s)), s))
    read_metas ids

  unfoldable pub is_envelope_in_inbox : String → String → Exec Bool
  is_envelope_in_inbox recipient envelope_id =
      call (λ s. (is_some (zscore envelope_id (zset_at (Key.inbox recipient) s)), s))

  unfoldable pub get_envelope_meta : String → Exec (Option Dict)
  get_envelope_meta envelope_id = call (λ s. (loads (get (Key.envelope envelope_id) s), s))

  unfoldable pub envelope_exists : String → Exec Bool
  envelope_exists envelope_id = call (λ s. (exists (Key.envelope envelope_id) s, s))

  unfoldable pub was_delivered_to : String → String → Exec Bool
  was_delivered_to envelope_id reader = call (λ s. (exists (Key.delivered envelope_id reader) s, s))

  -- what the loop of `mark_mail_seen` finds: how many were marked before, and what to write
  abbrev Found : Type 0
  Found = ℕ × List (String × Dict)

  abbrev pub classify : String → String → Option ℕ → Option Dict → Found → Found
  classify recipient eid none meta f = f
  classify recipient eid (some score) none f = f
  classify recipient eid (some score) (some meta) (marked, to_set) =
      if is_own_mail recipient meta
      then (if is_true (lookup "mail_seen" meta)
          then (suc marked, to_set)
          else (marked, (eid, insert "mail_seen" (bool true) meta) ∷ to_set))
      else (marked, to_set)

  unfoldable pub find_unseen : String → List String → R.Store → Found
  find_unseen recipient [] s = (0, [])
  find_unseen recipient (eid ∷ ids) s =
      classify recipient eid (zscore eid (zset_at (Key.inbox recipient) s))
        (loads (get (Key.envelope eid) s)) (find_unseen recipient ids s)

  -- SET … XX KEEPTTL for each; the number of those that were still there
  unfoldable pub write_seen : List (String × Dict) → R.Store → ℕ × R.Store
  write_seen [] s = (0, s)
  write_seen ((eid, meta) ∷ rest) s =
      let (n, s') = write_seen rest (s ▸ set_xx_keepttl (Key.envelope eid) (document meta)) in
      (if exists (Key.envelope eid) s then suc n else n, s')

  unfoldable pub write_if_any : ℕ → List (String × Dict) → Exec ℕ
  unfolding write_seen
  write_if_any marked [] = pure marked
  write_if_any marked (m ∷ ms) = do oks ← call (write_seen (m ∷ ms)); pure (marked + oks)

  unfoldable pub mark_batch : String → List String → Exec ℕ
  unfolding find_unseen write_if_any
  mark_batch recipient [] = pure 0
  mark_batch recipient (eid ∷ ids) = do
    found ← call (λ s. (find_unseen recipient (eid ∷ ids) s, s))
    write_if_any found.0 found.1

  unfoldable pub mark_mail_seen : String → List String → Exec ℕ
  unfolding mark_batch
  mark_mail_seen recipient ids = mark_batch recipient (take mail_seen_batch_max ids)
