-- ===== src/Messages/Inbox.antt =====
-- api/messages.py: what the owner of an inbox asks for.
pub mod Owner
use morok_relay.Prelude.{
  ℕ, String, Bool, true, false, not, ◌&&◌, ◌||◌, Option, none, some, List, [], ◌∷◌, length, leb,
  ltb, elem, if◌then◌else◌,
}
use morok_relay.Prelude.Json.{Dict}
use morok_relay.Redis.{Redis}
use morok_relay.Exec.{Exec, http, pure, raise, raise_if, ◌>>=◌, ◌>>◌}
use morok_relay.Blob.{read_blob}
use morok_relay.Queue.Inbox.{list_inbox, is_envelope_in_inbox, mark_mail_seen}
use morok_relay.Queue.Ack.{acknowledge_envelope}
use morok_relay.Queue.Model.{Sha256}
use morok_relay.Messages.{is_envelope_id}

-- `list(dict.fromkeys(v))`
unfoldable pub without_repeats : List String → List String → List String
without_repeats seen [] = []
without_repeats seen (x ∷ xs) =
    let rest = without_repeats (x ∷ seen) xs in
    let skip = without_repeats seen xs in if elem x seen then skip else x ∷ rest

unfoldable pub all_envelope_ids : List String → Bool
unfolding is_envelope_id
all_envelope_ids [] = true
all_envelope_ids (x ∷ xs) = is_envelope_id x && all_envelope_ids xs

-- the schema of the body; none for a body that it refuses
unfoldable pub mail_seen_request : List String → Option (List String)
unfolding without_repeats all_envelope_ids
mail_seen_request envelope_ids =
    if (leb 1 (length envelope_ids) && leb (length envelope_ids) 200)
      && all_envelope_ids envelope_ids
    then some (without_repeats [] envelope_ids)
    else none

module _ ⦃R : Redis⦄ where
  -- the envelopes and their number
  unfoldable pub list_my_inbox : String → ℕ → Exec (List Dict × ℕ)
  list_my_inbox pubkey limit = do
    raise_if (ltb limit 1 || ltb 200 limit) (http 400 "limit_must_be_1_to_200")
    envelopes ← list_inbox pubkey limit
    pure (envelopes, length envelopes)

  abbrev pub or_not_found : Option String → Exec String
  or_not_found none = raise (http 404 "blob_not_found")
  or_not_found (some blob) = pure blob

  abbrev pub fetch_if : String → Bool → Exec String
  fetch_if envelope_id false = raise (http 404 "envelope_not_in_your_inbox")
  fetch_if envelope_id true = read_blob envelope_id >>= or_not_found

  unfoldable pub get_envelope_blob : String → String → Exec String
  unfolding is_envelope_id
  get_envelope_blob pubkey envelope_id = do
    raise_if (not (is_envelope_id envelope_id)) (http 400 "malformed_envelope_id")
    mine ← is_envelope_in_inbox pubkey envelope_id
    fetch_if envelope_id mine

  unfoldable pub ack_envelope : String → String → Exec Bool
  unfolding is_envelope_id
  ack_envelope pubkey envelope_id = do
    raise_if (not (is_envelope_id envelope_id)) (http 400 "malformed_envelope_id")
    acknowledge_envelope pubkey envelope_id
    pure true

  unfoldable pub mail_seen : String → List String → Exec ℕ
  mail_seen pubkey envelope_ids = mark_mail_seen pubkey envelope_ids
