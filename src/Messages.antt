-- ===== src/Messages.antt =====
-- api/messages.py: the endpoints of direct messages, and what they put into the table of rows for
-- other relays.
pub mod Send
pub mod Inbox
pub mod Delete
pub mod Receipts
use Prim.Native.String.{◌++◌ as ◌+ˢ◌, count}
use morok_relay.Prelude.{
  ℕ, ◌+◌, ◌-◌, String, Bool, true, false, ◌&&◌, Option, none, some, List, [], ◌∷◌, ◌==◌, leb, eqb,
  if◌then◌else◌,
}
use morok_relay.Prelude.Json.{Dict}
use morok_relay.Blob.{all_hex}
use morok_relay.Queue.Model.{Sha256}
use morok_relay.RateLimit.Depends.{first_chars}
use morok_relay.Federation.{Outbound, pending}

-- a new row; its identifier is an argument
abbrev pub new_row : String → String → Dict → String → ℕ → Outbound
new_row id envelope_id payload target_relay now = record {
  id = id;
  envelope_id = envelope_id;
  envelope_data = payload;
  target_relay = target_relay;
  status = pending;
  attempts = 0;
  next_attempt_at = now;
  last_error = none;
  created_at = now;
  delivered_at = none;
}

unfoldable pub has_envelope : String → List Outbound → Bool
has_envelope envelope_id [] = false
has_envelope envelope_id (r ∷ rows) =
    if r.envelope_id == envelope_id then true else has_envelope envelope_id rows

unfoldable pub has_row : String → String → List Outbound → Bool
has_row envelope_id target_relay [] = false
has_row envelope_id target_relay (r ∷ rows) =
    if r.envelope_id == envelope_id && r.target_relay == target_relay
    then true
    else has_row envelope_id target_relay rows

-- the query for a duplicate, and the INSERT if there is none
unfoldable pub queue_once : String → String → Dict → String → ℕ → List Outbound → List Outbound
unfolding has_row
queue_once id envelope_id payload target_relay now rows =
    if has_row envelope_id target_relay rows
    then rows
    else new_row id envelope_id payload target_relay now ∷ rows

-- the parts of `_synthetic_queue_id`, each with a zero byte after it
unfoldable pub zero_ended : List String → String
zero_ended [] = ""
zero_ended (p ∷ parts) = p +ˢ ("\0" +ˢ zero_ended parts)

-- groups.py: `_synthetic_queue_id`
unfoldable pub synthetic_queue_id : ⦃H : Sha256⦄ → String → List String → String
unfolding zero_ended first_chars
synthetic_queue_id ⦃H⦄ prefix parts =
    let digest = H.of_text (zero_ended parts) in
    if leb 64 (count prefix + 1)
    then first_chars 64 digest
    else prefix +ˢ ("-" +ˢ first_chars (64 - count prefix - 1) digest)

-- 64 characters out of "0123456789abcdef"
unfoldable pub is_envelope_id : String → Bool
unfolding all_hex
is_envelope_id envelope_id = eqb (count envelope_id) 64 && all_hex envelope_id
