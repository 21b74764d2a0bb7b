-- ===== src/Sealed.antt =====
-- api/sealed.py: delivery tokens, and envelopes that do not name their sender. The table of tokens
-- and the users are arguments.
pub mod Cap
pub mod Admission
use Prim.Native.String.{◌++◌ as ◌+ˢ◌, count}
use morok_relay.Prelude.{
  ℕ, zero, suc, ◌+◌, ◌*◌, String, Bool, true, false, not, ◌&&◌, ◌||◌, Option, none, some, List, [],
  ◌∷◌, map, take, leb, ltb, eqb, elem, ◌==◌, if◌then◌else◌,
}
use morok_relay.Redis.{Key, Redis, incr, expire, count_of}
use morok_relay.Redis.Pipeline.{◌▸◌}
use morok_relay.Exec.{
  Exec, http, value_error, pure, raise, raise_if, gets, call, command, catch_all, ◌>>=◌, ◌>>◌,
}
use morok_relay.Sessions.Value.{Decimal}
use morok_relay.Dms.{Codec}
use morok_relay.Blob.{all_hex}
use morok_relay.Queue.Model.{Sha256, Envelope}
use morok_relay.Queue.Inbox.{envelope_exists}
use morok_relay.Queue.Enqueue.{write_blob_then_enqueue}
use morok_relay.Queue.Delete.{DeleteError, Deleted, delete_sealed_envelope}
use morok_relay.Federation.{Account, FedSettings}
use morok_relay.Federation.Events.{live_account}

abbrev pub max_tokens_per_pubkey : ℕ
max_tokens_per_pubkey = 64

-- a row of `inbox_tokens`, its identifier as text and its public key as bytes
pub record InboxToken : Type 0 where
  pub id : String
  pub pubkey : String
  pub token_hash : String
  pub created_at : ℕ

abbrev pub drop : ℕ → List InboxToken → List InboxToken
drop zero rows = rows
drop (suc n) [] = []
drop (suc n) (r ∷ rows) = drop n rows

-- `ORDER BY created_at DESC`
unfoldable pub place_newest : InboxToken → List InboxToken → List InboxToken
place_newest r [] = r ∷ []
place_newest r (x ∷ rows) =
    let rest = place_newest r rows in
    if leb x.created_at r.created_at then r ∷ x ∷ rows else x ∷ rest

unfoldable pub fetch_inbox_tokens_for_pubkey : String → List InboxToken → List InboxToken
unfolding place_newest
fetch_inbox_tokens_for_pubkey pubkey [] = []
fetch_inbox_tokens_for_pubkey pubkey (r ∷ rows) =
    let rest = fetch_inbox_tokens_for_pubkey pubkey rows in
    if r.pubkey == pubkey then place_newest r rest else rest

unfoldable pub has_hash : String → List InboxToken → Bool
has_hash token_hash [] = false
has_hash token_hash (r ∷ rows) = r.token_hash == token_hash || has_hash token_hash rows

-- `db.delete` of each row of a list
unfoldable pub delete_rows : List String → List InboxToken → List InboxToken
delete_rows ids [] = []
delete_rows ids (r ∷ rows) =
    let rest = delete_rows ids rows in if elem r.id ids then rest else r ∷ rest

abbrev pub ids_of : List InboxToken → List String
ids_of rows = map (λ r. r.id) rows

pub record Registered : Type 0 where
  pub registered : Bool
  pub rotated : Bool

abbrev pub is_any : List InboxToken → Bool
is_any [] = false
is_any (r ∷ rows) = true

-- what follows the query, under the advisory lock
abbrev pub registered_among :
    String → String → String → ℕ → List InboxToken → List InboxToken → Registered × List InboxToken
registered_among id pubkey token_hash now rows own =
    if has_hash token_hash own then (record { registered = true; rotated = false }, rows) else (
      record { registered = true; rotated = is_any own },
      record { id = id; pubkey = pubkey; token_hash = token_hash; created_at = now }
          ∷ delete_rows (ids_of (drop 63 own)) rows,
    )

unfoldable pub register_inbox_token :
    String → String → String → ℕ → List InboxToken → Registered × List InboxToken
unfolding fetch_inbox_tokens_for_pubkey has_hash delete_rows
register_inbox_token id pubkey token_hash now rows =
    registered_among id pubkey token_hash now rows (fetch_inbox_tokens_for_pubkey pubkey rows)

abbrev pub is_token : String → String → InboxToken → Bool
is_token pubkey token_hash r = r.pubkey == pubkey && r.token_hash == token_hash

unfoldable pub revoke_inbox_token : String → String → List InboxToken → List InboxToken
revoke_inbox_token pubkey token_hash [] = []
revoke_inbox_token pubkey token_hash (r ∷ rows) =
    let rest = revoke_inbox_token pubkey token_hash rows in
    if is_token pubkey token_hash r then rest else r ∷ rest

unfoldable pub is_registered : String → String → List InboxToken → Bool
is_registered pubkey token_hash [] = false
is_registered pubkey token_hash (r ∷ rows) =
    is_token pubkey token_hash r || is_registered pubkey token_hash rows

pub record SealedEnvelopeIn : Type 0 where
  pub to : String
  pub ts : ℕ
  pub ttl : ℕ
  pub blob : String
  pub delivery_token : String
  pub delete_key_hash : Option String

pub record SealedAck : Type 0 where
  pub envelope_id : String
  pub queued : Bool
  pub expires_at : ℕ

abbrev pub sealed_envelope : FedSettings → String → SealedEnvelopeIn → Envelope
sealed_envelope settings envelope_id body = record {
  envelope_id = envelope_id;
  sender = "";
  recipient = body.to;
  timestamp = body.ts;
  ttl_seconds = body.ttl;
  signature = "";
  hard_ceiling_seconds = settings.message_ttl_hard_seconds;
  sender_username = none;
  sealed = true;
  delete_key_hash = body.delete_key_hash;
  channel = none;
  mail_from = none;
  mail_origin = none;
  extra_meta = [];
}

abbrev pub not_queued : String → SealedAck
not_queued envelope_id = record { envelope_id = envelope_id; queued = false; expires_at = 0 }

abbrev pub sealed_ack : String → Option ℕ → SealedAck
sealed_ack envelope_id none = not_queued envelope_id
sealed_ack envelope_id (some t) = record {
  envelope_id = envelope_id;
  queued = true;
  expires_at = t;
}

abbrev pub over : ℕ → Option ℕ → Bool
over limit none = false
over limit (some n) = ltb limit n

module _ ⦃R : Redis⦄ where
  -- INCR and, for the first, EXPIRE
  abbrev pub count_use : String → Exec (Option ℕ)
  count_use token_hash = do
    n ← call (λ s. (
      count_of (R.at (s ▸ incr (Key.sealed_rl token_hash)) (Key.sealed_rl token_hash)).value,
      s ▸ incr (Key.sealed_rl token_hash),
    ))
    if eqb n 1 then command (expire (Key.sealed_rl token_hash) 60) else pure tt
    pure (some n)

  unfoldable pub check_token_rate_limit : String → ℕ → Exec (Unit {0})
  check_token_rate_limit token_hash limit = do
    counted ← catch_all (count_use token_hash) (pure none)
    raise_if (over limit counted) (http 429 "sealed_rate_limit_exceeded")

  abbrev pub or_bad : ℕ → String → Option String → Exec String
  or_bad status detail none = raise (http status detail)
  or_bad status detail (some s) = pure s

  abbrev pub or_value_error : Option String → Exec String
  or_value_error none = raise value_error
  or_value_error (some s) = pure s

  abbrev pub at_home : FedSettings → Option Account → Exec (Unit {0})
  at_home settings none = raise (http 404 "recipient_unknown")
  at_home settings (some a) =
      raise_if (not (a.home_relay == settings.relay_name))
        (http 421 "recipient_not_local_post_to_home_relay")

  module _ ⦃H : Sha256⦄ ⦃D : Decimal⦄ ⦃C : Codec⦄ (settings : FedSettings) (rate_limit : ℕ) where
    -- the bytes of "sealed.v1", the recipient, the time and the hash of the blob
    abbrev pub sealed_id : String → ℕ → String → String
    sealed_id recipient ts blob =
        C.digest ("sealed.v1" ∷ recipient ∷ C.to_bytes ts ∷ C.digest (blob ∷ []) ∷ [])

    abbrev pub queue_sealed : SealedEnvelopeIn → String → String → Bool → Exec SealedAck
    queue_sealed body blob envelope_id true = pure (not_queued envelope_id)
    queue_sealed body blob envelope_id false = do
      expires_at ← write_blob_then_enqueue (sealed_envelope settings envelope_id body) blob
      pure (sealed_ack envelope_id expires_at)

    -- what follows the decoding; the push notification is left out
    unfoldable pub admit_sealed :
        SealedEnvelopeIn → List Account → List InboxToken → String → Exec SealedAck
    unfolding live_account is_registered check_token_rate_limit
    admit_sealed body accounts tokens blob = do
      recipient ← or_value_error (C.from_hex body.to)
      at_home settings (live_account recipient accounts)
      presented ← or_value_error (H.of_hex body.delivery_token)
      raise_if (not (is_registered recipient presented tokens)) (http 403 "invalid_delivery_token")
      check_token_rate_limit presented rate_limit
      known ← envelope_exists (sealed_id recipient body.ts blob)
      queue_sealed body blob (sealed_id recipient body.ts blob) known

    unfoldable pub send_sealed_envelope :
        SealedEnvelopeIn → List Account → List InboxToken → Exec SealedAck
    unfolding admit_sealed
    send_sealed_envelope body accounts tokens = do
      now ← gets (λ w. w.now)
      raise_if (ltb (body.ts + 300) now) (http 400 "envelope_too_old")
      raise_if (ltb (now + 60) body.ts) (http 400 "envelope_from_the_future")
      blob ← or_bad 400 "blob_not_base64" (C.b64decode body.blob)
      raise_if (ltb settings.max_blob_bytes (count blob))
          (http 413 ("blob_too_large_max_" +ˢ (D.show settings.max_blob_bytes +ˢ "_bytes")))
      admit_sealed body accounts tokens blob

  abbrev pub deleted_or_403 : Option DeleteError → Exec Bool
  deleted_or_403 none = pure true
  deleted_or_403 (some e) = raise (http 403 "delete_not_authorized")

  unfoldable pub delete_sealed : ⦃H : Sha256⦄ → String → String → Exec Bool
  delete_sealed envelope_id delete_key = do
    raise_if (not (eqb (count envelope_id) 64 && all_hex envelope_id))
        (http 400 "malformed_envelope_id")
    result ← delete_sealed_envelope envelope_id delete_key
    deleted_or_403 result.error
