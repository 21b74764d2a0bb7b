-- ===== src/Tokens/Burner/Endpoints.antt =====
-- api/burner.py: the handlers. `registered` says whether the SELECT over the users finds a key.
pub mod Owner
use Prim.Native.Char.{code}
use Prim.Native.String.{count, ◌++◌ as ◌+ˢ◌}
use morok_relay.Prelude.{
  ℕ, zero, suc, ◌+◌, ◌*◌, ◌/◌, String, Bool, true, false, not, ◌&&◌, ◌||◌, Option, none, some, List,
  [], ◌∷◌, eqb, leb, ltb, ◌==◌, if◌then◌else◌,
}
use morok_relay.Prelude.Json.{Json, Dict, str, lookup, is_text}
use morok_relay.Redis.{Key, Redis, count_of, incr, expire}
use morok_relay.Redis.Pipeline.{◌▸◌}
use morok_relay.Exec.{
  World, Exec, Outcome, ok, raised, http, key_error, pure, raise, raise_if, gets, call, command,
  ◌>>=◌, ◌>>◌,
}
use morok_relay.Blob.{all_hex}
use morok_relay.Queue.Model.{Sha256, Envelope}
use morok_relay.Queue.Enqueue.{write_blob_then_enqueue}
use morok_relay.Queue.Inbox.{envelope_exists}
use morok_relay.Sessions.Value.{Decimal}
use morok_relay.RateLimit.Identifier.{Request, get_ip_from_request}
use morok_relay.RateLimit.Depends.{first_chars}
use morok_relay.Tokens.Burner.{
  TokenInfo, default_ttl_seconds, max_active_tokens_per_owner, create_token, get_token,
  increment_message_count, revoke_token, list_tokens_for_owner,
}
use morok_relay.Tokens.Shelf.{or_none}
use morok_relay.Dms.{Codec}

abbrev pub send_rate_limit_per_minute : ℕ
send_rate_limit_per_minute = 10

abbrev pub max_sender_label_len : ℕ
max_sender_label_len = 64

-- `[A-Za-z0-9_-]`
abbrev pub is_token_char : ℕ → Bool
is_token_char c =
    (leb b'A' c && leb c b'Z')
    || (leb b'a' c && leb c b'z')
    || (leb b'0' c && leb c b'9')
    || (eqb c b'_' || eqb c b'-')

-- the length of a text of such characters, which `$` lets end in one newline
unfoldable pub token_length : String → Option ℕ
token_length String.[] = some 0
token_length (String.◌∷◌ c s) =
    let rest = token_length s in
    if is_token_char (code c)
    then elim rest [ none ↦ none | some n ↦ some (suc n) ]
    else if eqb (code c) 10 && s == ""
    then some 0
    else none

-- `BURNER_TOKEN_PATTERN.match`
unfoldable pub is_token : String → Bool
unfolding token_length
is_token s = elim (token_length s) [ none ↦ false | some n ↦ leb 20 n && leb n 40 ]

pub record PublicInfo : Type 0 where
  pub owner_pubkey_hex : Json
  pub label : Json
  pub expires_at : Json

pub record BurnerSend : Type 0 where
  pub ephemeral_pubkey_hex : String
  pub blob_b64 : String
  pub sender_label : Option String

pub record BurnerSendAck : Type 0 where
  pub envelope_id : String
  pub queued : Bool
  pub expires_at : Option ℕ
  pub message_count : Option ℕ

abbrev pub or_default_ttl : Option ℕ → ℕ
or_default_ttl none = default_ttl_seconds
or_default_ttl (some ttl) = if eqb ttl 0 then default_ttl_seconds else ttl

abbrev pub or_empty : Option String → String
or_empty none = ""
or_empty (some s) = s

module _ ⦃R : Redis⦄ where
  abbrev pub or_gone : Option Dict → Exec Dict
  or_gone none = raise (http 404 "burner_link_invalid_or_expired")
  or_gone (some meta) = pure meta

  -- `meta[k]`
  abbrev pub or_key_error : Option Json → Exec Json
  or_key_error none = raise key_error
  or_key_error (some v) = pure v

  unfoldable pub check_token : String → Exec (Unit {0})
  check_token token = raise_if (not (is_token token)) (http 400 "malformed_token")

  module _ ⦃D : Decimal⦄ where
    abbrev pub or_too_many : Option TokenInfo → Exec TokenInfo
    or_too_many none =
        raise (http 409 ("too_many_active_burner_links_max_" +ˢ D.show max_active_tokens_per_owner))
    or_too_many (some info) = pure info

    unfoldable pub create_burner_token : String → String → Option ℕ → Option String → Exec TokenInfo
    create_burner_token token pubkey ttl_seconds label =
        create_token token pubkey (or_default_ttl ttl_seconds) label >>= or_too_many

  unfoldable pub list_burner_tokens : String → Exec (List TokenInfo)
  list_burner_tokens pubkey = list_tokens_for_owner pubkey

  -- what follows the lookup
  abbrev pub revoke_own : String → String → Option Dict → Exec Bool
  revoke_own token pubkey none = pure false
  revoke_own token pubkey (some meta) = do
    raise_if (not (is_text (lookup "owner_pubkey" meta) pubkey)) (http 403 "not_your_token")
    revoke_token pubkey token

  unfoldable pub revoke_burner_token : String → String → Exec Bool
  unfolding check_token
  revoke_burner_token token pubkey = do
    check_token token
    get_token token >>= revoke_own token pubkey

  unfoldable pub public_burner_info : String → Exec PublicInfo
  unfolding check_token
  public_burner_info token = do
    check_token token
    found ← get_token token
    meta ← or_gone found
    owner ← or_key_error (lookup "owner_pubkey" meta)
    expires_at ← or_key_error (lookup "expires_at" meta)
    pure (record {
      owner_pubkey_hex = owner;
      label = or_none (lookup "label" meta);
      expires_at = expires_at;
    })

module _ ⦃R : Redis⦄ ⦃H : Sha256⦄ where
  -- INCR and, for the first of the minute, EXPIRE
  unfoldable pub enforce_public_send_rate_limit : String → String → Exec (Unit {0})
  enforce_public_send_rate_limit ip token = do
    now ← gets (λ w. w.now)
    let bucket = Key.burner_send_rl (first_chars 32 (H.of_text token)) ip (now / 60)
    current ← call (λ s. (count_of (R.at (s ▸ incr bucket) bucket).value, s ▸ incr bucket))
    if eqb current 1 then command (expire bucket 90) else pure tt
    raise_if (ltb send_rate_limit_per_minute current) (http 429 "too_many_send_attempts_try_later")

module _ ⦃R : Redis⦄ ⦃H : Sha256⦄ ⦃C : Codec⦄ where
  abbrev pub sender_meta : Option String → String
  sender_meta label =
      let sender_label = first_chars max_sender_label_len (C.strip (or_empty label)) in
      if sender_label == "" then "🔥burner" else "🔥burner::" +ˢ sender_label

  abbrev pub burner_envelope : String → String → String → BurnerSend → ℕ → ℕ → Envelope
  burner_envelope envelope_id owner placeholder_sig body now hard_ceiling = record {
    envelope_id = envelope_id;
    sender = body.ephemeral_pubkey_hex;
    recipient = owner;
    timestamp = now;
    ttl_seconds = 7 * 86400;
    signature = placeholder_sig;
    hard_ceiling_seconds = hard_ceiling;
    sender_username = some (sender_meta body.sender_label);
    sealed = false;
    delete_key_hash = none;
    channel = none;
    mail_from = none;
    mail_origin = none;
    extra_meta = [];
  }

  abbrev pub or_not_base64 : Option String → Exec String
  or_not_base64 none = raise (http 400 "blob_not_base64")
  or_not_base64 (some blob) = pure blob

  -- `meta["owner_pubkey"]`, which the relay writes as a text
  abbrev pub text_of : Option Json → Exec String
  text_of (some (str owner)) = pure owner
  text_of _ = raise key_error

  -- the checks of the body
  unfoldable pub checked_blob : (String → Bool) → ℕ → String → BurnerSend → Exec String
  checked_blob registered max_blob_bytes owner body = do
    raise_if (not (eqb (count body.ephemeral_pubkey_hex) 64 && all_hex body.ephemeral_pubkey_hex))
        (http 400 "malformed_ephemeral_pubkey")
    raise_if (not (registered owner)) (http 404 "recipient_not_found")
    blob ← or_not_base64 (C.b64decode body.blob_b64)
    raise_if (eqb (count blob) 0 || ltb max_blob_bytes (count blob)) (http 413 "blob_size_invalid")
    pure blob

  -- the envelope, unless it is known
  abbrev pub queue_unless :
      String → String → BurnerSend → String → ℕ → ℕ → String → ℕ → Bool → Exec BurnerSendAck
  queue_unless placeholder_sig owner body blob hard_ceiling messages envelope_id now true =
      pure (record {
        envelope_id = envelope_id;
        queued = false;
        expires_at = none;
        message_count = none;
      })
  queue_unless placeholder_sig owner body blob hard_ceiling messages envelope_id now false = do
    expires_at ←
        write_blob_then_enqueue
          (burner_envelope envelope_id owner placeholder_sig body now hard_ceiling) blob
    pure (record {
      envelope_id = envelope_id;
      queued = true;
      expires_at = expires_at;
      message_count = some messages;
    })

  unfoldable pub queue_message :
      String → String → BurnerSend → String → ℕ → Bool × ℕ → Exec BurnerSendAck
  unfolding write_blob_then_enqueue
  queue_message placeholder_sig owner body blob hard_ceiling counted = do
    raise_if (not counted.0) (http 429 "burner_link_message_limit_reached")
    now ← gets (λ w. w.now)
    let envelope_id =
        C.digest (body.ephemeral_pubkey_hex ∷ owner ∷ C.to_bytes now ∷ C.digest (blob ∷ []) ∷ [])
    known ← envelope_exists envelope_id
    queue_unless placeholder_sig owner body blob hard_ceiling counted.1 envelope_id now known

  -- `placeholder_sig` is 64 zero bytes in hex; `ip` is what `get_ip_from_request` makes of the request
  unfoldable pub public_burner_send :
      (String → Bool) → ℕ → ℕ → String → String → String → BurnerSend → Exec BurnerSendAck
  unfolding check_token enforce_public_send_rate_limit checked_blob queue_message
  public_burner_send registered max_blob_bytes hard_ceiling placeholder_sig ip token body = do
    check_token token
    enforce_public_send_rate_limit ip token
    found ← get_token token
    meta ← or_gone found
    owner ← text_of (lookup "owner_pubkey" meta)
    blob ← checked_blob registered max_blob_bytes owner body
    counted ← increment_message_count token
    queue_message placeholder_sig owner body blob hard_ceiling counted
