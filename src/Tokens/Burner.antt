-- ===== src/Tokens/Burner.antt =====
-- burner_tokens.py. The random token is an argument.
pub mod Cap
pub mod Messages
pub mod Order
pub mod Endpoints
use morok_relay.Prelude.{
  ℕ, suc, ◌+◌, ◌*◌, String, Bool, true, false, Option, none, some, List, [], ◌∷◌, leb, ltb, length,
  map, if◌then◌else◌,
}
use morok_relay.Prelude.Json.{Json, Dict, int, str, lookup, insert, or_null}
use morok_relay.Redis.{Key, Payload, Redis, document, set, set_xx_keepttl, del, sadd, srem}
use morok_relay.Redis.Pipeline.{◌▸◌, exists, get, members_at}
use morok_relay.Exec.{World, Exec, Outcome, ok, pure, gets, call, catch_all, ◌>>=◌, ◌>>◌}
use morok_relay.Queue.Inbox.{loads}
use morok_relay.Tokens.Shelf.{capped_ttl, or_none, int_or_zero, count_live, scan, drop_stale}

abbrev pub default_ttl_seconds : ℕ
default_ttl_seconds = 24 * 3600

abbrev pub max_active_tokens_per_owner : ℕ
max_active_tokens_per_owner = 10

abbrev pub max_messages_per_token : ℕ
max_messages_per_token = 100

-- the payload of a new token
abbrev pub token_payload : String → Option String → ℕ → ℕ → Dict
token_payload owner label now expires_at =
    ("owner_pubkey", str owner)
    ∷ ("label", or_null label)
    ∷ ("created_at", int now)
    ∷ ("expires_at", int expires_at)
    ∷ ("message_count", int 0)
    ∷ []

-- the dictionary that describes a token
pub record TokenInfo : Type 0 where
  pub token : String
  pub owner_pubkey_hex : Json
  pub label : Json
  pub created_at : Json
  pub expires_at : Json
  pub message_count : Json

-- `meta.get("message_count", 0)`
abbrev pub or_int_zero : Option Json → Json
or_int_zero none = int 0
or_int_zero (some v) = v

unfoldable pub info_of : String × Dict → TokenInfo
info_of (t, meta) = record {
  token = t;
  owner_pubkey_hex = or_none (lookup "owner_pubkey" meta);
  label = or_none (lookup "label" meta);
  created_at = or_none (lookup "created_at" meta);
  expires_at = or_none (lookup "expires_at" meta);
  message_count = or_int_zero (lookup "message_count" meta);
}

-- the key of the sort, for the numbers that the relay writes
unfoldable pub age_key : TokenInfo → ℕ
age_key t = int_or_zero (some t.created_at)

-- the stable sort, newest first
unfoldable pub place_newest : TokenInfo → List TokenInfo → List TokenInfo
place_newest t [] = t ∷ []
place_newest t (u ∷ us) =
    let rest = place_newest t us in if leb (age_key u) (age_key t) then t ∷ u ∷ us else u ∷ rest

unfoldable pub newest_first : List TokenInfo → List TokenInfo
unfolding place_newest
newest_first [] = []
newest_first (t ∷ ts) = place_newest t (newest_first ts)

module _ ⦃R : Redis⦄ where
  -- `_CREATE_LUA`: (allowed, number of live tokens)
  unfoldable pub create_lua : String → String → ℕ → Dict → ℕ → R.Store → (Bool × ℕ) × R.Store
  create_lua owner token max_active payload ttl s =
      let (alive, s') =
        count_live Key.burner_token (Key.burner_owner owner) (members_at (Key.burner_owner owner) s)
          s in
      if leb max_active alive then ((false, alive), s') else (
        (true, suc alive),
        s'
            ▸ set (Key.burner_token token) (document payload) (some ttl)
            ▸ sadd (Key.burner_owner owner) token,
      )

  abbrev pub created : String → String → Option String → ℕ → ℕ → Bool → Option TokenInfo
  created owner token label now expires_at false = none
  created owner token label now expires_at true = some (record {
    token = token;
    owner_pubkey_hex = str owner;
    label = or_null label;
    created_at = int now;
    expires_at = int expires_at;
    message_count = int 0;
  })

  unfoldable pub create_token : String → String → ℕ → Option String → Exec (Option TokenInfo)
  unfolding create_lua
  create_token token owner ttl_seconds label = do
    now ← gets (λ w. w.now)
    let expires_at = now + capped_ttl ttl_seconds
    result ← call (
        create_lua owner token max_active_tokens_per_owner
          (token_payload owner label now expires_at) (capped_ttl ttl_seconds))
    pure (created owner token label now expires_at result.0)

  unfoldable pub get_token : String → Exec (Option Dict)
  get_token token = call (λ s. (loads (get (Key.burner_token token) s), s))

  -- the SREM of the automatic revocation
  abbrev pub drop_from_owner : Option Json → String → R.Store → R.Store
  drop_from_owner (some (str owner)) token s = s ▸ srem (Key.burner_owner owner) token
  drop_from_owner _ token s = s

  -- `_INCR_LUA`
  unfoldable pub incr_lua : String → ℕ → Option Dict → R.Store → (Bool × ℕ) × R.Store
  incr_lua token max_messages none s = ((false, 0), s)
  incr_lua token max_messages (some meta) s =
      let count = int_or_zero (lookup "message_count" meta) + 1 in
      if ltb max_messages count
      then (
        (false, count),
        drop_from_owner (lookup "owner_pubkey" meta) token (s ▸ del (Key.burner_token token)),
      )
      else (
        (true, count),
        s
            ▸ set_xx_keepttl (Key.burner_token token)
                (document (insert "message_count" (int count) meta)),
      )

  unfoldable pub increment_message_count : String → Exec (Bool × ℕ)
  unfolding incr_lua
  increment_message_count token =
      call (λ s. incr_lua token max_messages_per_token (loads (get (Key.burner_token token) s)) s)

  unfoldable pub revoke_token : String → String → Exec Bool
  revoke_token owner token = call (λ s. (
    exists (Key.burner_token token) s,
    s ▸ del (Key.burner_token token) ▸ srem (Key.burner_owner owner) token,
  ))

  unfoldable pub list_members : String → List String → Exec (List TokenInfo)
  unfolding newest_first info_of scan drop_stale
  list_members owner [] = pure []
  list_members owner (m ∷ ms) = do
    found ← scan Key.burner_token (m ∷ ms)
    drop_stale (Key.burner_owner owner) found.1
    pure (newest_first (map info_of found.0))

  unfoldable pub list_tokens_for_owner : String → Exec (List TokenInfo)
  unfolding list_members
  list_tokens_for_owner owner = do
    members ← call (λ s. (members_at (Key.burner_owner owner) s, s))
    list_members owner members

  unfoldable pub count_active_tokens : String → Exec ℕ
  count_active_tokens owner = do tokens ← list_tokens_for_owner owner; pure (length tokens)
