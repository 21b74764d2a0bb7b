-- ===== src/Tokens/Invite.antt =====
-- invite_tokens.py. The random token is an argument.
pub mod Cap
pub mod Once
pub mod Store
pub mod Refine
use morok_relay.Prelude.{
  ℕ, suc, ◌+◌, ◌*◌, String, Bool, true, false, Option, none, some, List, [], ◌∷◌, leb, length, map,
  ◌==◌, if◌then◌else◌,
}
use morok_relay.Prelude.Json.{Json, Dict, int, str, lookup}
use morok_relay.Redis.{Key, Redis, document, set, del, sadd, srem, expire}
use morok_relay.Redis.Pipeline.{◌▸◌, exists, get, members_at}
use morok_relay.Exec.{World, Exec, Outcome, ok, pure, gets, call, command, catch_all, ◌>>=◌, ◌>>◌}
use morok_relay.Queue.Inbox.{loads}
use morok_relay.Tokens.Shelf.{max_ttl_seconds, capped_ttl, or_none, count_live, scan, drop_stale}

abbrev pub default_ttl_seconds : ℕ
default_ttl_seconds = 7 * 86400

abbrev pub max_active_tokens_per_group : ℕ
max_active_tokens_per_group = 20

abbrev pub token_payload : String → String → ℕ → ℕ → Dict
token_payload group_id created_by now expires_at =
    ("group_id", str group_id)
    ∷ ("created_by", str created_by)
    ∷ ("created_at", int now)
    ∷ ("expires_at", int expires_at)
    ∷ []

-- the dictionary that `create_token` returns
pub record Created : Type 0 where
  pub token : String
  pub expires_at : ℕ
  pub created_at : ℕ

-- the one that `list_tokens` lists
pub record InviteInfo : Type 0 where
  pub token : String
  pub group_id : Json
  pub created_by : Json
  pub created_at : Json
  pub expires_at : Json

unfoldable pub info_of : String × Dict → InviteInfo
info_of (t, meta) = record {
  token = t;
  group_id = or_none (lookup "group_id" meta);
  created_by = or_none (lookup "created_by" meta);
  created_at = or_none (lookup "created_at" meta);
  expires_at = or_none (lookup "expires_at" meta);
}

module _ ⦃R : Redis⦄ where
  -- `_CREATE_LUA`: (allowed, number of live tokens)
  unfoldable pub create_lua : String → String → ℕ → Dict → ℕ → ℕ → R.Store → (Bool × ℕ) × R.Store
  create_lua group_id token max_active payload ttl set_ttl s =
      let (alive, s') =
        count_live Key.invite_token (Key.group_invites group_id)
          (members_at (Key.group_invites group_id) s) s in
      if leb max_active alive then ((false, alive), s') else (
        (true, suc alive),
        s'
            ▸ set (Key.invite_token token) (document payload) (some ttl)
            ▸ sadd (Key.group_invites group_id) token
            ▸ expire (Key.group_invites group_id) set_ttl,
      )

  abbrev pub created : String → ℕ → ℕ → Bool → Option Created
  created token now expires_at false = none
  created token now expires_at true =
      some (record { token = token; expires_at = expires_at; created_at = now })

  unfoldable pub create_token : String → String → String → ℕ → Exec (Option Created)
  unfolding create_lua
  create_token token group_id created_by ttl_seconds = do
    now ← gets (λ w. w.now)
    let expires_at = now + capped_ttl ttl_seconds
    result ← call (
        create_lua group_id token max_active_tokens_per_group
          (token_payload group_id created_by now expires_at) (capped_ttl ttl_seconds)
          (max_ttl_seconds + 86400))
    pure (created token now expires_at result.0)

  unfoldable pub get_token : String → Exec (Option Dict)
  get_token token = call (λ s. (loads (get (Key.invite_token token) s), s))

  -- `if group_id:` and the SREM, which may fail
  unfoldable pub forget : Option Json → String → Exec (Unit {0})
  forget (some (str group_id)) token =
      if group_id == ""
      then pure tt
      else catch_all (command (srem (Key.group_invites group_id) token)) (pure tt)
  forget _ token = pure tt

  unfoldable pub consumed : String → Option Dict → Exec (Option Dict)
  unfolding forget
  consumed token none = pure none
  consumed token (some meta) = do forget (lookup "group_id" meta) token; pure (some meta)

  -- GETDEL
  unfoldable pub take_token : String → R.Store → Option Dict × R.Store
  take_token token s = (loads (get (Key.invite_token token) s), s ▸ del (Key.invite_token token))

  unfoldable pub consume_token : String → Exec (Option Dict)
  unfolding take_token consumed
  consume_token token = do meta ← call (take_token token); consumed token meta

  unfoldable pub revoke_token : String → String → Exec Bool
  revoke_token group_id token = call (λ s. (
    exists (Key.invite_token token) s,
    s ▸ del (Key.invite_token token) ▸ srem (Key.group_invites group_id) token,
  ))

  unfoldable pub list_members : String → List String → Exec (List InviteInfo)
  unfolding info_of scan drop_stale
  list_members group_id [] = pure []
  list_members group_id (m ∷ ms) = do
    found ← scan Key.invite_token (m ∷ ms)
    drop_stale (Key.group_invites group_id) found.1
    pure (map info_of found.0)

  unfoldable pub list_tokens : String → Exec (List InviteInfo)
  unfolding list_members
  list_tokens group_id = do
    members ← call (λ s. (members_at (Key.group_invites group_id) s, s))
    list_members group_id members

  unfoldable pub count_active_tokens : String → Exec ℕ
  count_active_tokens group_id = do tokens ← list_tokens group_id; pure (length tokens)
