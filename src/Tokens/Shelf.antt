-- ===== src/Tokens/Shelf.antt =====
-- What the two token modules share: the part of their Lua scripts that counts the live tokens of a
-- set and drops the dead ones, and the reading of a list of tokens.
pub mod Alive
pub mod Within
use morok_relay.Prelude.{
  ℕ, suc, ◌*◌, min, max, String, Bool, true, false, Option, none, some, List, [], ◌∷◌,
  if◌then◌else◌,
}
use morok_relay.Prelude.Json.{Json, Dict, int, null}
use morok_relay.Redis.{Key, Redis, srem}
use morok_relay.Redis.Pipeline.{◌▸◌, exists, get}
use morok_relay.Exec.{World, Exec, Outcome, ok, pure, call, catch_all}
use morok_relay.Queue.Inbox.{loads}

-- both modules have the same bounds
abbrev pub min_ttl_seconds : ℕ
min_ttl_seconds = 60 * 60

abbrev pub max_ttl_seconds : ℕ
max_ttl_seconds = 30 * 86400

abbrev pub capped_ttl : ℕ → ℕ
capped_ttl ttl_seconds = max min_ttl_seconds (min ttl_seconds max_ttl_seconds)

-- `meta.get(k)` as a value
abbrev pub or_none : Option Json → Json
or_none none = Json.null
or_none (some v) = v

-- `tonumber(v) or 0`: the relay writes only numbers there
abbrev pub int_or_zero : Option Json → ℕ
int_or_zero (some (int n)) = n
int_or_zero _ = 0

module _ ⦃R : Redis⦄ (token_key : String → Key) (owner_key : Key) where
  -- the loop over SMEMBERS: the number of live tokens, and the set without the others
  unfoldable pub count_live : List String → R.Store → ℕ × R.Store
  count_live [] s = (0, s)
  count_live (member ∷ members) s =
      let live = exists (token_key member) s in
      let (n, s') = count_live members (if live then s else s ▸ srem owner_key member) in
      (if live then suc n else n, s')

module _ ⦃R : Redis⦄ (token_key : String → Key) where
  -- the tokens whose key holds a JSON document, with it
  unfoldable pub read_tokens : List String → R.Store → List (String × Dict)
  read_tokens [] s = []
  read_tokens (t ∷ ts) s =
      let rest = read_tokens ts s in
      elim (loads (get (token_key t) s)) [ none ↦ rest | some meta ↦ (t, meta) ∷ rest ]

  -- the other tokens
  unfoldable pub stale_tokens : List String → R.Store → List String
  stale_tokens [] s = []
  stale_tokens (t ∷ ts) s =
      let rest = stale_tokens ts s in
      elim (loads (get (token_key t) s)) [ none ↦ t ∷ rest | some meta ↦ rest ]

module _ ⦃R : Redis⦄ where
  -- SREM of several members
  unfoldable pub srem_all : Key → List String → R.Store → R.Store
  srem_all owner_key [] s = s
  srem_all owner_key (t ∷ ts) s = srem_all owner_key ts (s ▸ srem owner_key t)

  -- the pipeline of GETs, sorted into tokens and stale members
  unfoldable pub scan : (String → Key) → List String → Exec (List (String × Dict) × List String)
  scan token_key members =
      call (λ s. ((read_tokens token_key members s, stale_tokens token_key members s), s))

  -- `if stale:` and the SREM, which may fail
  unfoldable pub drop_stale : Key → List String → Exec (Unit {0})
  unfolding srem_all
  drop_stale owner_key [] = pure tt
  drop_stale owner_key (t ∷ ts) =
      catch_all (call (λ s. (tt, srem_all owner_key (t ∷ ts) s))) (pure tt)
