-- ===== src/Tokens/Invite/Store.antt =====
-- What invite_tokens.py promises of the tokens: a table of documents by token, of which a token can
-- be looked at, taken once and withdrawn, and that the module implements over Redis.
use morok_relay.Prelude.{
  ℕ, ◌+◌, String, ◌≡◌, Bool, true, false, Option, none, some, if◌then◌else◌, ◌==◌,
}
use morok_relay.Prelude.Json.{Dict}
use morok_relay.Redis.{Key, Value, Redis, document}
use morok_relay.Exec.{World, Exec, Outcome, ok, raised, pure, ◌>>=◌, redis_error}
use morok_relay.Tokens.Shelf.{capped_ttl}
use morok_relay.Tokens.Invite.{
  Created, token_payload, create_token, get_token, consume_token, revoke_token,
}

-- the table: the document of each token that is good
abbrev pub Invites : Type 0
Invites = String → Option Dict

abbrev pub without : String → Invites → Invites
without t m u = if t == u then none else m u

abbrev pub with_token : String → Dict → Invites → Invites
with_token t payload m u = if t == u then some payload else m u

abbrev pub is_some : Option Dict → Bool
is_some none = false
is_some (some meta) = true

pub data Request : Type 0 where
  -- token, group, creator, seconds to live
  issue : String → String → String → ℕ → Request
  look take : String → Request
  -- group, token
  withdraw : String → String → Request

pub data Reply : Type 0 where
  issued : Option Created → Reply
  found : Option Dict → Reply
  withdrawn : Bool → Reply

-- a step of the table: a request at a time, its reply, and the table after it
pub data TableStep (now : ℕ) (m : Invites) : Request → Outcome Reply → Invites → Type 0 where
  issues :
      (t g c : String) (ttl : ℕ)
      → TableStep now m
          (issue t g c ttl)
          (ok (
            issued
              (some (record { token = t; expires_at = now + capped_ttl ttl; created_at = now }))))
          (with_token t (token_payload g c now (now + capped_ttl ttl)) m)
  refuses : (t g c : String) (ttl : ℕ) → TableStep now m (issue t g c ttl) (ok (issued none)) m
  looks : (t : String) → TableStep now m (look t) (ok (found (m t))) m
  takes : (t : String) → TableStep now m (take t) (ok (found (m t))) (without t m)
  withdraws :
      (g t : String) → TableStep now m (withdraw g t) (ok (withdrawn (is_some (m t)))) (without t m)
  -- a failure of the connection, before or after the step was made
  fails : (q : Request) → TableStep now m q (raised redis_error) m
  loses :
      {q : Request} {r : Outcome Reply} {m' : Invites}
      → TableStep now m q r m'
      → TableStep now m q (raised redis_error) m'

abbrev pub value_of : Option Dict → Value
value_of none = Value.nothing
value_of (some meta) = Value.string (document meta)

module _ ⦃R : Redis⦄ where
  -- the request, by the functions of the module
  unfoldable pub serve : Request → Exec Reply
  serve (issue t g c ttl) = create_token t g c ttl >>= λ r. pure (issued r)
  serve (look t) = get_token t >>= λ r. pure (found r)
  serve (take t) = consume_token t >>= λ r. pure (found r)
  serve (withdraw g t) = revoke_token g t >>= λ r. pure (withdrawn r)

  -- the store holds the table
  pub record IsTable (m : Invites) (s : R.Store) : Type 0 where
    pub shown : (t : String) → (R.at s (Key.invite_token t)).value ≡ value_of (m t)

  -- the table takes a step that ends as the outcome and the world say
  abbrev pub Steps : Invites → World → Request → Outcome Reply × World → Type 0
  Steps m w q o = (m' : Invites) × (TableStep w.now m q o.0 m' × IsTable m' o.1.db)
