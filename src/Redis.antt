-- ===== src/Redis.antt =====
-- The Redis server as the relay uses it: the keys that the source builds, the values, and the
-- commands. The server itself is a parameter, the record `Redis`: a store, what can be read from
-- it, and the two laws that its documentation gives of each command.
-- A key is a constructor for each f-string of the source, so that keys of different kinds differ.
-- Each key holds values of one kind, so WRONGTYPE errors do not arise.
pub mod Sets
pub mod Pipeline
pub mod Memory
use morok_relay.Prelude.{
  ℕ, suc, ◌+◌, ◌-◌, ◌≤◌, String, ◌≡◌, Bool, true, false, not, ◌&&◌, Option, none, some, List, [],
  ◌∷◌, ◌++◌, ◌==◌, leb, eqb, if◌then◌else◌,
}
use morok_relay.Prelude.Json.{Dict}
use Sets.{ZSet, zremove, zinsert, zprune, sremove, sinsert}

pub data Key : Type 0 where
  inbox envelope pending env_tomb ws_connections session user_sessions ws_ticket challenge :
      String → Key
  burner_token burner_owner invite_token group_invites : String → Key
  signed_checkin checkin_throttle last_seen_throttle fed_seen sealed_rl login_salt : String → Key
  delivered action_nonce : String → String → Key
  ratelimit burner_send_rl : String → String → ℕ → Key
  blob_expiry_index : Key

abbrev pub key_eq : Key → Key → Bool
key_eq (Key.inbox a) (Key.inbox b) = a == b
key_eq (Key.envelope a) (Key.envelope b) = a == b
key_eq (Key.pending a) (Key.pending b) = a == b
key_eq (Key.env_tomb a) (Key.env_tomb b) = a == b
key_eq (Key.ws_connections a) (Key.ws_connections b) = a == b
key_eq (Key.session a) (Key.session b) = a == b
key_eq (Key.user_sessions a) (Key.user_sessions b) = a == b
key_eq (Key.ws_ticket a) (Key.ws_ticket b) = a == b
key_eq (Key.challenge a) (Key.challenge b) = a == b
key_eq (Key.burner_token a) (Key.burner_token b) = a == b
key_eq (Key.burner_owner a) (Key.burner_owner b) = a == b
key_eq (Key.invite_token a) (Key.invite_token b) = a == b
key_eq (Key.group_invites a) (Key.group_invites b) = a == b
key_eq (Key.signed_checkin a) (Key.signed_checkin b) = a == b
key_eq (Key.checkin_throttle a) (Key.checkin_throttle b) = a == b
key_eq (Key.last_seen_throttle a) (Key.last_seen_throttle b) = a == b
key_eq (Key.fed_seen a) (Key.fed_seen b) = a == b
key_eq (Key.sealed_rl a) (Key.sealed_rl b) = a == b
key_eq (Key.login_salt a) (Key.login_salt b) = a == b
key_eq (Key.delivered a c) (Key.delivered b d) = a == b && c == d
key_eq (Key.action_nonce a c) (Key.action_nonce b d) = a == b && c == d
key_eq (Key.ratelimit a c m) (Key.ratelimit b d n) = a == b && (c == d && eqb m n)
key_eq (Key.burner_send_rl a c m) (Key.burner_send_rl b d n) = a == b && (c == d && eqb m n)
key_eq Key.blob_expiry_index Key.blob_expiry_index = true
key_eq _ _ = false

-- What a Redis string holds: a JSON document, a text or a counter.
pub data Payload : Type 0 where
  document : Dict → Payload
  text : String → Payload
  number : ℕ → Payload

pub data Value : Type 0 where
  nothing : Value
  string : Payload → Value
  zset : ZSet → Value
  members : List String → Value

-- The value of a key and its remaining time to live in seconds; `none` means without end.
pub record Entry : Type 0 where
  pub value : Value
  pub ttl : Option ℕ

abbrev pub gone : Entry
gone = record { value = Value.nothing; ttl = none }

-- EXISTS: a set that has lost its last member is no longer there
abbrev pub is_there : Entry → Bool
is_there e = elim e.value [
  | Value.nothing ↦ false
  | Value.string _ ↦ true
  | Value.zset z ↦ elim z [ [] ↦ false | _ ↦ true ]
  | Value.members l ↦ elim l [ [] ↦ false | _ ↦ true ]
]

-- GET
abbrev pub get_of : Value → Option Payload
get_of (Value.string p) = some p
get_of _ = none

abbrev pub zset_of : Value → ZSet
zset_of (Value.zset z) = z
zset_of _ = []

abbrev pub members_of : Value → List String
members_of (Value.members l) = l
members_of _ = []

abbrev pub count_of : Value → ℕ
count_of (Value.string (number n)) = n
count_of _ = 0

-- A key that is created anew has no time to live.
abbrev pub kept_ttl : Entry → Option ℕ
kept_ttl e = if is_there e then e.ttl else none

pub data Command : Type 0 where
  set : Key → Payload → Option ℕ → Command
  set_nx : Key → Payload → ℕ → Command
  set_xx_keepttl : Key → Payload → Command
  del : Key → Command
  incr : Key → Command
  expire : Key → ℕ → Command
  zadd : Key → String → ℕ → Command
  zrem : Key → String → Command
  zremrangebyscore : Key → ℕ → Command
  sadd srem : Key → String → Command
  publish : String → Dict → Command
  elapse : ℕ → Command

-- `f` at the key `k`, the identity at any other key `j`.
abbrev pub touch : Key → Key → (Entry → Entry) → Entry → Entry
touch k j f e = if key_eq k j then f e else e

abbrev pub elapsed : ℕ → Entry → Entry
elapsed d e = elim e.ttl [
  | none ↦ e
  | some t ↦ if leb t d then gone else record e { ttl = some (t - d) }
]

-- What the documentation of each command says of the entry at the key `j`. `elapse` is no command:
-- it is the passing of seconds, after which a key is gone whose time to live is over.
abbrev pub effect : Command → Key → Entry → Entry
effect (set k p t) j e = touch k j (λ _. record { value = Value.string p; ttl = t }) e
effect (set_nx k p t) j e =
    touch k j (λ o. if is_there o then o else record { value = Value.string p; ttl = some t }) e
effect (set_xx_keepttl k p) j e =
    touch k j (λ o. if is_there o then record o { value = Value.string p } else o) e
effect (del k) j e = touch k j (λ _. gone) e
effect (incr k) j e =
    touch k j
      (λ o. record { value = Value.string (number (count_of o.value + 1)); ttl = kept_ttl o }) e
effect (expire k t) j e = touch k j (λ o. record o { ttl = if is_there o then some t else o.ttl }) e
effect (zadd k m x) j e =
    touch k j (λ o. record { value = Value.zset (zinsert m x (zset_of o.value)); ttl = kept_ttl o })
      e
effect (zrem k m) j e =
    touch k j (λ o. record o { value = Value.zset (zremove m (zset_of o.value)) }) e
effect (zremrangebyscore k hi) j e =
    touch k j (λ o. record o { value = Value.zset (zprune hi (zset_of o.value)) }) e
effect (sadd k m) j e =
    touch k j
      (λ o. record { value = Value.members (sinsert m (members_of o.value)); ttl = kept_ttl o }) e
effect (srem k m) j e =
    touch k j (λ o. record o { value = Value.members (sremove m (members_of o.value)) }) e
effect (publish c v) j e = e
effect (elapse d) j e = elapsed d e

-- What a command sends to the subscribers: a channel and an event.
abbrev pub sent : Command → List (String × Dict)
sent (publish c v) = (c, v) ∷ []
sent _ = []

pub record Redis : Type 1 where
  pub Store : Type 0
  pub at : Store → Key → Entry
  pub published : Store → List (String × Dict)
  pub run : Command → Store → Store
  pub at_run : (c : Command) (s : Store) (j : Key) → at (run c s) j ≡ effect c j (at s j)
  pub published_run : (c : Command) (s : Store) → published (run c s) ≡ published s ++ sent c
