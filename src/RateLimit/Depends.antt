-- ===== src/RateLimit/Depends.antt =====
-- rate_limit.py: the dependencies that the routes declare, and their 429.
pub mod Tor
use Prim.Native.String.{count, ◌++◌ as ◌+ˢ◌}
use morok_relay.Prelude.{
  ap, eq_iff, ◌⊎◌, ℕ, zero, suc, ◌+◌, ◌-◌, ◌*◌, ◌/◌, ◌≤◌, String, ◌≡◌, refl, Bool, true, false, inl,
  inr, Option, none, some, List, [], ◌∷◌, arith, eqb, leb, min, ◌==◌, Bool-cases, eq_refl,
  if◌then◌else◌,
}
use morok_relay.Prelude.Json.{Json, Dict, str, lookup}
use morok_relay.Redis.{Key, Redis, count_of, incr, expire}
use morok_relay.Redis.Pipeline.{◌▸◌}
use morok_relay.Exec.{World, Exec, Outcome, ok, raised, http, call, calm}
use morok_relay.Sessions.Value.{Decimal}
use morok_relay.RateLimit.Identifier.{Request, get_ip_from_request}
use morok_relay.RateLimit.Check.{
  Answer, Fallback, bump, check_rate_limit, tor_aware_check, tor_layers, tor_identity,
  tor_global_multiplier,
}

-- `s[:n]`
unfoldable pub first_chars : ℕ → String → String
first_chars zero s = ""
first_chars (suc n) String.[] = ""
first_chars (suc n) (String.◌∷◌ c s) = String.◌∷◌ c (first_chars n s)

-- the identity that a body claims; `none` is a body that is no JSON object, `lower` is `str.lower`
unfoldable pub claimed_in_body : (String → String) → Option Dict → Option String
claimed_in_body lower none = none
claimed_in_body lower (some payload) = elim (lookup "pubkey_hex" payload) [
  | none ↦ none
  | some v ↦ elim v [
    | Json.str candidate ↦ if eqb (count candidate) 64 then some (lower candidate) else none
    | _ ↦ none
  ]
]

-- the identity that a parameter of the path claims
unfoldable pub claimed_in_path : (String → String) → Option String → Option String
unfolding first_chars
claimed_in_path lower none = none
claimed_in_path lower (some param) = some (first_chars 64 (lower param))

module _ ⦃R : Redis⦄ ⦃D : Decimal⦄ where
  -- `_raise_rate_limited`
  abbrev pub rate_limited : String → ℕ → ℕ → Outcome (Unit {0})
  rate_limited bucket current limit = raised (
      http 429 (
        "rate_limited_"
        +ˢ (bucket +ˢ ("_" +ˢ (D.show current +ˢ ("_of_" +ˢ (D.show limit +ˢ "_per_minute")))))))

  -- what the dependency does with the answer
  abbrev pub require_allowed :
      String → ℕ → Answer × World × Fallback → Outcome (Unit {0}) × World × Fallback
  require_allowed bucket limit ((true, current, retry), w, f) = (ok tt, w, f)
  require_allowed bucket limit ((false, current, retry), w, f) =
      (rate_limited bucket current limit, w, f)

  unfoldable pub rate_limit_by_ip :
      Bool
      → String
      → String
      → ℕ
      → Request
      → World
      → Fallback
      → Outcome (Unit {0}) × World × Fallback
  rate_limit_by_ip enabled trusted bucket limit request w f =
      require_allowed bucket limit
        (check_rate_limit enabled bucket (get_ip_from_request trusted request) limit w f)

  -- for the session that `get_current_session` gave
  unfoldable pub rate_limit_by_pubkey :
      Bool → String → ℕ → String → World → Fallback → Outcome (Unit {0}) × World × Fallback
  rate_limit_by_pubkey enabled bucket limit pubkey w f =
      require_allowed bucket limit (check_rate_limit enabled bucket pubkey limit w f)

  -- both factories for Tor, by the identity that they found
  unfoldable pub rate_limit_tor_aware :
      Bool
      → String
      → String
      → ℕ
      → Option String
      → Request
      → World
      → Fallback
      → Outcome (Unit {0}) × World × Fallback
  rate_limit_tor_aware enabled trusted bucket limit claimed request w f =
      require_allowed bucket limit
        (tor_aware_check enabled bucket (get_ip_from_request trusted request) limit claimed w f)

  unfoldable pub rate_limit_tor_aware_by_body_pubkey :
      (String → String)
      → Bool
      → String
      → String
      → ℕ
      → Option Dict
      → Request
      → World
      → Fallback
      → Outcome (Unit {0}) × World × Fallback
  unfolding claimed_in_body rate_limit_tor_aware
  rate_limit_tor_aware_by_body_pubkey lower enabled trusted bucket limit body =
      rate_limit_tor_aware enabled trusted bucket limit (claimed_in_body lower body)

  unfoldable pub rate_limit_tor_aware_by_path_param :
      (String → String)
      → Bool
      → String
      → String
      → ℕ
      → Option String
      → Request
      → World
      → Fallback
      → Outcome (Unit {0}) × World × Fallback
  unfolding claimed_in_path rate_limit_tor_aware
  rate_limit_tor_aware_by_path_param lower enabled trusted bucket limit param =
      rate_limit_tor_aware enabled trusted bucket limit (claimed_in_path lower param)
