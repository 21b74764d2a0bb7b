-- ===== src/RateLimit/Check.antt =====
-- rate_limit.py: `_LocalFallbackLimiter`, `check_rate_limit` and the dependencies built on it.
pub mod Window
use Prim.Native.String.{◌++◌ as ◌+ˢ◌}
use morok_relay.Prelude.{
  ℕ, ◌+◌, ◌-◌, ◌*◌, ◌/◌, ◌%◌, String, ◌≡◌, refl, Bool, true, false, ◌&&◌, Option, none, some, List,
  [], ◌∷◌, elem, arith, ◌==◌, eqb, leb, if◌then◌else◌,
}
use morok_relay.Redis.{Key, Redis, count_of, incr, expire}
use morok_relay.Redis.Pipeline.{◌▸◌}
use morok_relay.Exec.{World, Exec, Outcome, ok, raised, call}

abbrev pub critical_buckets : List String
critical_buckets =
    "auth_challenge" ∷ "auth_verify" ∷ "admin_login" ∷ "federation_handshake" ∷ "backup_restore"
    ∷ []

abbrev pub tor_global_multiplier : ℕ
tor_global_multiplier = 20

-- the `defaultdict` of the fallback, with the bucket and the identifier as the key
pub record Fallback : Type 0 where
  pub counts : List ((String × String) × ℕ)
  pub window : ℕ

abbrev pub same_pair : String × String → String × String → Bool
same_pair (a, b) (c, d) = a == c && b == d

unfoldable pub count_at : String × String → List ((String × String) × ℕ) → ℕ
count_at k [] = 0
count_at k ((j, n) ∷ l) = if same_pair j k then n else count_at k l

unfoldable pub add_one :
    String × String → List ((String × String) × ℕ) → List ((String × String) × ℕ)
add_one k [] = (k, 1) ∷ []
add_one k ((j, n) ∷ l) = if same_pair j k then (j, n + 1) ∷ l else (j, n) ∷ add_one k l

abbrev pub rolled : ℕ → Fallback → Fallback
rolled window f = if eqb window f.window then f else record { counts = []; window = window }

-- `_LocalFallbackLimiter.hit`
unfoldable pub hit : ℕ → String → String → ℕ → Fallback → (Bool × ℕ) × Fallback
unfolding count_at add_one
hit now bucket identifier limit f =
    let g = rolled (now / 60) f in
    let counts = add_one (bucket, identifier) g.counts in
    let count = count_at (bucket, identifier) counts in
    ((leb count limit, count), record { counts = counts; window = g.window })

-- (allowed, current_count, retry_after_seconds)
abbrev pub Answer : Type 0
Answer = Bool × ℕ × ℕ

module _ ⦃R : Redis⦄ where
  -- the pipeline of INCR and EXPIRE, with the reply to the INCR
  unfoldable pub bump : Key → R.Store → ℕ × R.Store
  bump key s = let s' = s ▸ incr key in (count_of (R.at s' key).value, s' ▸ expire key 90)

  -- what `check_rate_limit` makes of the reply, or of the exception
  abbrev pub judge : String → String → ℕ → ℕ → Outcome ℕ → Fallback → Answer × Fallback
  judge bucket identifier limit now (ok count) f = ((leb count limit, count, 60 - now % 60), f)
  judge bucket identifier limit now (raised e) f =
      if elem bucket critical_buckets
      then (let ((allowed, count), f') = hit now bucket identifier limit f in
          ((allowed, count, 60 - now % 60), f'))
      else ((true, 0, 0), f)

  -- The world and the process's fallback limiter go in and come out. It does not raise.
  unfoldable pub check_rate_limit :
      Bool → String → String → ℕ → World → Fallback → Answer × World × Fallback
  unfolding bump
  check_rate_limit enabled bucket identifier limit w f =
      if enabled
      then (let (r, w') = call (bump (Key.ratelimit bucket identifier (w.now / 60))) w in
          let (answer, f') = judge bucket identifier limit w.now r f in (answer, w', f'))
      else ((true, 0, 0), w, f)

  -- the second layer of `_tor_aware_check`
  abbrev pub tor_identity :
      Bool → String → ℕ → Option String → Answer × World × Fallback → Answer × World × Fallback
  tor_identity enabled bucket limit none first = first
  tor_identity enabled bucket limit (some claimed) ((allowed, count, retry), w, f) =
      if claimed == ""
      then ((allowed, count, retry), w, f)
      else check_rate_limit enabled bucket ("tor:" +ˢ claimed) limit w f

  abbrev pub tor_layers :
      Bool → String → ℕ → Option String → Answer × World × Fallback → Answer × World × Fallback
  tor_layers enabled bucket limit claimed ((false, count, retry), w, f) =
      ((false, count, retry), w, f)
  tor_layers enabled bucket limit claimed ((true, count, retry), w, f) =
      tor_identity enabled bucket limit claimed ((true, count, retry), w, f)

  -- `_tor_aware_check`, from the identifier on
  unfoldable pub tor_aware_check :
      Bool → String → String → ℕ → Option String → World → Fallback → Answer × World × Fallback
  tor_aware_check enabled bucket ip limit claimed w f =
      if ip == "tor"
      then tor_layers enabled bucket limit claimed
          (check_rate_limit enabled bucket "tor" (limit * tor_global_multiplier) w f)
      else check_rate_limit enabled bucket ip limit w f
