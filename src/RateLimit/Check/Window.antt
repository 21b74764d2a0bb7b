-- ===== src/RateLimit/Check/Window.antt =====
-- How many requests of one client pass `check_rate_limit` in one minute.
use morok_relay.Prelude.{
  ℕ, zero, suc, ◌+◌, ◌-◌, ◌*◌, ◌/◌, ◌≤◌, String, ◌≡◌, Bool, true, false, List, [], ◌∷◌, arith, elem,
  min, eq_refl, eqb, leb,
}
use morok_relay.Redis.{Key, Redis, count_of}
use morok_relay.Exec.{World, Net, up, lost_request, lost_reply, call, answer}
use morok_relay.RateLimit.Check.{
  Fallback, critical_buckets, count_at, add_one, rolled, hit, bump, check_rate_limit,
}

count_at-add_one :
    (k : String × String) (l : List ((String × String) × ℕ))
    → count_at k (add_one k l) ≡ count_at k l + 1
unfolding count_at add_one
count_at-add_one (a, b) [] = simp eq_refl
count_at-add_one k ((j, n) ∷ l) = ground (arith, count_at-add_one k l)

abbrev if_allowed : Bool → ℕ
if_allowed true = 1
if_allowed false = 0

eqb_refl : (n : ℕ) → eqb n n ≡ true
eqb_refl n = ground arith

module _ ⦃R : Redis⦄ (bucket identifier : String) (limit : ℕ) where
  -- the count in Redis for this minute, and that of the fallback
  abbrev redis_count : World → ℕ
  redis_count w = count_of (R.at w.db (Key.ratelimit bucket identifier (w.now / 60))).value

  abbrev local_count : ℕ → Fallback → ℕ
  local_count now f = count_at (bucket, identifier) (rolled (now / 60) f).counts

  -- `k` requests one after the other at one time; the number that passes
  pub passed : ℕ → World → Fallback → ℕ
  passed zero w f = 0
  passed (suc k) w f =
      let (a, w', f') = check_rate_limit true bucket identifier limit w f in
      if_allowed a.0 + passed k w' f'

  bump_count :
      (m : ℕ) (s : R.Store)
      → count_of
          (R.at
            (bump (Key.ratelimit bucket identifier m) s).1
            (Key.ratelimit bucket identifier m)).value
        ≡ count_of (R.at s (Key.ratelimit bucket identifier m)).value + 1
  unfolding bump
  bump_count m s = simp (R.at_run, eq_refl, eqb_refl)

  bump_reply :
      (m : ℕ) (s : R.Store)
      → (bump (Key.ratelimit bucket identifier m) s).0
        ≡ count_of (R.at s (Key.ratelimit bucket identifier m)).value + 1
  unfolding bump
  bump_reply m s = simp (R.at_run, eq_refl, eqb_refl)

  hit_count :
      (now : ℕ) (f : Fallback)
      → ((hit now bucket identifier limit f).0.1 ≡ local_count now f + 1)
        × ((hit now bucket identifier limit f).0.0 ≡ leb (local_count now f + 1) limit)
        × (local_count now (hit now bucket identifier limit f).1 ≡ local_count now f + 1)
  unfolding hit
  hit_count now f =
      ground (arith, count_at-add_one (bucket, identifier) (rolled (now / 60) f).counts)

  module _ (t : ℕ) (d : List (String × String)) (k : String → Bool) where
    abbrev over : List Net → R.Store → World
    over n s = record { db = s; net = n; now = t; disk = d; sick = k }

    -- With the connection up, of `n` requests at one time there pass exactly as many as the limit
    -- leaves after those that Redis has counted in the same minute, and all `n` if they are fewer.
    pub passed_exactly :
        (n : ℕ) (s : R.Store) (f : Fallback)
        → passed n (over [] s) f ≡ min n (limit - redis_count (over [] s))
    unfolding passed check_rate_limit call
    passed_exactly zero s f = omega arith
    passed_exactly (suc n) s f = ground (
      arith,
      passed_exactly n (bump (Key.ratelimit bucket identifier (t / 60)) s).1 f,
      bump_reply (t / 60) s,
      bump_count (t / 60) s,
    )

    -- what the two counters still let through
    abbrev room : World → Fallback → ℕ
    room w f = (limit - redis_count w) + (limit - local_count t f)

    module _ (critical : elem bucket critical_buckets ≡ true) where
      step :
          (n : List Net) (s : R.Store) (f : Fallback)
          → let (a, w', f') = check_rate_limit true bucket identifier limit (over n s) f in
            if_allowed a.0 + room w' f' ≤ room (over n s) f
      unfolding check_rate_limit call answer
      step [] s f = ground (arith, bump_reply (t / 60) s, bump_count (t / 60) s)
      step (up ∷ n) s f = ground (arith, bump_reply (t / 60) s, bump_count (t / 60) s)
      step (lost_request ∷ n) s f = rw critical (ground (arith, hit_count t f))
      step (lost_reply ∷ n) s f = rw critical (ground (arith, hit_count t f, bump_count (t / 60) s))

      passed-room :
          (m : ℕ) (n : List Net) (s : R.Store) (f : Fallback)
          → passed m (over n s) f ≤ room (over n s) f
      unfolding passed check_rate_limit call answer
      passed-room zero n s f = omega arith
      passed-room (suc m) [] s f = omega (
        arith,
        step [] s f,
        passed-room m [] (bump (Key.ratelimit bucket identifier (t / 60)) s).1 f,
      )
      passed-room (suc m) (up ∷ n) s f = omega (
        arith,
        step (up ∷ n) s f,
        passed-room m n (bump (Key.ratelimit bucket identifier (t / 60)) s).1 f,
      )
      passed-room (suc m) (lost_request ∷ n) s f =
          rw critical
            (ground (arith, hit_count t f, passed-room m n s (hit t bucket identifier limit f).1))
      passed-room (suc m) (lost_reply ∷ n) s f = rw critical (
          ground (
            arith,
            hit_count t f,
            bump_count (t / 60) s,
            passed-room m n (bump (Key.ratelimit bucket identifier (t / 60)) s).1
                (hit t bucket identifier limit f).1,
          ))

      -- Of any number of requests at one time to a critical bucket, from one client to one process,
      -- at most twice the limit passes, whatever the network does to each round trip to Redis.
      pub critical_never_open :
          (m : ℕ) (n : List Net) (s : R.Store) (f : Fallback) → passed m (over n s) f ≤ 2 * limit
      critical_never_open m n s f = omega (arith, passed-room m n s f)
