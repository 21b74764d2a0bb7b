-- ===== src/RateLimit/Depends/Tor.antt =====
-- How many requests over Tor pass the dependencies.
use Prim.Native.String.{◌++◌ as ◌+ˢ◌}
use morok_relay.Prelude.{
  ap, eq_iff, ◌⊎◌, ℕ, ◌+◌, ◌-◌, ◌*◌, ◌/◌, ◌≤◌, String, ◌≡◌, refl, Bool, true, false, inl, inr,
  Option, none, some, List, [], ◌∷◌, arith, eqb, leb, ◌==◌, Bool-cases, eq_refl,
}
use morok_relay.Redis.{Key, Redis, count_of}
use morok_relay.Exec.{World, Outcome, ok, raised, call, calm}
use morok_relay.Sessions.Value.{Decimal}
use morok_relay.RateLimit.Identifier.{Request, get_ip_from_request}
use morok_relay.RateLimit.Check.{
  Fallback, bump, check_rate_limit, tor_aware_check, tor_global_multiplier,
}
use morok_relay.RateLimit.Depends.{rate_limited, rate_limit_tor_aware}

eqb_refl : (n : ℕ) → eqb n n ≡ true
eqb_refl n = ground arith

module _ ⦃R : Redis⦄ ⦃D : Decimal⦄ (trusted bucket : String) (limit : ℕ) (request : Request)
    (tor : get_ip_from_request trusted request ≡ "tor") where
  abbrev if_passed : Outcome (Unit {0}) → ℕ
  if_passed (ok x) = 1
  if_passed (raised e) = 0

  -- requests in a row with the identities that they claim; the number that passes
  pub tor_passed : List (Option String) → World → Fallback → ℕ
  tor_passed [] w f = 0
  tor_passed (claimed ∷ rest) w f =
      let (r, w', f') = rate_limit_tor_aware true trusted bucket limit claimed request w f in
      if_passed r + tor_passed rest w' f'

  -- what Redis has counted for all clients behind Tor
  abbrev tor_count : R.Store → ℕ → ℕ
  tor_count s m = count_of (R.at s (Key.ratelimit bucket "tor" m)).value

  bumped_le :
      (identifier : String) (m : ℕ) (s : R.Store)
      → tor_count s m ≤ tor_count (bump (Key.ratelimit bucket identifier m) s).1 m
  unfolding bump
  bumped_le identifier m s = elim (Bool-cases (identifier == "tor")) [
    | inl this ↦ simp (R.at_run, eq_refl, this, eqb_refl) (omega arith)
    | inr other ↦ simp (R.at_run, eq_refl, other) (omega arith)
  ]

  bumped_tor :
      (m : ℕ) (s : R.Store)
      → tor_count (bump (Key.ratelimit bucket "tor" m) s).1 m ≡ tor_count s m + 1
        × (bump (Key.ratelimit bucket "tor" m) s).0 ≡ tor_count s m + 1
  unfolding bump
  bumped_tor m s = (simp (R.at_run, eq_refl, eqb_refl), simp (R.at_run, eq_refl, eqb_refl))

  module _ (t : ℕ) (d : List (String × String)) (k : String → Bool) where
    abbrev ceiling : ℕ
    ceiling = limit * tor_global_multiplier

    abbrev room : R.Store → ℕ
    room s = ceiling - tor_count s (t / 60)

    -- the first layer
    abbrev first : R.Store → R.Store
    first s = (bump (Key.ratelimit bucket "tor" (t / 60)) s).1

    -- the second layer
    abbrev second : String → R.Store → R.Store
    second identity s = (bump (Key.ratelimit bucket ("tor:" +ˢ identity) (t / 60)) s).1

    -- one request: what it takes of the room, whether or not it claims an identity
    pub record Took (claimed : Option String) (s : R.Store) (f : Fallback) : Type 0 where
      pub after : R.Store
      pub limiter : Fallback
      pub result : Outcome (Unit {0})
      pub ends :
          rate_limit_tor_aware true trusted bucket limit claimed request (calm s t d k) f
          ≡ (result, calm after t d k, limiter)
      pub fits : if_passed result + room after ≤ room s

    refused-Took :
        (claimed : Option String) (s : R.Store) (f : Fallback)
        → leb (tor_count s (t / 60) + 1) ceiling ≡ false
        → Took claimed s f
    unfolding rate_limit_tor_aware tor_aware_check check_rate_limit call
    refused-Took claimed s f over = record {
      after = first s;
      limiter = f;
      result = rate_limited bucket (tor_count s (t / 60) + 1) limit;
      ends = rw (tor, (bumped_tor (t / 60) s).1, over) refl;
      fits = ground (arith, over, bumped_tor (t / 60) s);
    }

    anonymous-Took :
        (claimed : Option String) (s : R.Store) (f : Fallback)
        → (claimed ≡ none) ⊎ (claimed ≡ some "")
        → leb (tor_count s (t / 60) + 1) ceiling ≡ true
        → Took claimed s f
    unfolding rate_limit_tor_aware tor_aware_check check_rate_limit call
    anonymous-Took claimed s f anonymous under = record {
      after = first s;
      limiter = f;
      result = ok tt;
      ends = elim anonymous [
        | inl h ↦ rw (h, tor, (bumped_tor (t / 60) s).1, under) refl
        | inr h ↦ rw (h, tor, (bumped_tor (t / 60) s).1, under) refl
      ];
      fits = ground (arith, under, bumped_tor (t / 60) s);
    }

    judged-Took :
        (identity : String) (s : R.Store) (f : Fallback) (b : Bool)
        → (identity == "") ≡ false
        → leb (tor_count s (t / 60) + 1) ceiling ≡ true
        → leb (bump (Key.ratelimit bucket ("tor:" +ˢ identity) (t / 60)) (first s)).0 limit ≡ b
        → Took (some identity) s f
    unfolding rate_limit_tor_aware tor_aware_check check_rate_limit call
    judged-Took identity s f true named under small = record {
      after = second identity (first s);
      limiter = f;
      result = ok tt;
      ends = rw (tor, (bumped_tor (t / 60) s).1, under, named, small) refl;
      fits =
          ground (
            arith,
            under,
            bumped_tor (t / 60) s,
            bumped_le ("tor:" +ˢ identity) (t / 60) (first s),
          );
    }
    judged-Took identity s f false named under large = record {
      after = second identity (first s);
      limiter = f;
      result =
          rate_limited bucket
            (bump (Key.ratelimit bucket ("tor:" +ˢ identity) (t / 60)) (first s)).0 limit;
      ends = rw (tor, (bumped_tor (t / 60) s).1, under, named, large) refl;
      fits =
          ground (
            arith,
            under,
            bumped_tor (t / 60) s,
            bumped_le ("tor:" +ˢ identity) (t / 60) (first s),
          );
    }

    one-Took : (claimed : Option String) (s : R.Store) (f : Fallback) → Took claimed s f
    one-Took claimed s f = elim (Bool-cases (leb (tor_count s (t / 60) + 1) ceiling)) [
      | inr over ↦ refused-Took claimed s f over
      | inl under ↦ by_claim claimed under
    ]
      where
        by_claim : (c : Option String) → leb (tor_count s (t / 60) + 1) ceiling ≡ true → Took c s f
        by_claim none under = anonymous-Took none s f (inl refl) under
        by_claim (some identity) under = elim (Bool-cases (identity == "")) [
          | inl empty ↦
              anonymous-Took (some identity) s f (inr (ap some ((eq_iff identity "").0 empty)))
                under
          | inr named ↦ judged-Took identity s f _ named under refl
        ]

    -- With the connection up, of any number of requests at one time that come over Tor, at most 20
    -- times the limit of one client pass together, less what Redis has counted in this minute,
    -- whatever identities they claim.
    pub tor_passed-le :
        (claims : List (Option String)) (s : R.Store) (f : Fallback)
        → tor_passed claims (calm s t d k) f
          ≤ limit * tor_global_multiplier
            - count_of (R.at s (Key.ratelimit bucket "tor" (t / 60))).value
    unfolding tor_passed
    tor_passed-le [] s f = omega arith
    tor_passed-le (claimed ∷ rest) s f =
        let one = one-Took claimed s f in
        rw one.ends (omega (arith, one.fits, tor_passed-le rest one.after one.limiter))
