-- ===== src/Sessions/Rules.antt =====
-- The life of a bearer session.
use morok_relay.Prelude.{
  ℕ, ◌+◌, ◌-◌, ◌<◌, ◌≤◌, String, ◌≡◌, refl, inl, inr, Bool, true, false, Option, none, some, List,
  arith, eq_refl, ◌==◌, ltb, leb, Bool-cases, if◌then◌else◌,
}
use morok_relay.Redis.{Key, Payload, Value, Redis, get_of, is_there, text, gone, expire, del, srem}
use morok_relay.Redis.Pipeline.{◌▸◌, get, run_all}
use morok_relay.Exec.{ok, call, calm}
use morok_relay.Queue.Model.{Sha256}
use morok_relay.Sessions.Value.{Decimal, partition, stamped, has_bar, partition-stamped}
use morok_relay.Sessions.{
  is_over, session_ttl_seconds, session_absolute_max_seconds, verify_session_token,
  is_session_alive, migrate_commands,
}

is_over-show :
    ⦃D : Decimal⦄ (now created : ℕ)
    → is_over now (D.show created) ≡ ltb session_absolute_max_seconds (now - created)
unfolding is_over
is_over-show ⦃D⦄ now created = rw (D.show-not_empty created, D.read-show created)

not_over :
    ⦃D : Decimal⦄ (now created : ℕ)
    → now ≤ created + session_absolute_max_seconds
    → is_over now (D.show created) ≡ false
not_over now created h = rw (is_over-show now created) (ground arith)

over :
    ⦃D : Decimal⦄ (now created : ℕ)
    → created + session_absolute_max_seconds < now
    → is_over now (D.show created) ≡ true
over now created h = rw (is_over-show now created) (ground arith)

pub get_of-is_there :
    {p : Payload} (l : Option ℕ) (v : Value)
    → get_of v ≡ some p
    → is_there (record { value = v; ttl = l }) ≡ true
get_of-is_there l Value.nothing h = ground arith
get_of-is_there l (Value.string q) h = refl
get_of-is_there l (Value.zset z) h = ground arith
get_of-is_there l (Value.members x) h = ground arith

same_either_way : {A : Type 0} (b : Bool) (x : A) → (if b then x else x) ≡ x
same_either_way true x = refl
same_either_way false x = refl

module _ ⦃R : Redis⦄ ⦃H : Sha256⦄ ⦃D : Decimal⦄ (token : String)
    (some_token : (token == "") ≡ false) (pubkey : String) (plain : has_bar pubkey ≡ false)
    (s : R.Store) (t created : ℕ) (d : List (String × String)) (k : String → Bool) where
  abbrev key : Key
  key = Key.session (H.of_text token)

  parts : partition (stamped pubkey created) ≡ (pubkey, D.show created)
  parts = partition-stamped pubkey (D.show created) plain

  module _ (found : get key s ≡ some (text (stamped pubkey created))) where
    there : is_there (R.at s key) ≡ true
    there = get_of-is_there (R.at s key).ttl (R.at s key).value found

    -- within the ceiling
    verify_live :
        t ≤ created + session_absolute_max_seconds
        → verify_session_token token (calm s t d k) ≡ (
          ok (
              some
                (record { token = token; pubkey = pubkey; expires_at = t + session_ttl_seconds })),
          calm
              (s
                ▸ expire key session_ttl_seconds
                ▸ expire (Key.user_sessions pubkey) (session_absolute_max_seconds + 86400))
              t
              d
              k,
        )
    unfolding verify_session_token call
    verify_live h = rw (some_token, found, parts, not_over t created h) refl

    -- past it
    verify_over :
        created + session_absolute_max_seconds < t
        → verify_session_token token (calm s t d k)
          ≡ (ok none, calm (s ▸ del key ▸ srem (Key.user_sessions pubkey) (H.of_text token)) t d k)
    unfolding verify_session_token call
    verify_over h = rw (some_token, found, parts, over t created h) refl

    alive :
        is_session_alive token (calm s t d k)
        ≡ (ok (leb t (created + session_absolute_max_seconds)), calm s t d k)
    unfolding is_session_alive call
    alive =
        rw (some_token, found, parts)
          (elim (Bool-cases (leb t (created + session_absolute_max_seconds))) [
            | inl h ↦ rw (h, not_over t created (ground arith)) refl
            | inr h ↦ rw (h, over t created (ground arith)) refl
          ])

    -- With the connection up, a session that the store has under its hashed key lives until 30 days after its creation and
    -- no longer, however often it was used: until then presenting the token gives a session of its
    -- key that expires 7 days later, and the record is kept for 7 days from then; after that it
    -- gives nothing, and the record is deleted. The check of an open socket changes nothing and
    -- answers exactly whether presenting the token would give a session.
    pub session_ceiling :
        let in_time = leb t (created + session_absolute_max_seconds) in
        let verified = verify_session_token token (calm s t d k) in
        is_session_alive token (calm s t d k) ≡ (ok in_time, calm s t d k)
        × verified.0
          ≡ ok (
              if in_time
              then some
                  (record { token = token; pubkey = pubkey; expires_at = t + session_ttl_seconds })
              else none)
        × R.at verified.1.db key
          ≡ (if in_time then record (R.at s key) { ttl = some session_ttl_seconds } else gone)
    session_ceiling = elim (Bool-cases (leb t (created + session_absolute_max_seconds))) [
      | inl h ↦
          let live = verify_live (ground arith) in
          rw (h, live) (rw h at alive, refl, simp (R.at_run, eq_refl, there))
      | inr h ↦
          let dead = verify_over (ground arith) in
          rw (h, dead) (rw h at alive, refl, simp (R.at_run, eq_refl))
    ]

    -- What is stored of a session is enough to take it over: a party that reads the digest of a
    -- token in the store and presents it as a token is given a session of the same key, also when
    -- the 30 days of the session are over, provided that nothing is stored under the digest of
    -- that digest. The owner's record is deleted by it.
    pub stored_digest_is_bearer :
        (H.of_text token == "") ≡ false
        → get (Key.session (H.of_text (H.of_text token))) s ≡ none
        → let after = verify_session_token (H.of_text token) (calm s t d k) in
          after.0
            ≡ ok (
                some (record {
                  token = H.of_text token;
                  pubkey = pubkey;
                  expires_at = t + session_ttl_seconds;
                }))
          × R.at after.1.db key ≡ gone
    unfolding verify_session_token call migrate_commands run_all
    stored_digest_is_bearer some_digest none_there =
        rw
          (
            some_digest,
            none_there,
            found,
            parts,
            partition-stamped pubkey (D.show t) plain,
            not_over t t (ground arith),
          )
          (
            refl,
            simp (R.at_run, eq_refl)
                (same_either_way (H.of_text (H.of_text token) == H.of_text token) gone),
          )
