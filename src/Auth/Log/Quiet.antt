-- ===== src/Auth/Log/Quiet.antt =====
-- The log of logins touches no key but the salt of the day.
use morok_relay.Prelude.{
  ℕ, String, Bool, false, Option, some, List, [], ◌∷◌, ◌≡◌, refl, Bool-cases, Option-cases, inl,
  inr,
}
use morok_relay.Redis.{Key, Redis, key_eq, text, set_nx}
use morok_relay.Redis.Pipeline.{◌▸◌, exists, get}
use morok_relay.Exec.{Exec, ok, call, calm}
use morok_relay.Sessions.{decoded}
use morok_relay.Dms.{Codec}
use morok_relay.Auth.Log.{
  LoginLog, salt_ttl_seconds, daily_ip_hash, record_login, or_fixed, prune, shortened,
}

module _ ⦃R : Redis⦄ {A : Type 0} where
  -- an action that returns and touches no key but one
  pub record OnlyTouches (key : Key) (s : R.Store) (t : ℕ) (d : List (String × String))
      (k : String → Bool) (m : Exec A) : Type 0 where
    pub result : A
    pub db : R.Store
    pub runs : m (calm s t d k) ≡ (ok result, calm db t d k)
    pub same : (j : Key) → key_eq key j ≡ false → R.at db j ≡ R.at s j

module _ ⦃R : Redis⦄ ⦃C : Codec⦄ (relay_privkey_hex date candidate ip : String) (s : R.Store)
    (t : ℕ) (d : List (String × String)) (k : String → Bool) where
  daily_ip_hash-OnlyTouches :
      OnlyTouches (Key.login_salt date) s t d k (daily_ip_hash relay_privkey_hex date candidate ip)
  unfolding daily_ip_hash call
  daily_ip_hash-OnlyTouches =
      let key = Key.login_salt date in
      let db = s ▸ set_nx key (text candidate) salt_ttl_seconds in
      let hashed : Option String → String =
        λ salt. C.digest (or_fixed relay_privkey_hex date salt ∷ ip ∷ []) in
      elim (Bool-cases (exists key s)) [
        | inl e ↦ record {
          result = hashed (decoded (get key db));
          db = db;
          runs = simp e refl;
          same = λ j ne. simp (R.at_run, ne);
        }
        | inr e ↦ record {
          result = hashed (some candidate);
          db = db;
          runs = simp e refl;
          same = λ j ne. simp (R.at_run, ne);
        }
      ]

  pub record_login-OnlyTouches :
      (id pubkey_hex : String) (user_agent : Option String) (log : List LoginLog)
      → OnlyTouches
          (Key.login_salt date)
          s
          t
          d
          k
          (record_login relay_privkey_hex id date candidate pubkey_hex ip user_agent log)
  unfolding record_login
  record_login-OnlyTouches id pubkey_hex user_agent log =
      elim (Option-cases (C.from_hex pubkey_hex)) [
        | inl e ↦ record { result = log; db = s; runs = simp e refl; same = λ j ne. refl }
        | inr (pubkey, e) ↦
            let hashed = daily_ip_hash-OnlyTouches in
            record {
              result = prune pubkey (
                  record {
                    id = id;
                    pubkey = pubkey;
                    created_at = t;
                    ip_hash = hashed.result;
                    user_agent = shortened user_agent;
                  }
                  ∷ log);
              db = hashed.db;
              runs = simp (e, hashed.runs) refl;
              same = hashed.same;
            }
      ]
