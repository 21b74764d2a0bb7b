-- ===== src/Auth/Log.antt =====
-- api/auth.py: the log of logins, and the salt of the day that hides the addresses in it. The rows
-- and the identifier of a new row are arguments, like the date and the 32 random bytes.
pub mod Quiet
use morok_relay.Prelude.{
  ℕ, ◌*◌, String, Bool, true, false, not, ◌&&◌, ◌||◌, Option, none, some, List, [], ◌∷◌, map, take,
  leb, elem, ◌==◌, if◌then◌else◌,
}
use morok_relay.Redis.{Key, Redis, text, set_nx}
use morok_relay.Redis.Pipeline.{◌▸◌, exists, get}
use morok_relay.Exec.{Exec, pure, gets, call, catch_all, ◌>>=◌}
use morok_relay.Sessions.{decoded}
use morok_relay.RateLimit.Depends.{first_chars}
use morok_relay.Dms.{Codec}

-- a row of `login_log`, its public key as bytes
pub record LoginLog : Type 0 where
  pub id : String
  pub pubkey : String
  pub created_at : ℕ
  pub ip_hash : String
  pub user_agent : Option String

abbrev pub salt_ttl_seconds : ℕ
salt_ttl_seconds = 48 * 3600

-- `(user_agent or "")[:255] or None`
unfoldable pub shortened : Option String → Option String
unfolding first_chars
shortened none = none
shortened (some s) = if s == "" then none else some (first_chars 255 s)

-- `ORDER BY created_at DESC`
unfoldable pub place_latest : LoginLog → List LoginLog → List LoginLog
place_latest r [] = r ∷ []
place_latest r (x ∷ rows) =
    let rest = place_latest r rows in
    if leb x.created_at r.created_at then r ∷ x ∷ rows else x ∷ rest

unfoldable pub latest_first : String → List LoginLog → List LoginLog
unfolding place_latest
latest_first pubkey [] = []
latest_first pubkey (r ∷ rows) =
    let rest = latest_first pubkey rows in if r.pubkey == pubkey then place_latest r rest else rest

abbrev pub keep_ids : String → List LoginLog → List String
keep_ids pubkey rows = map (λ r. r.id) (take 30 (latest_first pubkey rows))

-- the DELETE of the rows of a key that are not among `keep`
unfoldable pub delete_older : String → List String → List LoginLog → List LoginLog
delete_older pubkey keep [] = []
delete_older pubkey keep (r ∷ rows) =
    let rest = delete_older pubkey keep rows in
    if r.pubkey == pubkey && not (elem r.id keep) then rest else r ∷ rest

unfoldable pub prune : String → List LoginLog → List LoginLog
unfolding latest_first delete_older
prune pubkey rows = delete_older pubkey (keep_ids pubkey rows) rows

module _ ⦃R : Redis⦄ where
  -- `SET … NX` with whether it has set the key
  abbrev pub offer_salt : String → String → R.Store → Bool × R.Store
  offer_salt date candidate s = (
    not (exists (Key.login_salt date) s),
    s ▸ set_nx (Key.login_salt date) (text candidate) salt_ttl_seconds,
  )

  abbrev pub read_salt : String → String → Bool → Exec (Option String)
  read_salt date candidate true = pure (some candidate)
  read_salt date candidate false = call (λ s. (decoded (get (Key.login_salt date) s), s))

  module _ ⦃C : Codec⦄ (relay_privkey_hex : String) where
    -- the salt of the key of the relay and the date
    abbrev pub fixed_salt : String → String
    fixed_salt date = elim (C.from_hex relay_privkey_hex) [
      | none ↦ C.digest ("" ∷ date ∷ [])
      | some privkey ↦ C.digest (privkey ∷ date ∷ [])
    ]

    abbrev pub or_fixed : String → Option String → String
    or_fixed date none = fixed_salt date
    or_fixed date (some salt) = if salt == "" then fixed_salt date else salt

    unfoldable pub daily_ip_hash : String → String → String → Exec String
    daily_ip_hash date candidate ip = do
      salt ← catch_all (call (offer_salt date candidate) >>= read_salt date candidate) (pure none)
      pure (C.digest (or_fixed date salt ∷ ip ∷ []))

    abbrev pub log_login :
        String
        → String
        → String
        → String
        → Option String
        → List LoginLog
        → Option String
        → Exec (List LoginLog)
    log_login id date candidate ip user_agent rows none = pure rows
    log_login id date candidate ip user_agent rows (some pubkey) = do
      now ← gets (λ w. w.now)
      hash ← daily_ip_hash date candidate ip
      pure (
          prune pubkey (
            record {
              id = id;
              pubkey = pubkey;
              created_at = now;
              ip_hash = hash;
              user_agent = shortened user_agent;
            }
            ∷ rows))

    unfoldable pub record_login :
        String
        → String
        → String
        → String
        → String
        → Option String
        → List LoginLog
        → Exec (List LoginLog)
    unfolding daily_ip_hash prune shortened
    record_login id date candidate pubkey_hex ip user_agent rows =
        catch_all (log_login id date candidate ip user_agent rows (C.from_hex pubkey_hex))
          (pure rows)
