-- ===== src/RateLimit/Slots.antt =====
-- rate_limit.py: `reserve_ws_slot`, `refresh_ws_slot` and `release_ws_slot`. Times are whole seconds.
pub mod Bound
use morok_relay.Prelude.{
  ℕ, ◌-◌, String, Bool, true, false, Option, none, some, List, [], ◌∷◌, ltb, if◌then◌else◌,
}
use morok_relay.Redis.{Key, Command, Redis, zremrangebyscore, zadd, zrem, expire}
use morok_relay.Redis.Pipeline.{◌▸◌, run_all, zset_at}
use morok_relay.Redis.Sets.{card}
use morok_relay.Exec.{World, Exec, Outcome, ok, pure, gets, call, command, catch_all, ◌>>=◌, ◌>>◌}

abbrev pub ws_slot_ttl_seconds : ℕ
ws_slot_ttl_seconds = 90

abbrev pub ws_slot_key_ttl : ℕ
ws_slot_key_ttl = 200

-- ZREMRANGEBYSCORE from 0 to `now - 90`, which removes nothing while that is negative
unfoldable pub drop_dead : String → ℕ → List Command
drop_dead pubkey now =
    if ltb now ws_slot_ttl_seconds
    then []
    else zremrangebyscore (Key.ws_connections pubkey) (now - ws_slot_ttl_seconds) ∷ []

module _ ⦃R : Redis⦄ where
  unfoldable pub take_slot : String → String → ℕ → R.Store → ℕ × R.Store
  unfolding drop_dead
  take_slot pubkey connection now s =
      let s' =
        run_all (drop_dead pubkey now) s
        ▸ zadd (Key.ws_connections pubkey) connection now
        ▸ expire (Key.ws_connections pubkey) ws_slot_key_ttl in
      (card (zset_at (Key.ws_connections pubkey) s'), s')

  unfoldable pub give_back : String → String → Exec (Unit {0})
  give_back pubkey connection =
      catch_all (command (zrem (Key.ws_connections pubkey) connection)) (pure tt)

  refuse_slot : String → String → Exec Bool
  unfolding give_back
  refuse_slot pubkey connection = do give_back pubkey connection; pure false

  -- `none` is the exception of the transaction, for which the slot is granted
  unfoldable pub decide_slot : String → String → ℕ → Option ℕ → Exec Bool
  unfolding refuse_slot
  decide_slot pubkey connection limit none = pure true
  decide_slot pubkey connection limit (some count) =
      if ltb limit count then refuse_slot pubkey connection else pure true

  unfoldable pub reserve : String → String → ℕ → Exec Bool
  unfolding take_slot decide_slot
  reserve pubkey connection limit = do
    now ← gets (λ w. w.now)
    count ← catch_all (call (take_slot pubkey connection now) >>= λ n. pure (some n)) (pure none)
    decide_slot pubkey connection limit count

  unfoldable pub reserve_ws_slot : Bool → String → String → ℕ → Exec Bool
  unfolding reserve
  reserve_ws_slot enabled pubkey connection limit =
      if enabled then reserve pubkey connection limit else pure true

  unfoldable pub refresh_ws_slot : String → String → Exec (Unit {0})
  refresh_ws_slot pubkey connection = do
    now ← gets (λ w. w.now)
    catch_all
        (call (λ s. (
          tt,
          s
              ▸ zadd (Key.ws_connections pubkey) connection now
              ▸ expire (Key.ws_connections pubkey) ws_slot_key_ttl,
        )))
        (pure tt)

  unfoldable pub release_ws_slot : String → String → Exec (Unit {0})
  unfolding give_back
  release_ws_slot pubkey connection = give_back pubkey connection
