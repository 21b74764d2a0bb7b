-- ===== src/Sessions/Once.antt =====
-- The WebSocket tickets and the login challenges are good for one use.
use morok_relay.Prelude.{ℕ, String, ◌≡◌, Bool, none, some, List, arith, eq_refl, leb, if◌then◌else◌}
use morok_relay.Redis.{Key, Redis, elapsed}
use morok_relay.Exec.{ok, call, calm}
use morok_relay.Sessions.{store_challenge, consume_challenge, consume_ws_ticket}

module _ ⦃R : Redis⦄ (d : List (String × String)) (k : String → Bool) where
  -- A challenge that was stored `e` seconds ago, and that nothing but time has touched since, gives
  -- back its key in the first 60 seconds and nothing later; and once it was consumed, successfully
  -- or not, consuming it again gives nothing.
  pub challenge_once :
      (challenge pubkey : String) (s s' : R.Store) (t e : ℕ)
      → R.at s' (Key.challenge challenge)
        ≡ elapsed e
            (R.at (store_challenge challenge pubkey (calm s t d k)).1.db (Key.challenge challenge))
      → let first = consume_challenge challenge (calm s' t d k) in
        first.0 ≡ ok (if leb 60 e then none else some pubkey)
        × (consume_challenge challenge first.1).0 ≡ ok none
  unfolding store_challenge consume_challenge call
  challenge_once challenge pubkey s s' t e h =
      let h' = simp (R.at_run, eq_refl) at h in (rw h' (ground arith), simp (R.at_run, eq_refl))

  -- A ticket gives its key at most once: whatever the store holds, a ticket that was presented once
  -- gives nothing the next time.
  pub ticket_once :
      (ticket : String) (s : R.Store) (t : ℕ)
      → (consume_ws_ticket ticket (consume_ws_ticket ticket (calm s t d k)).1).0 ≡ ok none
  unfolding consume_ws_ticket call
  ticket_once ticket s t = simp (R.at_run, eq_refl)
