-- ===== src/RateLimit/Slots/Bound.antt =====
-- What `reserve_ws_slot` promises about the connections of one user.
use morok_relay.Prelude.{
  ℕ, ◌-◌, ◌+◌, ◌≤◌, ◌<◌, String, ◌≡◌, refl, ap, inl, inr, Bool, true, false, none, some, List,
  arith, eq_refl, ltb, Bool-cases, if◌then◌else◌,
}
use morok_relay.Redis.{Key, Entry, Redis, zset_of}
use morok_relay.Redis.Pipeline.{effects, zset_at, at-run_all}
use morok_relay.Redis.Sets.{ZSet, card, zscore, zprune, zinsert, zscore-zremove, zscore-zprune}
use morok_relay.Exec.{World, Outcome, ok, call, calm}
use morok_relay.RateLimit.Slots.{ws_slot_ttl_seconds, drop_dead, take_slot, reserve_ws_slot}

-- what is left of the slots when the dead ones are dropped
pub alive : ℕ → ZSet → ZSet
alive now z = if ltb now ws_slot_ttl_seconds then z else zprune (now - ws_slot_ttl_seconds) z

-- A slot that is left was refreshed within the last 90 seconds, once the clock is past those.
pub alive_fresh :
    (now : ℕ) (z : ZSet) (c : String) (x : ℕ)
    → 90 ≤ now
    → zscore c (alive now z) ≡ some x
    → now < x + 90
unfolding alive
alive_fresh now z c x late e = ground (arith, zscore-zprune (now - 90) z c x)

effects-drop_dead :
    (user : String) (t : ℕ) (o : Entry)
    → zset_of (effects (drop_dead user t) (Key.ws_connections user) o).value
      ≡ alive t (zset_of o.value)
unfolding drop_dead alive
effects-drop_dead user t o = elim (Bool-cases (ltb t ws_slot_ttl_seconds)) [
  | inl young ↦ rw young
  | inr old ↦ rw old (simp eq_refl)
]

module _ ⦃R : Redis⦄ (user connection : String) (limit : ℕ) (s : R.Store) (t : ℕ)
    (d : List (String × String)) (k : String → Bool) where
  abbrev slots : R.Store → ZSet
  slots s' = zset_at (Key.ws_connections user) s'

  -- the slots once this one is taken
  abbrev pub wanted : ZSet
  wanted = zinsert connection t (alive t (slots s))

  take_slot_lem : slots (take_slot user connection t s).1 ≡ wanted
  unfolding take_slot alive
  take_slot_lem = simp (R.at_run, at-run_all, eq_refl, effects-drop_dead)

  take_slot_reply : (take_slot user connection t s).0 ≡ card wanted
  unfolding take_slot
  take_slot_reply = ap card take_slot_lem

  -- How a call ends.
  pub data Reserved (r : Outcome Bool × World) : Type 0 where
    granted : r.0 ≡ ok true → card wanted ≤ limit → slots r.1.db ≡ wanted → Reserved r
    denied :
        r.0 ≡ ok false → limit < card wanted → zscore connection (slots r.1.db) ≡ none → Reserved r

  -- With the connection up a slot is granted exactly when, with it, the user has no more slots that
  -- are alive than the limit; when it is denied, the connection holds none.
  pub reserve_ws_slot-Reserved :
      Reserved (reserve_ws_slot true user connection limit (calm s t d k))
  unfolding reserve_ws_slot call
  reserve_ws_slot-Reserved = elim (Bool-cases (ltb limit (card wanted))) [
    | inl over ↦
        rw (take_slot_reply, over)
          (denied refl (ground arith) (simp (R.at_run, eq_refl, zscore-zremove)))
    | inr within ↦ rw (take_slot_reply, within) (granted refl (ground arith) take_slot_lem)
  ]
