-- ===== src/SensitiveAction/Replay.antt =====
-- Whether a confirmation can be used twice.
use morok_relay.Prelude.{
  ℕ, ◌+◌, ◌≤◌, ◌<◌, String, ◌≡◌, refl, ap, ◌∙◌, inl, inr, Bool, true, false, not, some, List, arith,
  eq_refl, leb, Bool-cases, if◌then◌else◌,
}
use morok_relay.Redis.{Key, Redis, Value, text, elapsed}
use morok_relay.Redis.Pipeline.{exists}
use morok_relay.Exec.{ok, call, calm}
use morok_relay.SensitiveAction.{
  Ed25519, Confirmation, is_signed, claim_nonce, distance, verify_sensitive_action,
}

module _ ⦃R : Redis⦄ ⦃C : Ed25519⦄ (c : Confirmation) (s : R.Store) (t : ℕ)
    (d : List (String × String)) (k : String → Bool) where
  abbrev key : Key
  key = Key.action_nonce c.pubkey c.nonce

  -- a call with the connection up
  verify_calm : verify_sensitive_action c (calm s t d k) ≡ (
      if is_signed t c
      then (ok (not (exists key s)), calm (claim_nonce c.pubkey c.nonce s).1 t d k)
      else (ok false, calm s t d k))
  unfolding verify_sensitive_action call
  verify_calm = elim (Bool-cases (is_signed t c)) [ inl e ↦ rw e | inr e ↦ rw e ]

  module _ (accepted : (verify_sensitive_action c (calm s t d k)).0 ≡ ok true) where
    signed : is_signed t c ≡ true
    signed = ground (arith, verify_calm)

    fresh : exists key s ≡ false
    fresh = ground (arith, verify_calm)

    -- the nonce is recorded for 300 seconds
    recorded :
        R.at (verify_sensitive_action c (calm s t d k)).1.db key
        ≡ record { value = Value.string (text "1"); ttl = some 300 }
    unfolding claim_nonce
    recorded = rw (verify_calm, signed) (simp (R.at_run, eq_refl, fresh))

-- the window of a confirmation that the checks let through
in_window :
    ⦃C : Ed25519⦄ (now : ℕ) (c : Confirmation)
    → is_signed now c ≡ true
    → distance now c.timestamp ≤ 300
unfolding is_signed
in_window now c h = ground arith

out_of_window :
    ⦃C : Ed25519⦄ (now : ℕ) (c : Confirmation) → c.timestamp + 300 < now → is_signed now c ≡ false
unfolding is_signed
out_of_window now c h = ground arith

still_signed :
    ⦃C : Ed25519⦄ (now later : ℕ) (c : Confirmation)
    → is_signed now c ≡ true
    → distance later c.timestamp ≤ 300
    → is_signed later c ≡ true
unfolding is_signed
still_signed now later c h near = ground arith

module _ ⦃R : Redis⦄ ⦃C : Ed25519⦄ (c : Confirmation) (s s' : R.Store) (t e : ℕ)
    (d d' : List (String × String)) (k k' : String → Bool)
    (accepted : (verify_sensitive_action c (calm s t d k)).0 ≡ ok true)
    (untouched : R.at s' (Key.action_nonce c.pubkey c.nonce)
      ≡ elapsed e (
          R.at
            (verify_sensitive_action c (calm s t d k)).1.db
            (Key.action_nonce c.pubkey c.nonce))) where
  nonce_later :
      R.at s' (Key.action_nonce c.pubkey c.nonce)
      ≡ elapsed e (record { value = Value.string (text "1"); ttl = some 300 })
  nonce_later = untouched ∙ ap (elapsed e) (recorded c s t d k accepted)

  remembered : e < 300 → exists (Key.action_nonce c.pubkey c.nonce) s' ≡ true
  remembered h = rw nonce_later (ground arith)

  forgotten : 300 ≤ e → exists (Key.action_nonce c.pubkey c.nonce) s' ≡ false
  forgotten h = rw nonce_later (ground arith)

  -- A confirmation that was accepted at a time after its timestamp is refused from then on, as long
  -- as nothing but the passing of time touches the record of its nonce: that record lasts until the
  -- timestamp is too old.
  pub replay_refused :
      c.timestamp < t → (verify_sensitive_action c (calm s' (t + e) d' k')).0 ≡ ok false
  replay_refused before = rw (verify_calm c s' (t + e) d' k') (elim (Bool-cases (leb 300 e)) [
    | inl long ↦ rw (out_of_window (t + e) c (ground arith)) refl
    | inr short ↦ rw (remembered (ground arith)) (ground arith)
  ])

  -- A confirmation whose timestamp is not before the time of its acceptance is accepted once more
  -- 300 seconds later: the nonce is forgotten then, and the timestamp is still in the window.
  pub replay_accepted :
      t ≤ c.timestamp → e ≡ 300 → (verify_sensitive_action c (calm s' (t + e) d' k')).0 ≡ ok true
  replay_accepted ahead e300 = rw (
    verify_calm c s' (t + e) d' k',
    still_signed t (t + e) c (signed c s t d k accepted)
        (ground (arith, in_window t c (signed c s t d k accepted))),
    forgotten (omega arith),
  )
