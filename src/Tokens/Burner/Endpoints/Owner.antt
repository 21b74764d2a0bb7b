-- ===== src/Tokens/Burner/Endpoints/Owner.antt =====
-- A burner token can be revoked by its owner only.
use morok_relay.Prelude.{
  ℕ, String, ◌≡◌, refl, inl, inr, Bool, true, false, Option, none, some, List, eq_refl, Bool-cases,
}
use morok_relay.Prelude.Json.{Dict, lookup, is_text}
use morok_relay.Redis.{Key, Redis}
use morok_relay.Redis.Pipeline.{exists, get}
use morok_relay.Exec.{World, Outcome, ok, raised, http, call, calm}
use morok_relay.Sessions.Rules.{get_of-is_there}
use morok_relay.Tokens.Burner.{get_token, revoke_token}
use morok_relay.Tokens.Burner.Messages.{meta_of_token, get_document}
use morok_relay.Tokens.Burner.Endpoints.{is_token, check_token, revoke_own, revoke_burner_token}

module _ ⦃R : Redis⦄ (token pubkey : String) (well_formed : is_token token ≡ true) (t : ℕ)
    (d : List (String × String)) (k : String → Bool) where
  -- the three ends of a request that revokes a token
  pub data Revoked (s : R.Store) : Option Dict → Outcome Bool × World → Type 0 where
    unknown : Revoked s none (ok false, calm s t d k)
    not_yours :
        (meta : Dict)
        → is_text (lookup "owner_pubkey" meta) pubkey ≡ false
        → Revoked s (some meta) (raised (http 403 "not_your_token"), calm s t d k)
    done :
        (meta : Dict) (s' : R.Store)
        → is_text (lookup "owner_pubkey" meta) pubkey ≡ true
        → meta_of_token token s' ≡ none
        → Revoked s (some meta) (ok true, calm s' t d k)

  revoke_own-Revoked :
      (s : R.Store) (o : Option Dict)
      → meta_of_token token s ≡ o
      → Revoked s o (revoke_own token pubkey o (calm s t d k))
  unfolding revoke_token call
  revoke_own-Revoked s none h = unknown
  revoke_own-Revoked s (some meta) h =
      elim (Bool-cases (is_text (lookup "owner_pubkey" meta) pubkey)) [
        | inr other ↦ simp other (not_yours meta other)
        | inl mine ↦
            let e = R.at s (Key.burner_token token) in
            let there : exists (Key.burner_token token) s ≡ true =
              get_of-is_there e.ttl e.value
                (get_document token (get (Key.burner_token token) s) meta h) in
            simp (mine, there) (done meta _ mine (simp (R.at_run, eq_refl)))
      ]

  -- With the connection up a request that revokes a well-formed token answers `False` and changes
  -- nothing when there is no such token, is refused with 403 and changes nothing when the token is
  -- another's, and else answers `True` and
  -- the token is gone afterwards.
  pub revoke_burner_token-Revoked :
      (s : R.Store)
      → Revoked s (meta_of_token token s) (revoke_burner_token token pubkey (calm s t d k))
  unfolding revoke_burner_token check_token get_token call
  revoke_burner_token-Revoked s = rw well_formed (revoke_own-Revoked s (meta_of_token token s) refl)
