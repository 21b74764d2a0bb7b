-- ===== src/Sessions/Revoke.antt =====
-- Logging out everywhere, and what is left of a session that ran out.
use morok_relay.Prelude.{
  some, ℕ, ◌+◌, ◌<◌, ◌≤◌, String, ◌≡◌, refl, ◌∙◌, ap, Bool, true, false, none, List, [], ◌∷◌, ◌++◌,
  arith, eq_refl, ◌==◌, elem, if◌then◌else◌, leb,
}
use mathlib.Core.List.{append-nil}
use morok_relay.Redis.{Entry, get_of, text, Key, Redis, elapsed, gone, del}
use morok_relay.Redis.Sets.{sinsert}
use morok_relay.Redis.Pipeline.{◌▸◌, get, members_at}
use morok_relay.Exec.{World, Outcome, ok, call, calm}
use morok_relay.Queue.Model.{Sha256}
use morok_relay.Sessions.Value.{Decimal, partition}
use morok_relay.Sessions.Rules.{get_of-is_there}
use morok_relay.Sessions.{
  create_session, revoke_session, verify_session_token, is_session_alive, has_any_live_session,
  revoke_all_sessions, delete_sessions, session_revoked_event, session_ttl_seconds,
  session_absolute_max_seconds,
}

sinsert-not_empty :
    (m : String) (l : List String) → elim (sinsert m l) [ [] ↦ false | _ ↦ true ] ≡ true
unfolding sinsert
sinsert-not_empty m [] = refl
sinsert-not_empty m (x ∷ xs) = ground arith

module _ ⦃R : Redis⦄ ⦃H : Sha256⦄ ⦃D : Decimal⦄ where
  at-delete_sessions :
      (ms : List String) (m : String) (s : R.Store)
      → R.at (delete_sessions ms s).1 (Key.session m)
        ≡ (if elem m ms then gone else R.at s (Key.session m))
  unfolding delete_sessions
  at-delete_sessions [] m s = refl
  at-delete_sessions (x ∷ ms) m s =
      at-delete_sessions ms m (s ▸ del (Key.session x)) ∙ simp R.at_run (ground arith)

  published-delete_sessions :
      (ms : List String) (s : R.Store) → R.published (delete_sessions ms s).1 ≡ R.published s
  unfolding delete_sessions
  published-delete_sessions [] s = refl
  published-delete_sessions (x ∷ ms) s =
      published-delete_sessions ms (s ▸ del (Key.session x)) ∙ simp (R.published_run, append-nil)

module _ ⦃R : Redis⦄ ⦃H : Sha256⦄ ⦃D : Decimal⦄ (pubkey : String) (s : R.Store) (t : ℕ)
    (d : List (String × String)) (k : String → Bool) where
  abbrev index : Key
  index = Key.user_sessions pubkey

  -- a session, the index and the events after a call that found the members `ms`
  pub record IsRevoked (ms : List String) (m : String) (r : Outcome ℕ × World) : Type 0 where
    pub session : R.at r.1.db (Key.session m) ≡ (if elem m ms then gone else R.at s (Key.session m))
    pub emptied : members_at index r.1.db ≡ []
    pub told : R.published r.1.db ≡ R.published s ++ ((pubkey, session_revoked_event none) ∷ [])

  revoked :
      (m : String) (ms : List String)
      → members_at index s ≡ ms
      → IsRevoked ms m (revoke_all_sessions pubkey (calm s t d k))
  unfolding revoke_all_sessions call
  revoked m [] e =
      rw e
        (record { session = simp R.at_run; emptied = simp R.at_run e; told = simp R.published_run })
  revoked m (x ∷ ms) e = rw e (record {
    session = simp (R.at_run, at-delete_sessions);
    emptied = simp (R.at_run, eq_refl);
    told = simp (R.published_run, published-delete_sessions, append-nil);
  })

  -- Logging out everywhere with the connection up deletes the sessions that the index of the key
  -- lists and no other, leaves the index empty, and tells the open sockets of the key to close,
  -- also when the index was empty before.
  pub revoke_all_sessions-IsRevoked :
      (m : String)
      → IsRevoked
          (members_at (Key.user_sessions pubkey) s)
          m
          (revoke_all_sessions pubkey (calm s t d k))
  revoke_all_sessions-IsRevoked m = revoked m (members_at index s) refl

get_of_cleared :
    (b : Bool) (e : Entry) → get_of e.value ≡ none → get_of (if b then gone else e).value ≡ none
get_of_cleared true e h = refl
get_of_cleared false e h = h

module _ ⦃R : Redis⦄ ⦃H : Sha256⦄ ⦃D : Decimal⦄ (token raw : String) (s : R.Store) (t : ℕ)
    (d : List (String × String)) (k : String → Bool) where
  -- A token that was logged out with the connection up is refused from then on, at any time, and
  -- the sockets of its key are told its digest: provided that the session is stored under its
  -- hashed key, and nothing under its bare one.
  pub revoke_session_lem :
      (token == "") ≡ false
      → get (Key.session (H.of_text token)) s ≡ some (text raw)
      → get (Key.session token) s ≡ none
      → (t' : ℕ)
      → let after = revoke_session token (calm s t d k) in
        after.0 ≡ ok true
        × (verify_session_token token (calm after.1.db t' d k)).0 ≡ ok none
        × R.published after.1.db
          ≡ R.published s ++ (((partition raw).0, session_revoked_event (some token)) ∷ [])
  unfolding revoke_session verify_session_token call
  revoke_session_lem some_token found not_legacy t' =
      let bare =
        get_of_cleared (H.of_text token == token) (R.at s (Key.session token)) not_legacy in
      rw (found, some_token)
        (
          rw
              (get_of-is_there (R.at s (Key.session (H.of_text token))).ttl
                (R.at s (Key.session (H.of_text token))).value found)
              refl,
          simp (R.at_run, eq_refl) (rw bare refl),
          simp (R.published_run, append-nil),
        )

module _ ⦃R : Redis⦄ ⦃H : Sha256⦄ ⦃D : Decimal⦄ (token pubkey : String) (s s' : R.Store) (t e : ℕ)
    (d d' : List (String × String)) (k k' : String → Bool) where
  -- A session that nobody used for 7 days is dead, yet for 31 days from its creation the check of
  -- a socket that was opened with a ticket answers that its owner has a live session: the time to
  -- live of the index is that of its longest session, and no entry of it goes away by itself.
  pub dead_session_counts :
      (let after = (create_session token pubkey (calm s t d k)).1.db in
        (j : Key) → R.at s' j ≡ elapsed e (R.at after j))
      → get (Key.session token) s' ≡ none
      → (token == "") ≡ false
      → 604800 ≤ e
      → e < 2678400
      → ((is_session_alive token (calm s' (t + e) d' k')).0 ≡ ok false)
        × ((has_any_live_session pubkey (calm s' (t + e) d' k')).0 ≡ ok true)
  unfolding create_session is_session_alive has_any_live_session call
  dead_session_counts untouched not_legacy some_token long short =
      let session = simp (R.at_run, eq_refl) at (untouched (Key.session (H.of_text token))) in
      let index = simp (R.at_run, eq_refl) at (untouched (Key.user_sessions pubkey)) in
      let over : leb session_ttl_seconds e ≡ true = ground arith in
      let kept : leb (session_absolute_max_seconds + 86400) e ≡ false = ground arith in
      let full = sinsert-not_empty (H.of_text token) (members_at (Key.user_sessions pubkey) s) in
      (rw (some_token, session, over, not_legacy) refl, rw (index, full, kept) (ap ok full))
