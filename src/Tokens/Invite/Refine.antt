-- ===== src/Tokens/Invite/Refine.antt =====
-- The module implements the table: each request is a step of it.
use morok_relay.Prelude.{
  ℕ, ◌+◌, String, ◌≡◌, refl, inl, inr, Bool, Option, none, some, List, [], ◌∷◌, arith, leb,
  Bool-cases, if◌then◌else◌, ◌==◌,
}
use morok_relay.Prelude.Json.{Json, Dict, str, int, bool, lookup}
use morok_relay.Redis.{Key, Redis, is_there, srem, expire, sadd, set, get_of, document, del}
use morok_relay.Redis.Pipeline.{◌▸◌, get, exists, members_at}
use morok_relay.Exec.{
  World, Net, Outcome, up, lost_request, lost_reply, ok, raised, call, answer, handled, continue,
  pure, redis_error,
}
use morok_relay.Exec.Keeps.{Keeps, Keeps-pure, Keeps-call, Keeps-bind, Keeps-catch_all}
use morok_relay.Queue.Inbox.{loads}
use morok_relay.Tokens.Shelf.{count_live, capped_ttl, max_ttl_seconds}
use morok_relay.Tokens.Invite.{
  max_active_tokens_per_group, token_payload, create_lua, created, create_token, get_token, forget,
  consumed, take_token, consume_token, revoke_token,
}
use morok_relay.Tokens.Invite.Store.{
  Invites, without, with_token, is_some, Request, issue, look, take, withdraw, Reply, issued, found,
  withdrawn, TableStep, issues, refuses, looks, takes, withdraws, fails, loses, value_of, serve,
  IsTable, Steps,
}

loaded : (o : Option Dict) → loads (get_of (value_of o)) ≡ o
loaded none = refl
loaded (some meta) = refl

there_value : (o : Option Dict) → is_there (record { value = value_of o; ttl = none }) ≡ is_some o
there_value none = refl
there_value (some meta) = refl

module _ ⦃R : Redis⦄ where
  -- a round trip that changes the table from `m` to `m'`, and what is done with its outcome
  answered :
      {A : Type 0} {m m' : Invites} {q : Request} {r : Outcome Reply} {s : R.Store} {a : A}
      (k : Outcome A → World → Outcome Reply × World) (n : List Net) (w : World)
      → ((v : World) → k (raised redis_error) v ≡ (raised redis_error, v))
      → IsTable m w.db
      → TableStep w.now m q r m'
      → IsTable m' s
      → ((l : List Net) → Steps m w q (k (ok a) (record w { db = s; net = l })))
      → Steps m w q (k (answer n (a, s) w).0 (answer n (a, s) w).1)
  unfolding answer
  answered k [] w raises h step after done = done w.net
  answered k (up ∷ n) w raises h step after done = done n
  answered k (lost_request ∷ n) w raises h step after done = rw (raises _) (_, (fails _, h))
  answered k (lost_reply ∷ n) w raises h step after done = rw (raises _) (_, (loses step, after))

  -- what the group's set holds is no matter of the table
  module _ (m : Invites) (g t : String) (s : R.Store) (h : IsTable m s) where
    after_srem : IsTable m (s ▸ srem (Key.group_invites g) t)
    after_srem = record { shown = λ u. simp (R.at_run, h.shown u) }

    after_expire : (d : ℕ) → IsTable m (s ▸ expire (Key.group_invites g) d)
    after_expire d = record { shown = λ u. simp (R.at_run, h.shown u) }

    after_sadd : IsTable m (s ▸ sadd (Key.group_invites g) t)
    after_sadd = record { shown = λ u. simp (R.at_run, h.shown u) }

  forget-IsTable : (m : Invites) (o : Option Json) (t : String) → Keeps (IsTable m) (forget o t)
  unfolding forget
  forget-IsTable m (some (str g)) t = elim (Bool-cases (g == "")) [
    | inl empty ↦ rw empty (Keeps-pure tt)
    | inr named ↦ rw named (Keeps-catch_all _ _ (Keeps-call _ (after_srem m g t)) (Keeps-pure tt))
  ]
  forget-IsTable m _ t = Keeps-pure tt

  caught :
      (n : List Net) (s : R.Store) (w : World)
      → (let (r, w') = answer n (tt, s) w in handled (pure tt) r w').0 ≡ ok tt
  unfolding answer
  caught [] s w = refl
  caught (up ∷ n) s w = refl
  caught (lost_request ∷ n) s w = refl
  caught (lost_reply ∷ n) s w = refl

  forget-ok : (o : Option Json) (t : String) (w : World) → (forget o t w).0 ≡ ok tt
  unfolding forget call
  forget-ok (some (str g)) t w = elim (Bool-cases (g == "")) [
    | inl empty ↦ rw empty refl
    | inr named ↦ rw named (caught w.net _ w)
  ]
  forget-ok none t w = refl
  forget-ok (some Json.null) t w = refl
  forget-ok (some (bool b)) t w = refl
  forget-ok (some (int n)) t w = refl

  consumed-ok : (t : String) (o : Option Dict) (w : World) → (consumed t o w).0 ≡ ok o
  unfolding consumed
  consumed-ok t none w = refl
  consumed-ok t (some meta) w = rw (forget-ok (lookup "group_id" meta) t w) refl

  consumed-IsTable : (m : Invites) (t : String) (o : Option Dict) → Keeps (IsTable m) (consumed t o)
  unfolding consumed
  consumed-IsTable m t none = Keeps-pure _
  consumed-IsTable m t (some meta) =
      Keeps-bind _ _ (forget-IsTable m (lookup "group_id" meta) t) (λ _. Keeps-pure _)

  counted-IsTable :
      (m : Invites) (g : String) (l : List String) (s : R.Store)
      → IsTable m s
      → IsTable m (count_live Key.invite_token (Key.group_invites g) l s).1
  unfolding count_live
  counted-IsTable m g [] s h = h
  counted-IsTable m g (x ∷ l) s h = elim (Bool-cases (exists (Key.invite_token x) s)) [
    | inl live ↦ rw live (counted-IsTable m g l s h)
    | inr dead ↦ rw dead (counted-IsTable m g l _ (after_srem m g x s h))
  ]

  module _ (m : Invites) where
    found_meta : (t : String) (s : R.Store) → IsTable m s → loads (get (Key.invite_token t) s) ≡ m t
    found_meta t s h = rw (h.shown t) (loaded (m t))

    -- the keys of the tokens apart from one that the call wrote
    module _ (t : String) (v : Option Dict) (s s' : R.Store) where
      only_token :
          ((u : String)
            → (R.at s' (Key.invite_token u)).value
              ≡ (if t == u then value_of v else (R.at s (Key.invite_token u)).value))
          → IsTable m s
          → IsTable (λ u. if t == u then v else m u) s'
      only_token same h = record {
        shown = λ u. elim (Bool-cases (t == u)) [
          | inl this ↦ simp (same u, this)
          | inr other ↦ simp (same u, other, h.shown u)
        ];
      }

    serve-look : (t : String) (w : World) → IsTable m w.db → Steps m w (look t) (serve (look t) w)
    unfolding serve get_token call
    serve-look t w h =
        answered (λ o v. continue (λ r. pure (found r)) o v) w.net w (λ v. refl) h (looks t) h
          (λ l. (m, (rw (found_meta t w.db h) (looks t), h)))

    without_token :
        (t : String) (s : R.Store)
        → IsTable m s
        → IsTable (without t m) (s ▸ del (Key.invite_token t))
    without_token t s h =
        only_token t none s _
          (λ u. ground (arith, R.at_run (del (Key.invite_token t)) s (Key.invite_token u))) h

    there_is :
        (t : String) (s : R.Store) → IsTable m s → exists (Key.invite_token t) s ≡ is_some (m t)
    there_is t s h = rw (h.shown t) (there_value (m t))

    serve-withdraw :
        (g t : String) (w : World)
        → IsTable m w.db
        → Steps m w (withdraw g t) (serve (withdraw g t) w)
    unfolding serve revoke_token call
    serve-withdraw g t w h =
        answered (λ o v. continue (λ r. pure (withdrawn r)) o v) w.net w (λ v. refl) h
          (withdraws g t) (after_srem _ g t _ (without_token t w.db h))
          (λ l. (
            without t m,
            (rw (there_is t w.db h) (withdraws g t), after_srem _ g t _ (without_token t w.db h)),
          ))

    serve-take : (t : String) (w : World) → IsTable m w.db → Steps m w (take t) (serve (take t) w)
    unfolding serve consume_token take_token call
    serve-take t w h =
        answered
          (λ o v. let o' = continue (consumed t) o v in continue (λ r. pure (found r)) o'.0 o'.1)
          w.net w (λ v. refl) h (takes t) (without_token t w.db h)
          (λ l.
            let gone =
              (consumed-IsTable (without t m) t (loads (get (Key.invite_token t) w.db))).holds
                (record w { db = w.db ▸ del (Key.invite_token t); net = l })
                (without_token t w.db h) in
            rw
              (consumed-ok t (loads (get (Key.invite_token t) w.db))
                (record w { db = w.db ▸ del (Key.invite_token t); net = l }))
              (without t m, (rw (found_meta t w.db h) (takes t), gone)))

    written :
        (t g : String) (payload : Dict) (ttl d : ℕ) (s : R.Store)
        → IsTable m s
        → IsTable (with_token t payload m) (
            s
            ▸ set (Key.invite_token t) (document payload) (some ttl)
            ▸ sadd (Key.group_invites g) t
            ▸ expire (Key.group_invites g) d)
    written t g payload ttl d s h =
        after_expire _ g t _
          (after_sadd _ g t _ (
            only_token t (some payload) s _
              (λ u. ground (
                arith,
                R.at_run (set (Key.invite_token t) (document payload) (some ttl)) s
                    (Key.invite_token u),
              ))
              h))
          d

    serve-issue :
        (t g c : String) (ttl : ℕ) (w : World)
        → IsTable m w.db
        → Steps m w (issue t g c ttl) (serve (issue t g c ttl) w)
    unfolding serve create_token create_lua call
    serve-issue t g c ttl w h =
        let looped =
          count_live Key.invite_token (Key.group_invites g) (members_at (Key.group_invites g) w.db)
            w.db in
        let k : ℕ → Outcome (Bool × ℕ) → World → Outcome Reply × World = λ now o v.
          let o' = continue (λ r. pure (created t now (now + capped_ttl ttl) r.0)) o v in
          continue (λ r. pure (issued r)) o'.0 o'.1 in
        elim (Bool-cases (leb max_active_tokens_per_group looped.0)) [
          | inl full ↦
              let h' = counted-IsTable m g (members_at (Key.group_invites g) w.db) w.db h in
              rw full (
                answered (k w.now) w.net w (λ v. refl) h (refuses t g c ttl) h'
                  (λ l. (m, (refuses t g c ttl, h'))))
          | inr room ↦
              let h' =
                written t g (token_payload g c w.now (w.now + capped_ttl ttl)) (capped_ttl ttl)
                  (max_ttl_seconds + 86400) _
                  (counted-IsTable m g (members_at (Key.group_invites g) w.db) w.db h) in
              rw room (
                answered (k w.now) w.net w (λ v. refl) h (issues t g c ttl) h'
                  (λ l. (_, (issues t g c ttl, h'))))
        ]

  -- What each request does is a step of the table: from a store that holds the table `m`, whatever
  -- the network does, the outcome and the store after it are those of a step from `m`.
  pub serve-refines :
      (q : Request) (m : Invites) (w : World) → IsTable m w.db → Steps m w q (serve q w)
  serve-refines (issue t g c ttl) m w h = serve-issue m t g c ttl w h
  serve-refines (look t) m w h = serve-look m t w h
  serve-refines (take t) m w h = serve-take m t w h
  serve-refines (withdraw g t) m w h = serve-withdraw m g t w h
