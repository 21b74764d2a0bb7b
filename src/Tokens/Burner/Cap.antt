-- ===== src/Tokens/Burner/Cap.antt =====
-- No owner has more live burner tokens than the cap.
use morok_relay.Prelude.{
  ℕ, ◌+◌, String, refl, inl, inr, Option, none, some, List, [], ◌∷◌, leb, ltb, Bool-cases,
}
use morok_relay.Prelude.Json.{Json, Dict, str, int, lookup, insert}
use morok_relay.Redis.{Key, Redis, document, elapse}
use morok_relay.Redis.Pipeline.{◌▸◌, get, members_at}
use morok_relay.Exec.{World, Net, call, pure}
use morok_relay.Exec.Keeps.{
  Keeps, Keeps-pure, Keeps-call, Keeps-bind, Keeps-read, answer_holds, continue_holds,
}
use morok_relay.Queue.Inbox.{loads}
use morok_relay.Tokens.Shelf.{count_live, int_or_zero, capped_ttl}
use morok_relay.Tokens.Shelf.Alive.{Shelf, IsFresh}
use morok_relay.Tokens.Shelf.Within.{
  IsWithin, IsWithin-del, IsWithin-srem, IsWithin-set_xx_keepttl, IsWithin-loop, IsWithin-add,
  IsWithin-elapse, Keeps-scan, Keeps-drop_stale,
}
use morok_relay.Tokens.Burner.{
  max_messages_per_token, max_active_tokens_per_owner, token_payload, create_lua, created,
  create_token, drop_from_owner, incr_lua, increment_message_count, revoke_token, list_members,
  list_tokens_for_owner,
}

abbrev pub burner : Shelf
burner = record {
  token_key = Key.burner_token;
  owner_key = Key.burner_owner;
  apart = λ o m. refl;
  apart' = λ m o. refl;
  same_token = λ m n. refl;
  same_owner = λ o p. refl;
}

module _ ⦃R : Redis⦄ where
  abbrev pub IsBurnerCapped : R.Store → Type 0
  IsBurnerCapped = IsWithin burner max_active_tokens_per_owner

  create_lua-capped :
      (owner token : String) (payload : Dict) (ttl : ℕ) (s : R.Store)
      → IsFresh burner token s
      → IsBurnerCapped s
      → IsBurnerCapped (create_lua owner token max_active_tokens_per_owner payload ttl s).1
  unfolding create_lua
  create_lua-capped owner token payload ttl s fresh v =
      elim (Bool-cases (
        leb max_active_tokens_per_owner
          (count_live Key.burner_token (Key.burner_owner owner)
            (members_at (Key.burner_owner owner) s) s).0)) [
              | inl full ↦ rw full (IsWithin-loop burner max_active_tokens_per_owner owner s v)
              | inr room ↦ rw room (
                  IsWithin-add burner max_active_tokens_per_owner owner token (document payload)
                    (some ttl) s fresh room v)
            ]

  create_token-capped :
      (token owner : String) (ttl : ℕ) (label : Option String) (w : World)
      → IsFresh burner token w.db
      → IsBurnerCapped w.db
      → IsBurnerCapped (create_token token owner ttl label w).1.db
  unfolding create_token call
  create_token-capped token owner ttl label w fresh v =
      let (r, w') =
        call
          (create_lua owner token max_active_tokens_per_owner
            (token_payload owner label w.now (w.now + capped_ttl ttl)) (capped_ttl ttl))
          w in
      continue_holds IsBurnerCapped
        (λ x. pure (created owner token label w.now (w.now + capped_ttl ttl) x.0)) r w'
        (λ x. Keeps-pure _)
        (answer_holds IsBurnerCapped w.net _ w v (create_lua-capped owner token _ _ w.db fresh v))

  drop_from_owner-capped :
      (o : Option Json) (token : String) (s : R.Store)
      → IsBurnerCapped s
      → IsBurnerCapped (drop_from_owner o token s)
  drop_from_owner-capped (some (str owner)) token s v =
      IsWithin-srem burner max_active_tokens_per_owner owner token s v
  drop_from_owner-capped _ token s v = v

  incr_lua-capped :
      (token : String) (n : ℕ) (o : Option Dict) (s : R.Store)
      → IsBurnerCapped s
      → IsBurnerCapped (incr_lua token n o s).1
  unfolding incr_lua
  incr_lua-capped token n none s v = v
  incr_lua-capped token n (some meta) s v =
      let count = int_or_zero (lookup "message_count" meta) + 1 in
      elim (Bool-cases (ltb n count)) [
        | inl over ↦ rw over (
            drop_from_owner-capped (lookup "owner_pubkey" meta) token _
              (IsWithin-del burner max_active_tokens_per_owner token s v))
        | inr below ↦ rw below (
            IsWithin-set_xx_keepttl burner max_active_tokens_per_owner token
              (document (insert "message_count" (int count) meta)) s v)
      ]

  increment-capped : (token : String) → Keeps IsBurnerCapped (increment_message_count token)
  unfolding increment_message_count
  increment-capped token = Keeps-call _ (λ s v.
      incr_lua-capped token max_messages_per_token (loads (get (Key.burner_token token) s)) s v)

  revoke_token-capped : (owner token : String) → Keeps IsBurnerCapped (revoke_token owner token)
  unfolding revoke_token
  revoke_token-capped owner token = Keeps-call _ (λ s v.
      IsWithin-srem burner max_active_tokens_per_owner owner token _
        (IsWithin-del burner max_active_tokens_per_owner token s v))

  list_members-capped :
      (owner : String) (ms : List String) → Keeps IsBurnerCapped (list_members owner ms)
  unfolding list_members
  list_members-capped owner [] = Keeps-pure _
  list_members-capped owner (m ∷ ms) =
      Keeps-bind _ _ (Keeps-scan burner max_active_tokens_per_owner (m ∷ ms)) (λ found.
        Keeps-bind _ _ (Keeps-drop_stale burner max_active_tokens_per_owner owner found.1)
          (λ _. Keeps-pure _))

  list_tokens-capped : (owner : String) → Keeps IsBurnerCapped (list_tokens_for_owner owner)
  unfolding list_tokens_for_owner
  list_tokens-capped owner =
      Keeps-bind _ _ (Keeps-read _) (λ members. list_members-capped owner members)

  -- what a call of the module, the clock and the network can do; a new token is one that no set
  -- lists, as `secrets` makes them
  pub data BurnerStep : World → World → Type 0 where
    creates :
        (w : World) (token owner : String) (ttl : ℕ) (label : Option String)
        → IsFresh burner token w.db
        → BurnerStep w (create_token token owner ttl label w).1
    increments : (w : World) (token : String) → BurnerStep w (increment_message_count token w).1
    revokes : (w : World) (owner token : String) → BurnerStep w (revoke_token owner token w).1
    lists : (w : World) (owner : String) → BurnerStep w (list_tokens_for_owner owner w).1
    passes : (w : World) (d : ℕ) → BurnerStep w (record w { db = w.db ▸ elapse d; now = w.now + d })
    network : (w : World) (n : List Net) → BurnerStep w (record w { net = n })

  pub data BurnerReach (w : World) : World → Type 0 where
    here : BurnerReach w w
    next : {u v : World} → BurnerReach w u → BurnerStep u v → BurnerReach w v

  step-capped : {u v : World} → BurnerStep u v → IsBurnerCapped u.db → IsBurnerCapped v.db
  step-capped (creates w token owner ttl label fresh) v =
      create_token-capped token owner ttl label w fresh v
  step-capped (increments w token) v = (increment-capped token).holds w v
  step-capped (revokes w owner token) v = (revoke_token-capped owner token).holds w v
  step-capped (lists w owner) v = (list_tokens-capped owner).holds w v
  step-capped (passes w d) v = IsWithin-elapse burner max_active_tokens_per_owner d w.db v
  step-capped (network w n) v = v

  -- If no owner has more than 10 live tokens, none has after any history of calls, of passing time
  -- and of failures of the network, provided that each new token is one that no set lists.
  pub BurnerReach-IsWithin :
      {u v : World}
      → BurnerReach u v
      → IsWithin burner max_active_tokens_per_owner u.db
      → IsWithin burner max_active_tokens_per_owner v.db
  BurnerReach-IsWithin here h = h
  BurnerReach-IsWithin (next r st) h = step-capped st (BurnerReach-IsWithin r h)
