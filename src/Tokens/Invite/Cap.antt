-- ===== src/Tokens/Invite/Cap.antt =====
-- No group has more live invite tokens than the cap.
use morok_relay.Prelude.{
  ℕ, ◌+◌, String, refl, inl, inr, Option, none, some, List, [], ◌∷◌, leb, Bool-cases, ◌==◌,
}
use morok_relay.Prelude.Json.{Json, Dict, str, lookup}
use morok_relay.Redis.{Key, Redis, document, elapse, srem}
use morok_relay.Redis.Pipeline.{◌▸◌, members_at}
use morok_relay.Exec.{World, Net, call, pure}
use morok_relay.Exec.Keeps.{
  Keeps, Keeps-pure, Keeps-call, Keeps-bind, Keeps-read, Keeps-catch_all, answer_holds,
  continue_holds,
}
use morok_relay.Tokens.Shelf.{count_live, capped_ttl, max_ttl_seconds}
use morok_relay.Tokens.Shelf.Alive.{Shelf, IsFresh}
use morok_relay.Tokens.Shelf.Within.{
  IsWithin, IsWithin-del, IsWithin-srem, IsWithin-expire, IsWithin-loop, IsWithin-add,
  IsWithin-elapse, Keeps-scan, Keeps-drop_stale,
}
use morok_relay.Tokens.Invite.{
  max_active_tokens_per_group, token_payload, create_lua, created, create_token, forget, consumed,
  take_token, consume_token, revoke_token, list_members, list_tokens,
}

abbrev pub invite : Shelf
invite = record {
  token_key = Key.invite_token;
  owner_key = Key.group_invites;
  apart = λ o m. refl;
  apart' = λ m o. refl;
  same_token = λ m n. refl;
  same_owner = λ o p. refl;
}

module _ ⦃R : Redis⦄ where
  abbrev pub IsInviteCapped : R.Store → Type 0
  IsInviteCapped = IsWithin invite max_active_tokens_per_group

  create_lua-capped :
      (group_id token : String) (payload : Dict) (ttl set_ttl : ℕ) (s : R.Store)
      → IsFresh invite token s
      → IsInviteCapped s
      → IsInviteCapped
          (create_lua group_id token max_active_tokens_per_group payload ttl set_ttl s).1
  unfolding create_lua
  create_lua-capped group_id token payload ttl set_ttl s fresh v =
      elim (Bool-cases (
        leb max_active_tokens_per_group
          (count_live Key.invite_token (Key.group_invites group_id)
            (members_at (Key.group_invites group_id) s) s).0)) [
              | inl full ↦ rw full (IsWithin-loop invite max_active_tokens_per_group group_id s v)
              | inr room ↦ rw room (
                  IsWithin-expire invite max_active_tokens_per_group group_id set_ttl _ (
                    IsWithin-add invite max_active_tokens_per_group group_id token
                      (document payload) (some ttl) s fresh room v))
            ]

  create_token-capped :
      (token group_id created_by : String) (ttl : ℕ) (w : World)
      → IsFresh invite token w.db
      → IsInviteCapped w.db
      → IsInviteCapped (create_token token group_id created_by ttl w).1.db
  unfolding create_token call
  create_token-capped token group_id created_by ttl w fresh v =
      let (r, w') =
        call
          (create_lua group_id token max_active_tokens_per_group
            (token_payload group_id created_by w.now (w.now + capped_ttl ttl)) (capped_ttl ttl)
            (max_ttl_seconds + 86400))
          w in
      continue_holds IsInviteCapped (λ x. pure (created token w.now (w.now + capped_ttl ttl) x.0)) r
        w' (λ x. Keeps-pure _)
        (answer_holds IsInviteCapped w.net _ w v
          (create_lua-capped group_id token _ _ _ w.db fresh v))

  srem-capped :
      (group_id token : String) (s : R.Store)
      → IsInviteCapped s
      → IsInviteCapped (s ▸ srem (Key.group_invites group_id) token)
  srem-capped group_id token s v =
      IsWithin-srem invite max_active_tokens_per_group group_id token s v

  forget-capped : (o : Option Json) (token : String) → Keeps IsInviteCapped (forget o token)
  unfolding forget
  forget-capped (some (str group_id)) token = elim (Bool-cases (group_id == "")) [
    | inl empty ↦ rw empty (Keeps-pure tt)
    | inr named ↦
        rw named (Keeps-catch_all _ _ (Keeps-call _ (srem-capped group_id token)) (Keeps-pure tt))
  ]
  forget-capped _ token = Keeps-pure tt

  consumed-capped : (token : String) (o : Option Dict) → Keeps IsInviteCapped (consumed token o)
  unfolding consumed
  consumed-capped token none = Keeps-pure _
  consumed-capped token (some meta) =
      Keeps-bind _ _ (forget-capped (lookup "group_id" meta) token) (λ _. Keeps-pure _)

  consume_token-capped : (token : String) → Keeps IsInviteCapped (consume_token token)
  unfolding consume_token take_token
  consume_token-capped token =
      Keeps-bind _ _
        (Keeps-call _ (λ s v. IsWithin-del invite max_active_tokens_per_group token s v))
        (consumed-capped token)

  revoke_token-capped :
      (group_id token : String) → Keeps IsInviteCapped (revoke_token group_id token)
  unfolding revoke_token
  revoke_token-capped group_id token = Keeps-call _ (λ s v.
      srem-capped group_id token _ (IsWithin-del invite max_active_tokens_per_group token s v))

  list_members-capped :
      (group_id : String) (ms : List String) → Keeps IsInviteCapped (list_members group_id ms)
  unfolding list_members
  list_members-capped group_id [] = Keeps-pure _
  list_members-capped group_id (m ∷ ms) =
      Keeps-bind _ _ (Keeps-scan invite max_active_tokens_per_group (m ∷ ms)) (λ found.
        Keeps-bind _ _ (Keeps-drop_stale invite max_active_tokens_per_group group_id found.1)
          (λ _. Keeps-pure _))

  list_tokens-capped : (group_id : String) → Keeps IsInviteCapped (list_tokens group_id)
  unfolding list_tokens
  list_tokens-capped group_id =
      Keeps-bind _ _ (Keeps-read _) (λ members. list_members-capped group_id members)

  -- what a call of the module, the clock and the network can do
  pub data InviteStep : World → World → Type 0 where
    creates :
        (w : World) (token group_id created_by : String) (ttl : ℕ)
        → IsFresh invite token w.db
        → InviteStep w (create_token token group_id created_by ttl w).1
    consumes : (w : World) (token : String) → InviteStep w (consume_token token w).1
    revokes : (w : World) (group_id token : String) → InviteStep w (revoke_token group_id token w).1
    lists : (w : World) (group_id : String) → InviteStep w (list_tokens group_id w).1
    passes : (w : World) (d : ℕ) → InviteStep w (record w { db = w.db ▸ elapse d; now = w.now + d })
    network : (w : World) (n : List Net) → InviteStep w (record w { net = n })

  pub data InviteReach (w : World) : World → Type 0 where
    here : InviteReach w w
    next : {u v : World} → InviteReach w u → InviteStep u v → InviteReach w v

  step-capped : {u v : World} → InviteStep u v → IsInviteCapped u.db → IsInviteCapped v.db
  step-capped (creates w token group_id created_by ttl fresh) v =
      create_token-capped token group_id created_by ttl w fresh v
  step-capped (consumes w token) v = (consume_token-capped token).holds w v
  step-capped (revokes w group_id token) v = (revoke_token-capped group_id token).holds w v
  step-capped (lists w group_id) v = (list_tokens-capped group_id).holds w v
  step-capped (passes w d) v = IsWithin-elapse invite max_active_tokens_per_group d w.db v
  step-capped (network w n) v = v

  -- If no group has more than 20 live invite tokens, none has after any history of calls, of
  -- passing time and of failures of the network, provided that each new token is one that no set
  -- lists.
  pub InviteReach-IsWithin :
      {u v : World}
      → InviteReach u v
      → IsWithin invite max_active_tokens_per_group u.db
      → IsWithin invite max_active_tokens_per_group v.db
  InviteReach-IsWithin here h = h
  InviteReach-IsWithin (next r st) h = step-capped st (InviteReach-IsWithin r h)
