-- ===== src/Tokens/Burner/Messages.antt =====
-- How many messages a burner token lets through.
use morok_relay.Prelude.{
  ℕ, zero, suc, ◌+◌, ◌-◌, ◌≤◌, min, ◌<◌, String, ◌≡◌, refl, inl, inr, Bool, true, false, Option,
  none, some, List, arith, eq_refl, ltb, Bool-cases,
}
use morok_relay.Prelude.Json.{Json, Dict, int, str, lookup, insert, lookup-insert}
use morok_relay.Redis.{Key, Payload, Redis, document, set_xx_keepttl, del}
use morok_relay.Redis.Pipeline.{◌▸◌, get}
use morok_relay.Exec.{World, Outcome, ok, call, calm}
use morok_relay.Queue.Inbox.{loads}
use morok_relay.Tokens.Shelf.{int_or_zero}
use morok_relay.Sessions.Rules.{get_of-is_there}
use morok_relay.Tokens.Burner.{
  max_messages_per_token, drop_from_owner, incr_lua, increment_message_count,
}

abbrev pub if_let_through : Outcome (Bool × ℕ) → ℕ
if_let_through (ok (true, n)) = 1
if_let_through _ = 0

module _ ⦃R : Redis⦄ (token : String) where
  abbrev pub meta_of_token : R.Store → Option Dict
  meta_of_token s = loads (get (Key.burner_token token) s)

  -- of `n` messages one after the other, the number that is let through
  pub let_through : ℕ → World → ℕ
  let_through zero w = 0
  let_through (suc n) w =
      let (r, w') = increment_message_count token w in if_let_through r + let_through n w'

  pub get_document :
      (o : Option Payload) (meta : Dict) → loads o ≡ some meta → o ≡ some (document meta)
  get_document (some (document d)) meta h = let same : d ≡ meta = cc in rw same refl
  get_document _ meta h = cc

  count_after :
      (n : ℕ) (meta : Dict)
      → int_or_zero (lookup "message_count" (insert "message_count" (int n) meta)) ≡ n
  count_after n meta = rw (lookup-insert "message_count" "message_count" (int n) meta) refl

  module _ (t : ℕ) (d : List (String × String)) (k : String → Bool) where
    -- a token that is not there lets nothing through
    none_through : (n : ℕ) (s : R.Store) → meta_of_token s ≡ none → let_through n (calm s t d k) ≡ 0
    unfolding let_through increment_message_count incr_lua call
    none_through zero s h = refl
    none_through (suc n) s h = rw h (omega (arith, none_through n s h))

    module _ (s : R.Store) (meta : Dict) (there : meta_of_token s ≡ some meta) where
      abbrev count : ℕ
      count = int_or_zero (lookup "message_count" meta) + 1

      abbrev counted : R.Store
      counted =
          s
          ▸ set_xx_keepttl (Key.burner_token token)
              (document (insert "message_count" (int count) meta))

      below :
          count ≤ max_messages_per_token
          → increment_message_count token (calm s t d k) ≡ (ok (true, count), calm counted t d k)
      unfolding increment_message_count incr_lua call
      below h =
          let small : ltb max_messages_per_token count ≡ false = ground arith in rw (there, small)

      counted_meta : meta_of_token counted ≡ some (insert "message_count" (int count) meta)
      counted_meta =
          let here =
            get_of-is_there (R.at s (Key.burner_token token)).ttl
              (R.at s (Key.burner_token token)).value
              (get_document (get (Key.burner_token token) s) meta there) in
          simp (R.at_run, eq_refl, here) refl

      abbrev ended : R.Store
      ended = drop_from_owner (lookup "owner_pubkey" meta) token (s ▸ del (Key.burner_token token))

      dropped :
          (o : Option Json)
          → meta_of_token (drop_from_owner o token (s ▸ del (Key.burner_token token))) ≡ none
      dropped (some (str owner)) = simp (R.at_run, eq_refl) refl
      dropped none = simp (R.at_run, eq_refl) refl
      dropped _ = simp (R.at_run, eq_refl) refl

      above :
          max_messages_per_token < count
          → increment_message_count token (calm s t d k) ≡ (ok (false, count), calm ended t d k)
      unfolding increment_message_count incr_lua call
      above h =
          let large : ltb max_messages_per_token count ≡ true = ground arith in rw (there, large)

      ended_meta : meta_of_token ended ≡ none
      ended_meta = dropped (lookup "owner_pubkey" meta)

    -- Of n messages in a row to a token that has let c through, c at most 100, as many are let
    -- through as are left of the 100, however many are sent.
    pub let_through-min :
        (n : ℕ) (s : R.Store) (meta : Dict) (c : ℕ)
        → meta_of_token s ≡ some meta
        → int_or_zero (lookup "message_count" meta) ≡ c
        → c ≤ max_messages_per_token
        → let_through n (calm s t d k) ≡ min n (max_messages_per_token - c)
    unfolding let_through
    let_through-min zero s meta c there h small = ground arith
    let_through-min (suc n) s meta c there h small =
        elim (Bool-cases (ltb max_messages_per_token (c + 1))) [
          | inl over ↦
              let more : max_messages_per_token < count s meta there = ground arith in
              let rest = none_through n (ended s meta there) (ended_meta s meta there) in
              let last : c ≡ max_messages_per_token = ground arith in
              rw (above s meta there more) (ground (arith, rest, last))
          | inr room ↦
              let fits : count s meta there ≤ max_messages_per_token = ground arith in
              let rest =
                let_through-min n (counted s meta there) _ (c + 1) (counted_meta s meta there)
                  (omega (arith, count_after (count s meta there) meta, h))
                  (omega (arith, fits, h)) in
              rw (below s meta there fits) (ground (arith, rest, room))
        ]
