-- ===== src/Sealed/Cap.antt =====
-- How many tokens a user can have.
use morok_relay.Prelude.{
  ℕ, zero, suc, ◌+◌, ◌≤◌, String, Bool, true, false, not, ◌&&◌, List, [], ◌∷◌, elem, ◌==◌, ◌≡◌,
  refl, if◌then◌else◌, arith, eq_iff, eq_refl, Bool-cases, inl, inr,
}
use morok_relay.Sealed.{
  InboxToken, drop, place_newest, fetch_inbox_tokens_for_pubkey, has_hash, delete_rows, ids_of,
  register_inbox_token, revoke_inbox_token, is_registered, max_tokens_per_pubkey,
}

-- the number of rows that pass a test
unfoldable pub number : (InboxToken → Bool) → List InboxToken → ℕ
number test [] = 0
number test (r ∷ rows) = let rest = number test rows in if test r then suc rest else rest

abbrev pub of_key : String → InboxToken → Bool
of_key pubkey r = r.pubkey == pubkey

number-place :
    (test : InboxToken → Bool) (r : InboxToken) (rows : List InboxToken)
    → number test (place_newest r rows) ≡ number test (r ∷ rows)
unfolding number place_newest
number-place test r [] = refl
number-place test r (x ∷ rows) = ground (arith, number-place test r rows)

number-fetch :
    (test : InboxToken → Bool) (pubkey : String) (rows : List InboxToken)
    → number test (fetch_inbox_tokens_for_pubkey pubkey rows)
      ≡ number (λ r. of_key pubkey r && test r) rows
unfolding number fetch_inbox_tokens_for_pubkey
number-fetch test pubkey [] = refl
number-fetch test pubkey (r ∷ rows) = ground (
  arith,
  number-place test r (fetch_inbox_tokens_for_pubkey pubkey rows),
  number-fetch test pubkey rows,
)

number-delete :
    (pubkey : String) (ids : List String) (rows : List InboxToken)
    → number (of_key pubkey) (delete_rows ids rows)
      ≡ number (λ r. of_key pubkey r && not (elem r.id ids)) rows
unfolding number delete_rows
number-delete pubkey ids [] = refl
number-delete pubkey ids (r ∷ rows) = ground (arith, number-delete pubkey ids rows)

number-split :
    (test : InboxToken → Bool) (n : ℕ) (rows : List InboxToken)
    → number test rows ≤ n + number test (drop n rows)
unfolding number
number-split test zero rows = omega arith
number-split test (suc n) [] = omega arith
number-split test (suc n) (r ∷ rows) = ground (arith, number-split test n rows)

-- rows of the list that is deleted are not left
number-none :
    (stale rows : List InboxToken)
    → ((r : InboxToken) → elem r.id (ids_of stale) ≡ true → elem r.id (ids_of rows) ≡ true)
    → number (λ r. not (elem r.id (ids_of rows))) stale ≡ 0
unfolding number
number-none [] rows h = refl
number-none (r ∷ stale) rows h =
    let here = h r (ground (arith, eq_refl r.id)) in
    ground (arith, number-none stale rows (λ x e. h x (ground arith)))

evicted-le :
    (pubkey : String) (rows : List InboxToken)
    → number
        (of_key pubkey)
        (delete_rows (ids_of (drop 63 (fetch_inbox_tokens_for_pubkey pubkey rows))) rows)
      ≤ 63
evicted-le pubkey rows =
    let own = fetch_inbox_tokens_for_pubkey pubkey rows in
    let stale = drop 63 own in
    let test = λ (r : InboxToken). not (elem r.id (ids_of stale)) in
    omega (
      arith,
      number-delete pubkey (ids_of stale) rows,
      number-fetch test pubkey rows,
      number-none stale stale (λ r e. e),
      number-split test 63 own,
    )

-- Registering a token leaves its owner with sixty-four at most, if there were no more before.
pub register-number :
    (id pubkey token_hash : String) (now : ℕ) (rows : List InboxToken)
    → number (of_key pubkey) rows ≤ max_tokens_per_pubkey
    → number (of_key pubkey) (register_inbox_token id pubkey token_hash now rows).1
      ≤ max_tokens_per_pubkey
unfolding register_inbox_token number
register-number id pubkey token_hash now rows h =
    elim (Bool-cases (has_hash token_hash (fetch_inbox_tokens_for_pubkey pubkey rows))) [
      | inl e ↦ simp e h
      | inr e ↦ simp (e, eq_refl pubkey) (omega (arith, evicted-le pubkey rows))
    ]

-- A token that was revoked is registered no more, and every other is as before.
pub revoke-is_registered :
    (pubkey token_hash owner other : String) (rows : List InboxToken)
    → is_registered owner other (revoke_inbox_token pubkey token_hash rows)
      ≡ (if pubkey == owner && token_hash == other then false else is_registered owner other rows)
unfolding is_registered revoke_inbox_token
revoke-is_registered pubkey token_hash owner other [] = ground arith
revoke-is_registered pubkey token_hash owner other (r ∷ rows) = ground (
  arith,
  eq_iff r.pubkey pubkey,
  eq_iff r.pubkey owner,
  eq_iff pubkey owner,
  eq_iff r.token_hash token_hash,
  eq_iff r.token_hash other,
  eq_iff token_hash other,
  revoke-is_registered pubkey token_hash owner other rows,
)
