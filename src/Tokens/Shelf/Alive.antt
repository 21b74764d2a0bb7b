-- ===== src/Tokens/Shelf/Alive.antt =====
-- How many live tokens a set lists, under the operations of both modules.
use morok_relay.Prelude.{
  ℕ, suc, ◌≤◌, String, ◌≡◌, refl, sym, ap, ◌∙◌, inl, inr, Bool, true, false, ◌⊎◌, Option, List, [],
  ◌∷◌, arith, elem, eq_iff, eq_refl, ◌==◌, Bool-cases, if◌then◌else◌,
}
use morok_relay.Redis.{
  Key, Entry, Payload, Redis, is_there, elapsed, members_of, set, sadd, srem, del, set_xx_keepttl,
  expire, elapse, key_eq,
}
use morok_relay.Redis.Pipeline.{◌▸◌, exists, members_at}
use morok_relay.Redis.Sets.{sremove, sinsert, elem-sremove}
use morok_relay.Tokens.Shelf.{count_live}

-- how many of the members `f` holds of
unfoldable pub tally : (String → Bool) → List String → ℕ
tally f [] = 0
tally f (m ∷ ms) = let rest = tally f ms in if f m then suc rest else rest

pub tally_mono :
    (f g : String → Bool) (l : List String)
    → ((m : String) → elem m l ≡ true → f m ≡ true → g m ≡ true)
    → tally f l ≤ tally g l
unfolding tally
tally_mono f g [] h = omega arith
tally_mono f g (x ∷ xs) h =
    ground
      (arith, tally_mono f g xs (λ m e. h m (ground (arith, e))), h x (ground (arith, eq_refl x)))

pub tally-sremove :
    (f : String → Bool) (x : String) (l : List String) → tally f (sremove x l) ≤ tally f l
unfolding tally sremove
tally-sremove f x [] = omega arith
tally-sremove f x (m ∷ l) = ground (arith, tally-sremove f x l)

pub tally-sinsert :
    (f : String → Bool) (x : String) (l : List String) → tally f (sinsert x l) ≤ suc (tally f l)
unfolding tally sinsert
tally-sinsert f x l = ground arith

members-elapsed :
    (d : ℕ) (e : Entry)
    → (members_of (elapsed d e).value ≡ members_of e.value) ⊎ (members_of (elapsed d e).value ≡ [])
members-elapsed d e = ground arith

there_before : (d : ℕ) (e : Entry) → is_there (elapsed d e) ≡ true → is_there e ≡ true
there_before d e h = ground arith

module _ ⦃R : Redis⦄ (token_key : String → Key) (owner_key : Key)
    (apart : (m : String) → key_eq owner_key (token_key m) ≡ false) where
  -- what a token's key says does not change when the set does
  live_after :
      (x m : String) (s : R.Store)
      → exists (token_key m) (s ▸ srem owner_key x) ≡ exists (token_key m) s
  live_after x m s = simp (R.at_run, apart m)

  tally_after :
      (x : String) (ms : List String) (s : R.Store)
      → tally (λ m. exists (token_key m) (s ▸ srem owner_key x)) ms
        ≡ tally (λ m. exists (token_key m) s) ms
  unfolding tally
  tally_after x [] s = refl
  tally_after x (m ∷ ms) s = simp (live_after x m s, tally_after x ms s)

  pub count_live-tally :
      (ms : List String) (s : R.Store)
      → (count_live token_key owner_key ms s).0 ≡ tally (λ m. exists (token_key m) s) ms
  unfolding count_live tally
  count_live-tally [] s = refl
  count_live-tally (m ∷ ms) s = elim (Bool-cases (exists (token_key m) s)) [
    | inl live ↦ rw (live) (ap suc (count_live-tally ms s))
    | inr dead ↦ rw (dead) (count_live-tally ms (s ▸ srem owner_key m) ∙ tally_after m ms s)
  ]

-- the keys of a kind of token: one of each token, and one of the set of each owner
pub record Shelf : Type 0 where
  pub token_key : String → Key
  pub owner_key : String → Key
  pub apart : (o m : String) → key_eq (owner_key o) (token_key m) ≡ false
  pub apart' : (m o : String) → key_eq (token_key m) (owner_key o) ≡ false
  pub same_token : (m n : String) → key_eq (token_key m) (token_key n) ≡ (m == n)
  pub same_owner : (o p : String) → key_eq (owner_key o) (owner_key p) ≡ (o == p)

module _ ⦃R : Redis⦄ (S : Shelf) where
  abbrev is_live : R.Store → String → Bool
  is_live s m = exists (S.token_key m) s

  abbrev listed : String → R.Store → List String
  listed o s = members_at (S.owner_key o) s

  -- the number of live tokens that the set of an owner lists
  unfoldable pub live : String → R.Store → ℕ
  live o s = tally (is_live s) (listed o s)

  live_le :
      (o : String) (s s' : R.Store)
      → listed o s' ≡ listed o s
      → ((m : String) → elem m (listed o s) ≡ true → is_live s' m ≡ true → is_live s m ≡ true)
      → live o s' ≤ live o s
  unfolding live
  live_le o s s' same h = rw same (tally_mono (is_live s') (is_live s) (listed o s) h)

  pub live-del : (o t : String) (s : R.Store) → live o (s ▸ del (S.token_key t)) ≤ live o s
  live-del o t s =
      live_le o s _ (simp (R.at_run, S.apart'))
        (λ m _ h. ground (arith, simp (R.at_run, S.same_token) at h))

  pub live-set_xx_keepttl :
      (o t : String) (p : Payload) (s : R.Store)
      → live o (s ▸ set_xx_keepttl (S.token_key t) p) ≤ live o s
  live-set_xx_keepttl o t p s =
      live_le o s _ (simp (R.at_run, S.apart'))
        (λ m _ h. ground (arith, simp (R.at_run, S.same_token) at h))

  pub live-expire :
      (o p : String) (d : ℕ) (s : R.Store) → live o (s ▸ expire (S.owner_key p) d) ≤ live o s
  live-expire o p d s =
      live_le o s _ (simp (R.at_run, S.same_owner) (ground arith))
        (λ m _ h. simp (R.at_run, S.apart) at h)

  pub live-srem : (o p t : String) (s : R.Store) → live o (s ▸ srem (S.owner_key p) t) ≤ live o s
  unfolding live
  live-srem o p t s =
      let pointwise =
        tally_mono (is_live (s ▸ srem (S.owner_key p) t)) (is_live s) (sremove t (listed o s))
          (λ m _ h. simp (R.at_run, S.apart) at h) in
      elim (Bool-cases (p == o)) [
        | inl same ↦
            let e : listed o (s ▸ srem (S.owner_key p) t) ≡ sremove t (listed o s) =
              simp (R.at_run, S.same_owner, same) in
            rw e (omega (arith, pointwise, tally-sremove (is_live s) t (listed o s)))
        | inr other ↦
            live_le o s _ (simp (R.at_run, S.same_owner, other))
              (λ m _ h. simp (R.at_run, S.apart) at h)
      ]

  pub live-elapse : (o : String) (d : ℕ) (s : R.Store) → live o (s ▸ elapse d) ≤ live o s
  unfolding live tally
  live-elapse o d s =
      let survives = λ (m : String) (h : is_live (s ▸ elapse d) m ≡ true).
        there_before d (R.at s (S.token_key m)) (simp R.at_run at h) in
      elim (members-elapsed d (R.at s (S.owner_key o))) [
        | inl same ↦ live_le o s _ (simp R.at_run same) (λ m _ h. survives m h)
        | inr empty ↦
            let e : listed o (s ▸ elapse d) ≡ [] = simp R.at_run empty in rw e (omega arith)
      ]

  -- the loop of the scripts
  pub live-count_live :
      (o p : String) (ms : List String) (s : R.Store)
      → live o (count_live S.token_key (S.owner_key p) ms s).1 ≤ live o s
  unfolding count_live
  live-count_live o p [] s = omega arith
  live-count_live o p (m ∷ ms) s = elim (Bool-cases (is_live s m)) [
    | inl there ↦ rw there (live-count_live o p ms s)
    | inr dead ↦
        rw dead
          (omega (arith, live-count_live o p ms (s ▸ srem (S.owner_key p) m), live-srem o p m s))
  ]

  -- No set lists the token.
  pub record IsFresh (t : String) (s : R.Store) : Type 0 where
    pub unlisted : (o : String) → elem t (listed o s) ≡ false

  IsFresh-srem :
      (t p x : String) (s : R.Store) → IsFresh t s → IsFresh t (s ▸ srem (S.owner_key p) x)
  IsFresh-srem t p x s h = record {
    unlisted = λ o. elim (Bool-cases (p == o)) [
      | inl same ↦ simp (R.at_run, S.same_owner, same, elem-sremove) (ground (arith, h.unlisted o))
      | inr other ↦ simp (R.at_run, S.same_owner, other) (h.unlisted o)
    ];
  }

  pub IsFresh-count_live :
      (t p : String) (ms : List String) (s : R.Store)
      → IsFresh t s
      → IsFresh t (count_live S.token_key (S.owner_key p) ms s).1
  unfolding count_live
  IsFresh-count_live t p [] s h = h
  IsFresh-count_live t p (m ∷ ms) s h = elim (Bool-cases (is_live s m)) [
    | inl there ↦ rw there (IsFresh-count_live t p ms s h)
    | inr dead ↦ rw dead (IsFresh-count_live t p ms _ (IsFresh-srem t p m s h))
  ]

  -- The set of `p` after the loop, which counted its live tokens.
  pub live-counted :
      (p : String) (s : R.Store)
      → live p s ≡ (count_live S.token_key (S.owner_key p) (listed p s) s).0
  unfolding live
  live-counted p s = sym (count_live-tally S.token_key (S.owner_key p) (S.apart p) (listed p s) s)

  -- A fresh token under its key and in the set of `p`.
  pub live-add :
      (o p t : String) (v : Payload) (ttl : Option ℕ) (s : R.Store)
      → IsFresh t s
      → live o (s ▸ set (S.token_key t) v ttl ▸ sadd (S.owner_key p) t)
        ≤ (if p == o then suc (live o s) else live o s)
  unfolding live
  live-add o p t v ttl s fresh =
      let s' = s ▸ set (S.token_key t) v ttl ▸ sadd (S.owner_key p) t in
      let pointwise : tally (is_live s') (listed o s) ≤ tally (is_live s) (listed o s) =
        tally_mono (is_live s') (is_live s) (listed o s) (λ m listed h. ground (
          arith,
          simp (R.at_run, S.same_token, S.apart) at h,
          fresh.unlisted o,
          listed,
          eq_iff t m,
        )) in
      elim (Bool-cases (p == o)) [
        | inl same ↦
            let e : listed o s' ≡ sinsert t (listed o s) =
              simp (R.at_run, S.same_owner, S.apart', same) in
            rw (e, same) (omega (arith, pointwise, tally-sinsert (is_live s') t (listed o s)))
        | inr other ↦
            let e : listed o s' ≡ listed o s = simp (R.at_run, S.same_owner, S.apart', other) in
            rw (e, other) pointwise
      ]
