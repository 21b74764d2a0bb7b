-- ===== src/Tokens/Burner/Order.antt =====
-- The list of an owner's burner tokens is sorted.
use morok_relay.Prelude.{
  ℕ, suc, ◌≤◌, ◌≡◌, refl, inl, inr, Bool, true, ◌&&◌, List, [], ◌∷◌, arith, leb, Bool-cases,
  if◌then◌else◌,
}
use morok_relay.Tokens.Burner.{TokenInfo, age_key, place_newest, newest_first}

-- none of the tokens is newer than `n`
pub none_newer : ℕ → List TokenInfo → Bool
none_newer n [] = true
none_newer n (t ∷ ts) = leb (age_key t) n && none_newer n ts

-- each token is at least as new as those after it
pub descending : List TokenInfo → Bool
unfolding none_newer
descending [] = true
descending (t ∷ ts) = none_newer (age_key t) ts && descending ts

-- how many of the tokens `p` holds of
pub count_if : (TokenInfo → Bool) → List TokenInfo → ℕ
count_if p [] = 0
count_if p (t ∷ ts) = let rest = count_if p ts in if p t then suc rest else rest

none_newer_mono :
    (m n : ℕ) (ts : List TokenInfo) → m ≤ n → none_newer m ts ≡ true → none_newer n ts ≡ true
unfolding none_newer
none_newer_mono m n [] le h = refl
none_newer_mono m n (t ∷ ts) le h = ground (arith, le, h, none_newer_mono m n ts le)

none_newer-place_newest :
    (n : ℕ) (t : TokenInfo) (ts : List TokenInfo)
    → leb (age_key t) n ≡ true
    → none_newer n ts ≡ true
    → none_newer n (place_newest t ts) ≡ true
unfolding none_newer place_newest
none_newer-place_newest n t [] h k = ground (arith, h)
none_newer-place_newest n t (u ∷ us) h k = ground (arith, h, k, none_newer-place_newest n t us h)

descending-place_newest :
    (t : TokenInfo) (ts : List TokenInfo)
    → descending ts ≡ true
    → descending (place_newest t ts) ≡ true
unfolding descending none_newer place_newest
descending-place_newest t [] h = refl
descending-place_newest t (u ∷ us) h = elim (Bool-cases (leb (age_key u) (age_key t))) [
  | inl first ↦ ground (arith, first, h, none_newer_mono (age_key u) (age_key t) us)
  | inr later ↦
      ground
        (arith, later, h, descending-place_newest t us, none_newer-place_newest (age_key u) t us)
]

count_if-place_newest :
    (p : TokenInfo → Bool) (t : TokenInfo) (ts : List TokenInfo)
    → count_if p (place_newest t ts) ≡ count_if p (t ∷ ts)
unfolding count_if place_newest
count_if-place_newest p t [] = refl
count_if-place_newest p t (u ∷ us) = ground (arith, count_if-place_newest p t us)

-- The sorted list has the newest first, each token being at least as new as those after it, and as
-- many tokens of every kind `p` as the list that was sorted.
pub newest_first-descending :
    (ts : List TokenInfo) (p : TokenInfo → Bool)
    → descending (newest_first ts) ≡ true × count_if p (newest_first ts) ≡ count_if p ts
unfolding newest_first descending count_if
newest_first-descending [] p = (refl, refl)
newest_first-descending (t ∷ ts) p =
    let (sorted, same) = newest_first-descending ts p in
    (
      descending-place_newest t (newest_first ts) sorted,
      rw (count_if-place_newest p t (newest_first ts), same) refl,
    )
