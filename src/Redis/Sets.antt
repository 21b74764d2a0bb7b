-- ===== src/Redis/Sets.antt =====
-- The value of a Redis sorted set: unique members with scores, by score and then by member, and
-- the value of a Redis set: unique members.
use Prim.Native.String.{compare}
use text.Mathlib.Text.{is_lt}
use morok_relay.Prelude.{
  ℕ, suc, ◌≤◌, ◌<◌, String, ◌≡◌, refl, Bool, false, ◌||◌, ◌&&◌, Option, none, some, List, [], ◌∷◌,
  arith, ◌==◌, eq_iff, leb, ltb, eqb, length, elem, if◌then◌else◌,
}

abbrev pub ZSet : Type 0
ZSet = List (String × ℕ)

-- ZSCORE
abbrev pub zscore : String → ZSet → Option ℕ
zscore m [] = none
zscore m ((n, x) ∷ z) = if n == m then some x else zscore m z

-- ZREM
unfoldable pub zremove : String → ZSet → ZSet
zremove m [] = []
zremove m ((n, x) ∷ z) = let rest = zremove m z in if n == m then rest else (n, x) ∷ rest

-- the order of ZRANGE
abbrev before : String → ℕ → String → ℕ → Bool
before m x n y = ltb x y || (eqb x y && is_lt (compare m n))

unfoldable pub zplace : String → ℕ → ZSet → ZSet
zplace m x [] = (m, x) ∷ []
zplace m x ((n, y) ∷ z) = if before m x n y then (m, x) ∷ (n, y) ∷ z else (n, y) ∷ zplace m x z

-- ZADD: a member that is there gets the new score
unfoldable pub zinsert : String → ℕ → ZSet → ZSet
unfolding zremove zplace
zinsert m x z = zplace m x (zremove m z)

-- ZREMRANGEBYSCORE from 0 to `hi`
unfoldable pub zprune : ℕ → ZSet → ZSet
zprune hi [] = []
zprune hi ((n, x) ∷ z) = let rest = zprune hi z in if leb x hi then rest else (n, x) ∷ rest

-- the members that ZRANGE lists
abbrev pub zmembers : ZSet → List String
zmembers [] = []
zmembers ((m, x) ∷ z) = m ∷ zmembers z

-- SREM
unfoldable pub sremove : String → List String → List String
sremove m [] = []
sremove m (n ∷ l) = let rest = sremove m l in if n == m then rest else n ∷ rest

-- SADD
unfoldable pub sinsert : String → List String → List String
sinsert m l = if elem m l then l else m ∷ l

-- SCARD, ZCARD
abbrev pub card {ℓ} : {A : Type ℓ} → List A → ℕ
card = length

pub zscore-zremove :
    (m j : String) (z : ZSet) → zscore j (zremove m z) ≡ (if m == j then none else zscore j z)
unfolding zremove
zscore-zremove m j [] = ground arith
zscore-zremove m j ((n, x) ∷ z) =
    ground (arith, eq_iff n m, eq_iff m j, eq_iff n j, zscore-zremove m j z)

zscore-zplace :
    (m j : String) (x : ℕ) (z : ZSet)
    → zscore m z ≡ none
    → zscore j (zplace m x z) ≡ (if m == j then some x else zscore j z)
unfolding zplace
zscore-zplace m j x [] h = refl
zscore-zplace m j x ((n, y) ∷ z) h =
    ground (arith, eq_iff n m, eq_iff m j, eq_iff n j, zscore-zplace m j x z)

pub zscore-zinsert :
    (m j : String) (x : ℕ) (z : ZSet)
    → zscore j (zinsert m x z) ≡ (if m == j then some x else zscore j z)
unfolding zinsert
zscore-zinsert m j x z = ground (
  arith,
  zscore-zplace m j x (zremove m z),
  zscore-zremove m m z,
  zscore-zremove m j z,
  eq_iff m m,
)

card-zplace : (m : String) (x : ℕ) (z : ZSet) → card (zplace m x z) ≡ suc (card z)
unfolding zplace
card-zplace m x [] = refl
card-zplace m x ((n, y) ∷ z) = ground (arith, card-zplace m x z)

pub card-zremove-le : (m : String) (z : ZSet) → card (zremove m z) ≤ card z
unfolding zremove
card-zremove-le m [] = omega arith
card-zremove-le m ((n, x) ∷ z) = ground (arith, card-zremove-le m z)

pub card-zinsert-le : (m : String) (x : ℕ) (z : ZSet) → card (zinsert m x z) ≤ suc (card z)
unfolding zinsert
card-zinsert-le m x z = omega (arith, card-zplace m x (zremove m z), card-zremove-le m z)

pub card-zprune-le : (hi : ℕ) (z : ZSet) → card (zprune hi z) ≤ card z
unfolding zprune
card-zprune-le hi [] = omega arith
card-zprune-le hi ((n, x) ∷ z) = ground (arith, card-zprune-le hi z)

pub elem-sremove :
    (m j : String) (l : List String) → elem j (sremove m l) ≡ (if m == j then false else elem j l)
unfolding sremove
elem-sremove m j [] = ground arith
elem-sremove m j (n ∷ l) = ground (arith, eq_iff n m, eq_iff m j, eq_iff n j, elem-sremove m j l)

pub elem-sinsert : (m j : String) (l : List String) → elem j (sinsert m l) ≡ (m == j || elem j l)
unfolding sinsert
elem-sinsert m j l = ground (arith, eq_iff m j)

pub zscore-zprune :
    (hi : ℕ) (z : ZSet) (j : String) (x : ℕ) → zscore j (zprune hi z) ≡ some x → hi < x
unfolding zprune
zscore-zprune hi [] j x e = cc
zscore-zprune hi ((n, y) ∷ z) j x e = ground (arith, zscore-zprune hi z j x)
