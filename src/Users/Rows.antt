-- ===== src/Users/Rows.antt =====
-- How many users have a key or a name.
use morok_relay.Prelude.{
  ℕ, suc, ◌+◌, ◌≤◌, String, Bool, true, not, ◌&&◌, none, some, List, [], ◌∷◌, ◌==◌, ◌≡◌, refl,
  arith, eq_iff, Bool-cases, inl, inr, if◌then◌else◌,
}
use morok_relay.Users.{User, user_of, put_user, has_name, users_named, check_taken}

-- the number of rows that pass a test
unfoldable pub number : (User → Bool) → List User → ℕ
number test [] = 0
number test (u ∷ users) = let rest = number test users in if test u then suc rest else rest

abbrev pub keyed : String → User → Bool
keyed pubkey u = u.pubkey == pubkey

-- another's row with the name
abbrev pub other : String → String → User → Bool
other pubkey name u = has_name name u && not (keyed pubkey u)

pub record IsUnique (users : List User) : Type 0 where
  pub one_key : (pubkey : String) → number (keyed pubkey) users ≤ 1
  pub one_name : (name : String) → number (has_name name) users ≤ 1

number-put_key :
    (pubkey : String) (v : User) (users : List User)
    → number (keyed pubkey) (put_user v users) ≡ number (keyed pubkey) users
unfolding number put_user
number-put_key pubkey v [] = refl
number-put_key pubkey v (u ∷ users) =
    ground (arith, eq_iff u.pubkey v.pubkey, number-put_key pubkey v users)

pub number-put_name :
    (name : String) (v : User) (users : List User)
    → number (has_name name) (put_user v users)
      ≡ (if has_name name v then number (keyed v.pubkey) users else 0)
        + number (other v.pubkey name) users
unfolding number put_user
number-put_name name v [] = ground arith
number-put_name name v (u ∷ users) = ground (arith, number-put_name name v users)

pub number-other :
    (pubkey name : String) (users : List User)
    → number (other pubkey name) users ≤ number (has_name name) users
unfolding number
number-other pubkey name [] = omega arith
number-other pubkey name (u ∷ users) = ground (arith, number-other pubkey name users)

pub number-users_named :
    (pubkey name : String) (users : List User)
    → number (other pubkey name) users ≡ number (λ u. not (keyed pubkey u)) (users_named name users)
unfolding number users_named
number-users_named pubkey name [] = refl
number-users_named pubkey name (u ∷ users) = ground (arith, number-users_named pubkey name users)

pub not_taken :
    (pubkey : String) (users : List User)
    → check_taken pubkey users ≡ none
    → number (λ u. not (keyed pubkey u)) users ≡ 0
unfolding number
not_taken pubkey [] h = refl
not_taken pubkey (u ∷ []) h = ground arith
not_taken pubkey (u ∷ v ∷ users) h = ground arith

pub put-IsUnique :
    (v : User) (users : List User)
    → IsUnique users
    → ((name : String) → has_name name v ≡ true → number (other v.pubkey name) users ≡ 0)
    → IsUnique (put_user v users)
put-IsUnique v users unique alone = record {
  one_key = λ pubkey. omega (arith, number-put_key pubkey v users, unique.one_key pubkey);
  one_name = λ name. elim (Bool-cases (has_name name v)) [
    | inl e ↦ ground (arith, number-put_name name v users, unique.one_key v.pubkey, alone name e)
    | inr e ↦ ground (
      arith,
      number-put_name name v users,
      number-other v.pubkey name users,
      unique.one_name name,
    )
  ];
}

pub user_of_key :
    (pubkey : String) (users : List User) (u : User)
    → user_of pubkey users ≡ some u
    → u.pubkey ≡ pubkey
unfolding user_of
user_of_key pubkey [] u h = ground arith
user_of_key pubkey (x ∷ users) u h =
    ground (arith, eq_iff x.pubkey pubkey, user_of_key pubkey users u)

pub number-user_of :
    (pubkey name : String) (users : List User) (u : User)
    → user_of pubkey users ≡ some u
    → has_name name u ≡ true
    → suc (number (other pubkey name) users) ≤ number (has_name name) users
unfolding user_of number
number-user_of pubkey name [] u h named = ground arith
number-user_of pubkey name (x ∷ users) u h named =
    ground (arith, number-other pubkey name users, number-user_of pubkey name users u)

pub number-absent :
    (pubkey : String) (users : List User)
    → user_of pubkey users ≡ none
    → number (keyed pubkey) users ≡ 0
unfolding user_of number
number-absent pubkey [] h = refl
number-absent pubkey (x ∷ users) h = ground (arith, number-absent pubkey users)
