-- ===== src/Users.antt =====
-- api/users.py: the names of users, and schemas.py: what a name must be like. The rows are
-- arguments, and a handler gives them as it leaves them; two requests do not claim a name at once.
pub mod Name
pub mod Rows
pub mod Unique
pub mod Cooldown
use morok_relay.Prelude.{
  ℕ, ◌+◌, ◌*◌, String, Bool, true, false, not, ◌&&◌, Option, none, some, List, [], ◌∷◌, leb, ltb,
  ◌==◌, if◌then◌else◌,
}
use morok_relay.Exec.{Exn, http, multiple_results, Outcome, ok, raised}
use morok_relay.Sessions.Value.{Decimal}
use morok_relay.Dms.{Codec, Tier, free}
use Name.{Checked, refused, accepted, validate_username_for_tier}

-- a row of `users`, its public key as bytes
pub record User : Type 0 where
  pub pubkey : String
  pub username : Option String
  pub tier : Tier
  pub home_relay : String
  pub created_at : ℕ
  pub last_seen_at : Option ℕ
  pub username_changed_at : Option ℕ

-- a row of `username_history`
pub record Release : Type 0 where
  pub username : String
  pub pubkey : String
  pub claimed_at : ℕ
  pub released_at : ℕ

-- the tables
pub record Names : Type 0 where
  pub users : List User
  pub history : List Release

pub record NameSettings : Type 0 where
  pub relay_name : String
  pub username_change_min_interval_seconds : ℕ
  pub username_cooldown_days : ℕ

pub record MeInfo : Type 0 where
  pub username : Option String
  pub home_relay : String
  pub tier : Tier
  pub created_at : ℕ
  pub is_home_relay : Bool

pub record UsernameReleaseResponse : Type 0 where
  pub released : Bool
  pub cooldown_until : ℕ

unfoldable pub user_of : String → List User → Option User
user_of pubkey [] = none
user_of pubkey (u ∷ users) = if u.pubkey == pubkey then some u else user_of pubkey users

-- the row of a key with another value
unfoldable pub put_user : User → List User → List User
put_user v [] = []
put_user v (u ∷ users) = (if u.pubkey == v.pubkey then v else u) ∷ put_user v users

abbrev pub new_user : NameSettings → String → ℕ → User
new_user settings pubkey now = record {
  pubkey = pubkey;
  username = none;
  tier = free;
  home_relay = settings.relay_name;
  created_at = now;
  last_seen_at = some now;
  username_changed_at = none;
}

abbrev pub seen_or_new : NameSettings → String → ℕ → List User → Option User → User × List User
seen_or_new settings pubkey now users none =
    (new_user settings pubkey now, new_user settings pubkey now ∷ users)
seen_or_new settings pubkey now users (some u) =
    let seen = record u { last_seen_at = some now } in (seen, put_user seen users)

unfoldable pub get_or_create_user : NameSettings → String → ℕ → List User → User × List User
unfolding user_of put_user
get_or_create_user settings pubkey now users =
    seen_or_new settings pubkey now users (user_of pubkey users)

abbrev pub me_info : NameSettings → User → MeInfo
me_info settings user = record {
  username = user.username;
  home_relay = user.home_relay;
  tier = user.tier;
  created_at = user.created_at;
  is_home_relay = user.home_relay == settings.relay_name;
}

abbrev pub has_name : String → User → Bool
has_name username u = elim u.username [ none ↦ false | some n ↦ n == username ]

unfoldable pub users_named : String → List User → List User
users_named username [] = []
users_named username (u ∷ users) =
    let rest = users_named username users in if has_name username u then u ∷ rest else rest

-- whether the name is another's; more than one row is an exception
abbrev pub check_taken : String → List User → Option Exn
check_taken pubkey [] = none
check_taken pubkey (u ∷ []) = if u.pubkey == pubkey then none else some (http 409 "username_taken")
check_taken pubkey (u ∷ v ∷ users) = some multiple_results

abbrev pub changed_too_recently : NameSettings → ℕ → Option ℕ → Bool
changed_too_recently settings now none = false
changed_too_recently settings now (some at) =
    ltb now (at + settings.username_change_min_interval_seconds)

abbrev pub later : Release → Option Release → Release
later r none = r
later r (some x) = if leb x.released_at r.released_at then r else x

-- the latest release of the name within the cooldown
unfoldable pub last_release : NameSettings → ℕ → String → List Release → Option Release
last_release settings now username [] = none
last_release settings now username (r ∷ history) =
    let rest = last_release settings now username history in
    if r.username == username && leb now (r.released_at + settings.username_cooldown_days * 86400)
    then some (later r rest)
    else rest

abbrev pub in_cooldown : String → Option Release → Bool
in_cooldown pubkey none = false
in_cooldown pubkey (some r) = not (r.pubkey == pubkey)

abbrev pub with_release : User → ℕ → List Release → List Release
with_release user now history = elim user.username [
  | none ↦ history
  | some name ↦
      record {
        username = name;
        pubkey = user.pubkey;
        claimed_at = user.created_at;
        released_at = now;
      }
      ∷ history
]

abbrev pub renamed : User → String → ℕ → User
renamed user username now = record user { username = some username; username_changed_at = some now }

-- what follows the checks of the name itself, with the row and the tables after
-- `_get_or_create_user`
unfoldable pub claim_name :
    NameSettings → ℕ → String → User → List User → List Release → Outcome (MeInfo × Names)
unfolding users_named last_release put_user
claim_name settings now username user users history =
    if has_name username user
    then ok (me_info settings user, record { users = users; history = history })
    else elim (check_taken user.pubkey (users_named username users)) [
      | some e ↦ raised e
      | none ↦
          if changed_too_recently settings now user.username_changed_at
          then raised (http 429 "username_changed_too_recently")
          else if in_cooldown user.pubkey (last_release settings now username history)
          then raised (http 409 "username_in_cooldown")
          else ok (
            me_info settings (renamed user username now),
            record {
              users = put_user (renamed user username now) users;
              history = with_release user now history;
            },
          )
    ]

abbrev pub claim_checked :
    NameSettings → ℕ → Checked → User → List User → List Release → Outcome (MeInfo × Names)
claim_checked settings now (refused detail) user users history = raised (http 400 detail)
claim_checked settings now (accepted username) user users history =
    claim_name settings now username user users history

module _ ⦃D : Decimal⦄ ⦃C : Codec⦄ (settings : NameSettings) where
  -- The key of the session is given by its bytes.
  unfoldable pub claim_username : String → ℕ → String → Names → Outcome (MeInfo × Names)
  unfolding get_or_create_user claim_name validate_username_for_tier
  claim_username pubkey now name names =
      let (user, users) = get_or_create_user settings pubkey now names.users in
      claim_checked settings now (validate_username_for_tier name user.tier) user users
        names.history

abbrev pub release_row :
    NameSettings → ℕ → User → List User → List Release → UsernameReleaseResponse × Names
release_row settings now user users history = elim user.username [
  | none ↦
      (record { released = false; cooldown_until = 0 }, record { users = users; history = history })
  | some name ↦ (
    record { released = true; cooldown_until = now + settings.username_cooldown_days * 86400 },
    record {
      users = put_user (record user { username = none }) users;
      history = with_release user now history;
    },
  )
]

unfoldable pub release_username :
    NameSettings → String → ℕ → Names → UsernameReleaseResponse × Names
unfolding get_or_create_user put_user
release_username settings pubkey now names =
    let (user, users) = get_or_create_user settings pubkey now names.users in
    release_row settings now user users names.history

unfoldable pub get_me : NameSettings → String → ℕ → Names → MeInfo × Names
unfolding get_or_create_user
get_me settings pubkey now names =
    let (user, users) = get_or_create_user settings pubkey now names.users in
    (me_info settings user, record { users = users; history = names.history })
