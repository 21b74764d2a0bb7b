-- ===== src/Users/Unique.antt =====
-- No two users have one name.
use morok_relay.Prelude.{
  ℕ, String, none, some, List, ◌∷◌, ◌≡◌, refl, ◌∙◌, arith, eq_iff, Bool-cases, Option-cases, inl,
  inr,
}
use morok_relay.Exec.{ok}
use morok_relay.Sessions.Value.{Decimal}
use morok_relay.Dms.{Codec}
use morok_relay.Users.Name.{Checked-cases, validate_username_for_tier}
use morok_relay.Users.{
  User, Release, release_row, new_user, Names, NameSettings, MeInfo, user_of, put_user,
  get_or_create_user, has_name, users_named, check_taken, renamed, claim_name, claim_username,
  release_username, get_me,
}
use morok_relay.Users.Rows.{
  number, IsUnique, number-users_named, not_taken, put-IsUnique, user_of_key, number-user_of,
  number-absent,
}

created :
    (settings : NameSettings) (pubkey : String) (now : ℕ) (users : List User)
    → IsUnique users
    → user_of pubkey users ≡ none
    → IsUnique (new_user settings pubkey now ∷ users)
unfolding number
created settings pubkey now users unique absent = record {
  one_key = λ p. ground (arith, number-absent pubkey users, unique.one_key p, eq_iff pubkey p);
  one_name = λ name. unique.one_name name;
}

seen :
    (pubkey : String) (now : ℕ) (users : List User) (u : User)
    → IsUnique users
    → user_of pubkey users ≡ some u
    → IsUnique (put_user (record u { last_seen_at = some now }) users)
seen pubkey now users u unique h =
    put-IsUnique (record u { last_seen_at = some now }) users unique
      (λ name named.
        let key : u.pubkey ≡ pubkey = user_of_key pubkey users u h in
        rw key (omega (arith, number-user_of pubkey name users u h named, unique.one_name name)))

pub get_or_create_user_lem :
    (settings : NameSettings) (pubkey : String) (now : ℕ) (users : List User)
    → IsUnique users
    → let (user, users') = get_or_create_user settings pubkey now users in
      (user.pubkey ≡ pubkey) × IsUnique users'
unfolding get_or_create_user
get_or_create_user_lem settings pubkey now users unique =
    elim (Option-cases (user_of pubkey users)) [
      | inl e ↦ rw e (refl, created settings pubkey now users unique e)
      | inr (u, e) ↦ rw e (user_of_key pubkey users u e, seen pubkey now users u unique e)
    ]

claim_name-IsUnique :
    (settings : NameSettings) (now : ℕ) (username : String) (user : User) (names after : Names)
    (me : MeInfo)
    → IsUnique names.users
    → claim_name settings now username user names.users names.history ≡ ok (me, after)
    → IsUnique after.users
unfolding claim_name
claim_name-IsUnique settings now username user names after me unique h =
    elim (Bool-cases (has_name username user)) [
      | inl own ↦ let same : names.users ≡ after.users = ground arith in rw (← same) unique
      | inr new ↦ elim (Option-cases (check_taken user.pubkey (users_named username names.users))) [
        | inr (e, taken) ↦ absurd (ground arith)
        | inl free ↦
            let same : put_user (renamed user username now) names.users ≡ after.users =
              ground arith in
            rw (← same) (
              put-IsUnique (renamed user username now) names.users unique (λ name called.
                let this : username ≡ name = (eq_iff username name).0 called in
                rw (← this) (
                  number-users_named user.pubkey username names.users
                  ∙ not_taken user.pubkey (users_named username names.users) free)))
      ]
    ]

release_row-IsUnique :
    (settings : NameSettings) (now : ℕ) (user : User) (users : List User) (history : List Release)
    → IsUnique users
    → IsUnique (release_row settings now user users history).1.users
release_row-IsUnique settings now user users history unique = elim (Option-cases user.username) [
  | inl e ↦ rw e unique
  | inr (name, e) ↦
      rw e (put-IsUnique (record user { username = none }) users unique (λ n h. ground arith))
]

module _ ⦃D : Decimal⦄ ⦃C : Codec⦄ (settings : NameSettings) where
  -- one request
  pub data NamesStep : Names → Names → Type 0 where
    claims :
        (names after : Names) (pubkey name : String) (now : ℕ) (me : MeInfo)
        → claim_username settings pubkey now name names ≡ ok (me, after)
        → NamesStep names after
    releases :
        (names : Names) (pubkey : String) (now : ℕ)
        → NamesStep names (release_username settings pubkey now names).1
    asks :
        (names : Names) (pubkey : String) (now : ℕ)
        → NamesStep names (get_me settings pubkey now names).1

  pub data NamesReach : Names → Names → Type 0 where
    here : {names : Names} → NamesReach names names
    next :
        {names middle after : Names}
        → NamesReach names middle
        → NamesStep middle after
        → NamesReach names after

  step-IsUnique :
      (names after : Names) → IsUnique names.users → NamesStep names after → IsUnique after.users
  unfolding claim_username release_username get_me
  step-IsUnique _ _ unique (claims names after pubkey name now me h) =
      let (owner, ready) = get_or_create_user_lem settings pubkey now names.users unique in
      let (user, users) = get_or_create_user settings pubkey now names.users in
      elim (Checked-cases (validate_username_for_tier name user.tier)) [
        | inl (why, e) ↦ absurd (ground arith)
        | inr (username, e) ↦
            claim_name-IsUnique settings now username user
              (record { users = users; history = names.history }) after me ready (rw e at h)
      ]
  step-IsUnique _ _ unique (releases names pubkey now) =
      let (owner, ready) = get_or_create_user_lem settings pubkey now names.users unique in
      let (user, users) = get_or_create_user settings pubkey now names.users in
      release_row-IsUnique settings now user users names.history ready
  step-IsUnique _ _ unique (asks names pubkey now) =
      (get_or_create_user_lem settings pubkey now names.users unique).1

  -- If no two users have one name or one key, no two have after any requests that claim and release
  -- names and ask for them.
  pub NamesReach-IsUnique :
      {names after : Names} → NamesReach names after → IsUnique names.users → IsUnique after.users
  NamesReach-IsUnique here unique = unique
  NamesReach-IsUnique (next reach step) unique =
      step-IsUnique _ _ (NamesReach-IsUnique reach unique) step
