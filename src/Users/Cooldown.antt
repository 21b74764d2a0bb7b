-- ===== src/Users/Cooldown.antt =====
-- A released name is kept for a while.
use morok_relay.Prelude.{
  ℕ, ◌+◌, ◌*◌, ◌≤◌, String, true, false, none, some, List, [], ◌∷◌, ◌≡◌, ◌≢◌, refl, ◌∙◌, sym, arith,
  eq_iff, eq_refl, Bool-cases, Option-cases, inl, inr,
}
use morok_relay.Exec.{ok}
use morok_relay.Sessions.Value.{Decimal}
use morok_relay.Dms.{Codec}
use morok_relay.Users.Name.{Checked, accepted, validate_username_for_tier}
use morok_relay.Users.Rows.{number, IsUnique, number-put_name, number-user_of, user_of_key}
use morok_relay.Users.Unique.{get_or_create_user_lem}
use morok_relay.Users.{
  User, Release, Names, NameSettings, MeInfo, user_of, put_user, get_or_create_user, has_name,
  users_named, check_taken, changed_too_recently, last_release, release_row, claim_name,
  claim_checked, claim_username, release_username,
}

-- the releases of a history are not after a time
unfoldable pub Before : ℕ → List Release → Type 0
Before t [] = Unit {0}
Before t (r ∷ history) = (r.released_at ≤ t) × Before t history

last_release-Before :
    (settings : NameSettings) (now t : ℕ) (name : String) (history : List Release) (x : Release)
    → Before t history
    → last_release settings now name history ≡ some x
    → x.released_at ≤ t
unfolding last_release Before
last_release-Before settings now t name [] x past h = ground arith
last_release-Before settings now t name (r ∷ history) x past h =
    elim (Option-cases (last_release settings now name history)) [
      | inl e ↦ ground arith
      | inr (y, e) ↦ ground (arith, last_release-Before settings now t name history y past.1 e)
    ]

-- a release that is not before the others is the last within its cooldown
newest :
    (settings : NameSettings) (now : ℕ) (r : Release) (history : List Release)
    → Before r.released_at history
    → now ≤ r.released_at + settings.username_cooldown_days * 86400
    → last_release settings now r.username (r ∷ history) ≡ some r
unfolding last_release
newest settings now r history past soon =
    elim (Option-cases (last_release settings now r.username history)) [
      | inl e ↦ ground (arith, eq_refl r.username)
      | inr (y, e) ↦ ground (
        arith,
        eq_refl r.username,
        last_release-Before settings now r.released_at r.username history y past e,
      )
    ]

user_of-put :
    (pubkey : String) (v u : User) (users : List User)
    → v.pubkey ≡ pubkey
    → user_of pubkey users ≡ some u
    → user_of pubkey (put_user v users) ≡ some v
unfolding user_of put_user
user_of-put pubkey v u [] key h = ground arith
user_of-put pubkey v u (x ∷ users) key h = ground (
  arith,
  eq_iff x.pubkey pubkey,
  eq_iff v.pubkey pubkey,
  eq_iff x.pubkey v.pubkey,
  user_of-put pubkey v u users key,
)

get_or_create-user_of :
    (settings : NameSettings) (pubkey : String) (now : ℕ) (users : List User)
    → let (user, users') = get_or_create_user settings pubkey now users in
      user_of pubkey users' ≡ some user
unfolding get_or_create_user user_of
get_or_create-user_of settings pubkey now users = elim (Option-cases (user_of pubkey users)) [
  | inl e ↦ rw e (ground (arith, eq_refl pubkey))
  | inr (u, e) ↦ rw e (
      user_of-put pubkey (record u { last_seen_at = some now }) u users
        (user_of_key pubkey users u e) e)
]

-- whoever asks next does not have a name that no row has
has_no_name :
    (settings : NameSettings) (pubkey name : String) (now : ℕ) (users : List User)
    → number (has_name name) users ≡ 0
    → has_name name (get_or_create_user settings pubkey now users).0 ≡ false
unfolding get_or_create_user
has_no_name settings pubkey name now users nobody = elim (Option-cases (user_of pubkey users)) [
  | inl e ↦ rw e refl
  | inr (u, e) ↦ elim (Bool-cases (has_name name u)) [
    | inl named ↦ absurd (omega (arith, nobody, number-user_of pubkey name users u e named))
    | inr unnamed ↦ rw e unnamed
  ]
]

-- what a release leaves to the next
released_away :
    (settings : NameSettings) (t : ℕ) (user : User) (users : List User) (history : List Release)
    (name : String)
    → IsUnique users
    → user_of user.pubkey users ≡ some user
    → user.username ≡ some name
    → let after = (release_row settings t user users history).1 in
      (number (has_name name) after.users ≡ 0)
      × (after.history
          ≡ record {
            username = name;
            pubkey = user.pubkey;
            claimed_at = user.created_at;
            released_at = t;
          }
            ∷ history)
released_away settings t user users history name unique found named =
    let own : has_name name user ≡ true = rw named (eq_refl name) in
    let alone = number-user_of user.pubkey name users user found own in
    rw named (
      omega (
        arith,
        number-put_name name (record user { username = none }) users,
        alone,
        unique.one_name name,
      ),
      refl,
    )

in_cooldown_refused :
    (settings : NameSettings) (now : ℕ) (user : User) (users : List User) (r : Release)
    (history : List Release) (me : MeInfo) (after : Names)
    → has_name r.username user ≡ false
    → r.pubkey ≢ user.pubkey
    → Before r.released_at history
    → now ≤ r.released_at + settings.username_cooldown_days * 86400
    → ¬ (claim_name settings now r.username user users (r ∷ history) ≡ ok (me, after))
unfolding claim_name
in_cooldown_refused settings now user users r history me after new foreign past soon h =
    let last = newest settings now r history past soon in
    elim (Option-cases (check_taken user.pubkey (users_named r.username users))) [
      | inr (e, taken) ↦ ground arith
      | inl free ↦ elim (Bool-cases (changed_too_recently settings now user.username_changed_at)) [
        | inl recent ↦ ground arith
        | inr rested ↦ ground (arith, eq_iff r.pubkey user.pubkey)
      ]
    ]

checked_refused :
    (settings : NameSettings) (now : ℕ) (checked : Checked) (user : User) (users : List User)
    (r : Release) (all history : List Release) (me : MeInfo) (after : Names)
    → checked ≡ accepted r.username
    → all ≡ r ∷ history
    → has_name r.username user ≡ false
    → r.pubkey ≢ user.pubkey
    → Before r.released_at history
    → now ≤ r.released_at + settings.username_cooldown_days * 86400
    → ¬ (claim_checked settings now checked user users all ≡ ok (me, after))
checked_refused settings now checked user users r all history me after valid written new foreign
      past soon h =
    in_cooldown_refused settings now user users r history me after new foreign past soon
      (rw (valid, written) at h)

module _ ⦃D : Decimal⦄ ⦃C : Codec⦄ (settings : NameSettings) where
  -- A name that its owner has released is kept: for the days of the cooldown nobody else's claim of
  -- it is answered, if no two users had one name or one key, and no release was later.
  pub released_name_kept :
      (owner claimant name raw : String) (t t' : ℕ) (names : Names)
      → IsUnique names.users
      → Before t names.history
      → (get_or_create_user settings owner t names.users).0.username ≡ some name
      → claimant ≢ owner
      → t' ≤ t + settings.username_cooldown_days * 86400
      → let kept = (release_username settings owner t names).1 in
        validate_username_for_tier raw (get_or_create_user settings claimant t' kept.users).0.tier
          ≡ accepted name
        → (me : MeInfo) (after : Names)
        → ¬ (claim_username settings claimant t' raw kept ≡ ok (me, after))
  unfolding release_username claim_username
  released_name_kept owner claimant name raw t t' names unique past named foreign soon valid me
        after h =
      let (user, users) = get_or_create_user settings owner t names.users in
      let (key, ready) = get_or_create_user_lem settings owner t names.users unique in
      let found : user_of user.pubkey users ≡ some user =
        rw key (get_or_create-user_of settings owner t names.users) in
      let kept = (release_row settings t user users names.history).1 in
      let (nobody, written) =
        released_away settings t user users names.history name ready found named in
      let r : Release = record {
        username = name;
        pubkey = user.pubkey;
        claimed_at = user.created_at;
        released_at = t;
      } in
      let asked =
        user_of_key claimant (get_or_create_user settings claimant t' kept.users).1
          (get_or_create_user settings claimant t' kept.users).0
          (get_or_create-user_of settings claimant t' kept.users) in
      checked_refused settings t' _ (get_or_create_user settings claimant t' kept.users).0
        (get_or_create_user settings claimant t' kept.users).1 r kept.history names.history me after
        valid written (has_no_name settings claimant name t' kept.users nobody)
        (λ same. foreign (sym asked ∙ sym same ∙ key)) past soon h
