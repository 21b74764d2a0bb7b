-- ===== src/Tests/Users.antt =====
-- Names at concrete inputs.
use morok_relay.Prelude.{String, ◌≡◌, ◌≢◌, refl, eq_iff, true, some, [], ◌∷◌, arith}
use morok_relay.Exec.{ok}
use morok_relay.Dms.{free}
use morok_relay.Federation.Hostname.{codes}
use morok_relay.Users.Name.{
  accepted, validate_username_for_tier, normalize_username, without_at, matches_pattern,
  starts_badly,
}
use morok_relay.Users.{
  User, Names, NameSettings, MeInfo, get_or_create_user, user_of, put_user, claim_name,
  claim_username, release_username, users_named, last_release,
}
use morok_relay.Users.Rows.{number, IsUnique}
use morok_relay.Users.Unique.{here, next, claims, releases, NamesReach-IsUnique}
use morok_relay.Users.Cooldown.{Before, released_name_kept}
use morok_relay.Tests.Fixtures.{server, unary}
use morok_relay.Tests.Dms.{plain}

abbrev settings : NameSettings
settings = record {
  relay_name = "us.example";
  username_change_min_interval_seconds = 86400;
  username_cooldown_days = 30;
}

abbrev nobody : Names
nobody = record { users = []; history = [] }

no_clash : IsUnique nobody.users
unfolding number
no_clash = record { one_key = λ p. omega arith; one_name = λ n. omega arith }

abbrev alice : User
alice = record {
  pubkey = "a11ce";
  username = some "alice";
  tier = free;
  home_relay = "us.example";
  created_at = 1000;
  last_seen_at = some 1000;
  username_changed_at = some 1000;
}

abbrev taken : Names
taken = record { users = alice ∷ []; history = [] }

abbrev welcome : MeInfo
welcome = record {
  username = some "alice";
  home_relay = "us.example";
  tier = free;
  created_at = 1000;
  is_home_relay = true;
}

alice_claims : claim_username settings "a11ce" 1000 "alice" nobody ≡ ok (welcome, taken)
unfolding claim_username get_or_create_user user_of put_user claim_name users_named last_release
    validate_username_for_tier normalize_username without_at matches_pattern starts_badly codes
alice_claims = refl

NamesReach-IsUnique_example : IsUnique (release_username settings "b0b" 2000 taken).1.users
NamesReach-IsUnique_example =
    NamesReach-IsUnique settings
      (next (next here (claims nobody taken "a11ce" "alice" 1000 welcome alice_claims))
        (releases taken "b0b" 2000))
      no_clash

one_user : IsUnique taken.users
one_user =
    NamesReach-IsUnique settings
      (next here (claims nobody taken "a11ce" "alice" 1000 welcome alice_claims)) no_clash

was_alice : (get_or_create_user settings "a11ce" 2000 taken.users).0.username ≡ some "alice"
unfolding get_or_create_user user_of
was_alice = refl

is_valid :
    validate_username_for_tier "alice"
      (get_or_create_user settings "b0b" 9000
        (release_username settings "a11ce" 2000 taken).1.users).0.tier
    ≡ accepted "alice"
unfolding release_username get_or_create_user user_of put_user validate_username_for_tier
    normalize_username without_at matches_pattern starts_badly codes
is_valid = refl

no_releases : Before 2000 taken.history
unfolding Before
no_releases = tt

two_keys : ◌≢◌ {A = String} "b0b" "a11ce"
two_keys e = let same = (eq_iff "b0b" "a11ce").1 e in ground (arith, same)

released_name_kept_example : ¬ (
    claim_username settings "b0b" 9000 "alice" (release_username settings "a11ce" 2000 taken).1
    ≡ ok (welcome, taken))
released_name_kept_example =
    released_name_kept settings "a11ce" "b0b" "alice" "alice" 2000 9000 taken one_user no_releases
      was_alice two_keys (omega arith) is_valid welcome taken
