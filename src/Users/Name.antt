-- ===== src/Users/Name.antt =====
-- schemas.py: `normalize_username` and the checks of a name.
use Prim.Native.Char.{code}
use Prim.Native.String.{◌++◌ as ◌+ˢ◌, count}
use morok_relay.Prelude.{
  ℕ, String, Bool, not, ◌&&◌, ◌||◌, List, [], ◌∷◌, leb, ltb, eqb, elem, if◌then◌else◌, ◌≡◌, ◌⊎◌,
  refl, inl, inr,
}
use morok_relay.Sessions.Value.{Decimal}
use morok_relay.Dms.{Codec, Tier, free, premium, admin}
use morok_relay.Federation.Hostname.{codes, all_of, first_is}

-- the name, or the text of the `ValueError`
pub data Checked : Type 0 where
  refused accepted : String → Checked

pub Checked-cases :
    (c : Checked) → ((why : String) × c ≡ refused why) ⊎ ((name : String) × c ≡ accepted name)
Checked-cases (refused why) = inl (why, refl)
Checked-cases (accepted name) = inr (name, refl)

abbrev pub username_max_len : ℕ
username_max_len = 20

abbrev pub tier_min_length : Tier → ℕ
tier_min_length free = 5
tier_min_length premium = 3
tier_min_length admin = 1

abbrev pub reserved_usernames : List String
reserved_usernames =
    "admin" ∷ "administrator" ∷ "root" ∷ "system" ∷ "morok" ∷ "morok_app" ∷ "support" ∷ "help"
    ∷ "abuse" ∷ "security" ∷ "official" ∷ "team" ∷ "anonymous" ∷ "anon" ∷ "null" ∷ "undefined"
    ∷ "me" ∷ "self" ∷ "channel" ∷ "group" ∷ "user" ∷ "users" ∷ []

-- `lstrip("@")`
unfoldable pub without_at : String → String
without_at String.[] = ""
without_at (String.◌∷◌ c s) =
    let rest = without_at s in if eqb (code c) b'@' then rest else String.◌∷◌ c s

abbrev pub is_digit : ℕ → Bool
is_digit c = leb b'0' c && leb c b'9'

-- `USERNAME_CHAR_PATTERN`
abbrev pub is_name_char : ℕ → Bool
is_name_char c = (leb b'a' c && leb c b'z') || (is_digit c || eqb c b'_')

unfoldable pub matches_pattern : String → Bool
unfolding codes
matches_pattern name = first_is is_name_char (codes name) && all_of is_name_char (codes name)

unfoldable pub starts_badly : String → Bool
unfolding codes
starts_badly name = first_is (λ c. is_digit c || eqb c b'_') (codes name)

module _ ⦃D : Decimal⦄ where
  abbrev pub too_short : Tier → String
  too_short free =
      "Username too short — free accounts need "
      +ˢ (D.show 5 +ˢ "+ characters. Shorter handles available on premium.")
  too_short premium = "Username too short — premium tier needs " +ˢ (D.show 3 +ˢ "+ characters")
  too_short admin = "Username too short — admin tier needs " +ˢ (D.show 1 +ˢ "+ characters")

  abbrev pub too_long : String
  too_long = "Username too long (max " +ˢ (D.show username_max_len +ˢ " chars)")

  module _ ⦃C : Codec⦄ where
    unfoldable pub normalize_username : String → String
    unfolding without_at
    normalize_username raw = C.lower (without_at (C.strip raw))

    -- what the two checks share, up to the length
    abbrev pub checked : String → Checked → Checked
    checked name rest =
        if not (matches_pattern name)
        then refused "Username may only contain lowercase letters, digits, and underscores"
        else if starts_badly name
        then refused "Username cannot start with digit or underscore"
        else if ltb username_max_len (count name)
        then refused too_long
        else rest

    abbrev pub unless_reserved : String → Checked
    unless_reserved name =
        if elem name reserved_usernames then refused "This username is reserved" else accepted name

    unfoldable pub validate_username_for_tier : String → Tier → Checked
    unfolding normalize_username matches_pattern starts_badly
    validate_username_for_tier username tier =
        let name = normalize_username username in
        checked name (
          if ltb (count name) (tier_min_length tier)
          then refused (too_short tier)
          else unless_reserved name)

    -- `UsernameClaim`
    unfoldable pub basic_normalize : String → Checked
    unfolding normalize_username matches_pattern starts_badly
    basic_normalize v = let name = normalize_username v in checked name (unless_reserved name)
