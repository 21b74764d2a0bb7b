-- ===== src/Federation/Accounts/Kept.antt =====
-- Which users a peer's word can change.
use morok_relay.Prelude.{
  String, Option, none, some, List, [], ◌∷◌, ◌==◌, ◌≡◌, ◌≢◌, ◌⊎◌, refl, ap, ◌∙◌, arith, eq_iff,
  Bool-cases, Option-cases, inl, inr,
}
use morok_relay.Federation.{Account, FedSettings}
use morok_relay.Federation.Accounts.{account_of, corrected, correct_account, cache_remote_user}

corrected_key :
    (username : Option String) (home_relay : String) (a : Account)
    → (corrected username home_relay a).pubkey ≡ a.pubkey
corrected_key none home_relay a = refl
corrected_key (some u) home_relay a = ground arith

correct_other :
    (pubkey other home_relay : String) (username : Option String) (accounts : List Account)
    → other ≢ pubkey
    → account_of other (correct_account pubkey username home_relay accounts)
      ≡ account_of other accounts
unfolding account_of correct_account
correct_other pubkey other home_relay username [] ne = refl
correct_other pubkey other home_relay username (a ∷ accounts) ne = ground (
  arith,
  ne,
  eq_iff a.pubkey pubkey,
  eq_iff a.pubkey other,
  eq_iff (corrected username home_relay a).pubkey other,
  corrected_key username home_relay a,
  correct_other pubkey other home_relay username accounts ne,
)

cache_other :
    (settings : FedSettings) (pubkey home_relay other : String) (username : Option String)
    (accounts : List Account)
    → other ≢ pubkey
    → account_of other (cache_remote_user settings pubkey username home_relay accounts)
      ≡ account_of other accounts
unfolding cache_remote_user account_of
cache_other settings pubkey home_relay other username accounts ne =
    elim (Option-cases (account_of pubkey accounts)) [
      | inl e ↦ ground (arith, ne, eq_iff pubkey other)
      | inr (x, e) ↦ ground (arith, correct_other pubkey other home_relay username accounts ne)
    ]

cache_local :
    (settings : FedSettings) (pubkey home_relay : String) (username : Option String)
    (accounts : List Account) (a : Account)
    → account_of pubkey accounts ≡ some a
    → a.home_relay ≡ settings.relay_name
    → cache_remote_user settings pubkey username home_relay accounts ≡ accounts
unfolding cache_remote_user
cache_local settings pubkey home_relay username accounts a h home =
    ground (arith, eq_iff a.home_relay settings.relay_name)

-- What a peer says of a user changes nothing for any other user, and nothing for a user whose home is
-- this relay.
pub cache_remote_user-Kept :
    (settings : FedSettings) (pubkey home_relay other : String) (username : Option String)
    (accounts : List Account) (a : Account)
    → account_of other accounts ≡ some a
    → ((other ≢ pubkey) ⊎ (a.home_relay ≡ settings.relay_name))
    → account_of other (cache_remote_user settings pubkey username home_relay accounts) ≡ some a
unfolding cache_remote_user
cache_remote_user-Kept settings pubkey home_relay other username accounts a h (inl ne) =
    cache_other settings pubkey home_relay other username accounts ne ∙ h
cache_remote_user-Kept settings pubkey home_relay other username accounts a h (inr home) =
    elim (Bool-cases (other == pubkey)) [
      | inl e ↦
          let same : other ≡ pubkey = (eq_iff other pubkey).0 e in
          let found : account_of pubkey accounts ≡ some a = rw (← same) h in
          ap (account_of other)
            (cache_local settings pubkey home_relay username accounts a found home)
          ∙ h
      | inr e ↦
          cache_other settings pubkey home_relay other username accounts
            (λ same. ground (arith, eq_iff other pubkey))
          ∙ h
    ]
