-- ===== src/Federation/Accounts.antt =====
-- api/users.py: `_cache_remote_user`, what a peer says of a user.
pub mod Kept
use morok_relay.Prelude.{ℕ, String, Option, none, some, List, [], ◌∷◌, ◌==◌, if◌then◌else◌}
use morok_relay.Federation.{Account, FedSettings}

unfoldable pub account_of : String → List Account → Option Account
account_of pubkey [] = none
account_of pubkey (a ∷ accounts) = if a.pubkey == pubkey then some a else account_of pubkey accounts

-- the row after what a peer says of a user that is not ours
abbrev pub corrected : Option String → String → Account → Account
corrected username home_relay a = elim username [
  | none ↦ record a { home_relay = home_relay }
  | some u ↦ if u == "" then record a { home_relay = home_relay } else elim a.username [
    | none ↦ record a { home_relay = home_relay; username = some u }
    | some v ↦
        if v == ""
        then record a { home_relay = home_relay; username = some u }
        else record a { home_relay = home_relay }
  ]
]

unfoldable pub correct_account : String → Option String → String → List Account → List Account
correct_account pubkey username home_relay [] = []
correct_account pubkey username home_relay (a ∷ accounts) =
    let rest = correct_account pubkey username home_relay accounts in
    if a.pubkey == pubkey then corrected username home_relay a ∷ accounts else a ∷ rest

abbrev pub cached :
    FedSettings → String → Option String → String → List Account → Option Account → List Account
cached settings pubkey username home_relay accounts none =
    record { pubkey = pubkey; username = username; home_relay = home_relay; deleted_at = none }
    ∷ accounts
cached settings pubkey username home_relay accounts (some existing) =
    if existing.home_relay == settings.relay_name
    then accounts
    else correct_account pubkey username home_relay accounts

-- `_cache_remote_user`, by the bytes of the key; no other request inserts the key meanwhile
unfoldable pub cache_remote_user :
    FedSettings → String → Option String → String → List Account → List Account
unfolding correct_account account_of
cache_remote_user settings pubkey username home_relay accounts =
    cached settings pubkey username home_relay accounts (account_of pubkey accounts)
