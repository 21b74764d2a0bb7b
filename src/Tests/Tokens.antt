-- ===== src/Tests/Tokens.antt =====
-- The tokens at concrete inputs.
use morok_relay.Prelude.{min, ◌-◌, ◌≡◌, refl, none, some, [], ◌∷◌, arith, if◌then◌else◌, ◌==◌}
use morok_relay.Prelude.Json.{Dict, str, int}
use morok_relay.Redis.{Key, document, set}
use morok_relay.Redis.Memory.{Memory, blank}
use morok_relay.Exec.{World, ok, calm, lost_reply, call}
use morok_relay.Tokens.Shelf.Alive.{IsFresh, live, tally}
use morok_relay.Tokens.Shelf.Within.{IsWithin}
use morok_relay.Tokens.Burner
use morok_relay.Tokens.Burner.Cap.{burner, BurnerReach, BurnerStep, BurnerReach-IsWithin}
use morok_relay.Tokens.Burner.Messages.{let_through, let_through-min}
use morok_relay.Tokens.Invite
use morok_relay.Tokens.Invite.Refine.{serve-refines}
use morok_relay.Tokens.Invite.Store.{Invites, issue, look, take, found, IsTable, Steps, serve}
use morok_relay.Tokens.Invite.Once.{take-once, after}
use morok_relay.Tests.Fixtures.{server, healthy}

abbrev start : World
start = calm blank 5 [] healthy

burner_unlisted : IsFresh burner "70ce" blank
burner_unlisted = record { unlisted = λ o. refl }

no_burners : IsWithin burner Burner.max_active_tokens_per_owner blank
unfolding live tally
no_burners = record { within = λ o. omega arith }

BurnerReach-IsWithin_example :
    IsWithin burner Burner.max_active_tokens_per_owner
      (Burner.create_token "70ce" "a11ce" 7200 (some "shop") start).1.db
BurnerReach-IsWithin_example =
    BurnerReach-IsWithin
      (BurnerReach.next BurnerReach.here
        (BurnerStep.creates start "70ce" "a11ce" 7200 (some "shop") burner_unlisted))
      no_burners

-- a burner token that has let 98 messages through
abbrev used_meta : Dict
used_meta = ("owner_pubkey", str "a11ce") ∷ ("message_count", int 98) ∷ []

abbrev used : Memory
used = server.run (set (Key.burner_token "70ce") (document used_meta) (some 3600)) blank

let_through-min_example :
    let_through "70ce" 5 (calm used 5 [] healthy) ≡ min 5 (Burner.max_messages_per_token - 98)
let_through-min_example =
    let_through-min "70ce" 5 [] healthy 5 used used_meta 98 refl refl (omega arith)

-- no invites
abbrev empty_table : Invites
empty_table t = none

empty_IsTable : IsTable empty_table blank
empty_IsTable = record { shown = λ t. refl }

-- the network loses the reply
abbrev shaky : World
shaky = record start { net = lost_reply ∷ [] }

serve-refines_example :
    Steps empty_table shaky
      (issue "70ce" "readers" "a11ce" 7200)
      (serve (issue "70ce" "readers" "a11ce" 7200) shaky)
serve-refines_example =
    serve-refines (issue "70ce" "readers" "a11ce" 7200) empty_table shaky empty_IsTable

abbrev one_invite : Dict
one_invite = Invite.token_payload "readers" "a11ce" 5 7205

abbrev invited : Memory
invited = server.run (set (Key.invite_token "70ce") (document one_invite) (some 7200)) blank

abbrev one_table : Invites
one_table t = if "70ce" == t then some one_invite else none

one_IsTable : IsTable one_table invited
one_IsTable = record { shown = λ t. ground arith }

taken : (serve (take "70ce") (calm invited 9 [] healthy)).0 ≡ ok (found (some one_invite))
unfolding serve Invite.consume_token Invite.take_token Invite.consumed Invite.forget call
taken = refl

take-once_example : ¬ (
    (serve
      (take "70ce")
      (after (look "70ce" ∷ []) (serve (take "70ce") (calm invited 9 [] healthy)).1)).0
    ≡ ok (found (some one_invite)))
take-once_example =
    take-once "70ce" one_invite (look "70ce" ∷ []) one_table (calm invited 9 [] healthy) one_IsTable
      taken refl one_invite
