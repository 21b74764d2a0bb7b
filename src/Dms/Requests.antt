-- ===== src/Dms/Requests.antt =====
-- schemas.py: the request that creates a switch, with its validators.
use morok_relay.Prelude.{
  ℕ, ◌*◌, String, Bool, true, false, not, ◌&&◌, Option, none, some, List, [], ◌∷◌, ltb, eqb, elem,
  length, if◌then◌else◌,
}
use Prim.Native.String.{count}
use morok_relay.Blob.{all_hex}
use morok_relay.Dms.{Codec}

abbrev pub trigger_min_seconds : ℕ
trigger_min_seconds = 3600

abbrev pub trigger_max_seconds : ℕ
trigger_max_seconds = 365 * 86400

abbrev pub payload_max_bytes : ℕ
payload_max_bytes = 262144

abbrev pub free_max_recipients : ℕ
free_max_recipients = 5

abbrev pub premium_max_recipients : ℕ
premium_max_recipients = 20

abbrev pub free_max_active : ℕ
free_max_active = 5

abbrev pub premium_max_active : ℕ
premium_max_active = 20

abbrev pub free_max_total_bytes : ℕ
free_max_total_bytes = 2 * (1024 * 1024)

abbrev pub premium_max_total_bytes : ℕ
premium_max_total_bytes = 20 * (1024 * 1024)

abbrev pub label_max_len : ℕ
label_max_len = 100

pub record DmsCreate : Type 0 where
  pub trigger_seconds : ℕ
  pub payload_encrypted : String
  pub recipient_pubkeys_hex : List String
  pub label : Option String

-- `^[0-9a-f]{64}$`
unfoldable pub is_pubkey_hex : String → Bool
unfolding all_hex
is_pubkey_hex s = eqb (count s) 64 && all_hex s

module _ ⦃C : Codec⦄ where
  unfoldable pub is_payload : Option String → Bool
  is_payload none = false
  is_payload (some decoded) =
      not (eqb (count decoded) 0) && not (ltb payload_max_bytes (count decoded))

  -- the loop over the recipients, with those that it has seen; `none` is a ValueError
  unfoldable pub each_recipient : List String → List String → Option (List String)
  unfolding is_pubkey_hex
  each_recipient seen [] = some []
  each_recipient seen (v ∷ vs) =
      let pk = C.strip (C.lower v) in
      let rest = each_recipient (pk ∷ seen) vs in
      if not (is_pubkey_hex pk)
      then none
      else if elem pk seen
      then none
      else elim rest [ none ↦ none | some out ↦ some (pk ∷ out) ]

  abbrev pub at_most_max : Option (List String) → Option (List String)
  at_most_max none = none
  at_most_max (some out) = if ltb premium_max_recipients (length out) then none else some out

  unfoldable pub validate_recipients : List String → Option (List String)
  unfolding each_recipient
  validate_recipients [] = none
  validate_recipients (v ∷ vs) = at_most_max (each_recipient [] (v ∷ vs))

  abbrev pub is_label : Option String → Bool
  is_label none = true
  is_label (some l) = not (ltb label_max_len (count l))

  abbrev pub with_recipients : DmsCreate → Option (List String) → Option DmsCreate
  with_recipients body none = none
  with_recipients body (some out) = some (record body { recipient_pubkeys_hex = out })

  -- the body that the handler gets; `none` is the 422 of the framework
  unfoldable pub validate_create : DmsCreate → Option DmsCreate
  unfolding is_payload validate_recipients
  validate_create body =
      let recipients = validate_recipients body.recipient_pubkeys_hex in
      if ltb body.trigger_seconds trigger_min_seconds
      then none
      else if ltb trigger_max_seconds body.trigger_seconds
      then none
      else if not (is_label body.label)
      then none
      else if not (is_payload (C.b64decode body.payload_encrypted))
      then none
      else with_recipients body recipients
