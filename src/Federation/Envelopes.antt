-- ===== src/Federation/Envelopes.antt =====
-- crypto.py: `verify_envelope_signature`, the checks of the envelope of a direct message.
pub mod Valid
use Prim.Native.String.{◌++◌ as ◌+ˢ◌, count}
use morok_relay.Prelude.{
  ℕ, ◌+◌, String, Bool, true, false, not, ◌&&◌, Option, none, some, List, [], ◌∷◌, ltb, eqb,
  if◌then◌else◌,
}
use morok_relay.Prelude.Json
use morok_relay.Prelude.Json.{Json, Dict, lookup, contains}
use morok_relay.Sessions.Value.{Decimal}
use morok_relay.Dms.{Codec}
use morok_relay.Federation.{plain_message, Signer}
use morok_relay.Federation.Events.{int_of}

abbrev pub max_age_seconds : ℕ
max_age_seconds = 300

abbrev pub max_future_seconds : ℕ
max_future_seconds = 60

-- why an envelope is refused
pub data Invalid : Type 0 where
  missing_fields : List String → Invalid
  malformed_field invalid_pubkey_length invalid_signature_length ttl_not_positive too_old
        from_the_future signature_invalid :
      Invalid

-- the fields of an envelope, decoded
pub record Fields : Type 0 where
  pub sender : String
  pub recipient : String
  pub timestamp : ℕ
  pub ttl : ℕ
  pub blob : String
  pub signature : String

-- `sorted(required - envelope.keys())`
abbrev pub required_fields : List String
required_fields = "blob" ∷ "from" ∷ "sig" ∷ "to" ∷ "ts" ∷ "ttl" ∷ []

unfoldable pub missing_from : Dict → List String → List String
missing_from envelope [] = []
missing_from envelope (k ∷ ks) =
    let rest = missing_from envelope ks in if contains k envelope then rest else k ∷ rest

abbrev pub json_of : String → Dict → Json
json_of k envelope = elim (lookup k envelope) [ none ↦ Json.null | some v ↦ v ]

-- the object that the sender signs
abbrev pub signed_fields : Dict → Dict
signed_fields envelope =
    ("from", json_of "from" envelope)
    ∷ ("to", json_of "to" envelope)
    ∷ ("ts", json_of "ts" envelope)
    ∷ ("ttl", json_of "ttl" envelope)
    ∷ ("blob", json_of "blob" envelope)
    ∷ []

abbrev pub text_in : (String → Option String) → Json → Option String
text_in decode (Json.str s) = decode s
text_in decode _ = none

-- the decoded fields, none where one of them is malformed
abbrev pub all_fields :
    Option String
    → Option String
    → Option ℕ
    → Option ℕ
    → Option String
    → Option String
    → Option Fields
all_fields (some sender) (some recipient) (some timestamp) (some ttl) (some blob) (some sig) =
    some (record {
      sender = sender;
      recipient = recipient;
      timestamp = timestamp;
      ttl = ttl;
      blob = blob;
      signature = sig;
    })
all_fields _ _ _ _ _ _ = none

module _ ⦃D : Decimal⦄ ⦃C : Codec⦄ ⦃S : Signer⦄ where
  unfoldable pub decoded : Dict → Option Fields
  decoded envelope =
      all_fields (text_in C.from_hex (json_of "from" envelope))
        (text_in C.from_hex (json_of "to" envelope)) (int_of (json_of "ts" envelope))
        (int_of (json_of "ttl" envelope)) (text_in C.b64decode (json_of "blob" envelope))
        (text_in C.from_hex (json_of "sig" envelope))

  abbrev pub check_fields : ℕ → Dict → Option Fields → Option Invalid
  check_fields now envelope none = some malformed_field
  check_fields now envelope (some f) =
      if not (eqb (count f.sender) 32 && eqb (count f.recipient) 32)
      then some invalid_pubkey_length
      else if not (eqb (count f.signature) 64)
      then some invalid_signature_length
      else if eqb f.ttl 0
      then some ttl_not_positive
      else if ltb (f.timestamp + max_age_seconds) now
      then some too_old
      else if ltb (now + max_future_seconds) f.timestamp
      then some from_the_future
      else if S.verify (plain_message (signed_fields envelope)) f.signature f.sender
      then none
      else some signature_invalid

  abbrev pub judged : ℕ → Dict → Option Fields → List String → Option Invalid
  judged now envelope fields [] = check_fields now envelope fields
  judged now envelope fields (k ∷ ks) = some (missing_fields (k ∷ ks))

  -- none for an envelope that is valid
  unfoldable pub verify_envelope_signature : ℕ → Dict → Option Invalid
  unfolding missing_from decoded
  verify_envelope_signature now envelope =
      judged now envelope (decoded envelope) (missing_from envelope required_fields)

-- the list of texts as Python prints it
unfoldable pub quoted : List String → String
quoted [] = ""
quoted (k ∷ []) = "'" +ˢ (k +ˢ "'")
quoted (k ∷ l ∷ ks) = "'" +ˢ (k +ˢ ("', " +ˢ quoted (l ∷ ks)))

-- the reason in words; `malformed` is the text of the exception for a malformed field
unfoldable pub invalid_text : (Dict → String) → Dict → Invalid → String
unfolding quoted
invalid_text malformed envelope (missing_fields ks) = "missing fields: [" +ˢ (quoted ks +ˢ "]")
invalid_text malformed envelope malformed_field = "malformed field: " +ˢ malformed envelope
invalid_text malformed envelope invalid_pubkey_length = "invalid pubkey length"
invalid_text malformed envelope invalid_signature_length = "invalid signature length"
invalid_text malformed envelope ttl_not_positive = "ttl must be positive"
invalid_text malformed envelope too_old = "envelope too old"
invalid_text malformed envelope from_the_future = "envelope from the future"
invalid_text malformed envelope signature_invalid = "signature invalid"
