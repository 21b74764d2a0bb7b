-- ===== src/Federation/Envelopes/Valid.antt =====
-- Which envelopes `verify_envelope_signature` takes.
use Prim.Native.String.{count}
use morok_relay.Prelude.{
  ℕ, ◌+◌, ◌≤◌, ◌<◌, String, true, Option, none, some, List, [], ◌∷◌, ◌≡◌, refl, arith,
}
use morok_relay.Prelude.Json.{Dict}
use morok_relay.Sessions.Value.{Decimal}
use morok_relay.Dms.{Codec}
use morok_relay.Federation.{plain_message, Signer}
use morok_relay.Federation.Envelopes.{
  Fields, required_fields, missing_from, signed_fields, decoded, check_fields, judged,
  verify_envelope_signature,
}

module _ ⦃D : Decimal⦄ ⦃C : Codec⦄ ⦃S : Signer⦄ where
  -- what the checks of an envelope show
  pub record IsValid (now : ℕ) (envelope : Dict) (f : Fields) : Type 0 where
    pub complete : missing_from envelope required_fields ≡ []
    pub reads : decoded envelope ≡ some f
    pub sender_size : count f.sender ≡ 32
    pub recipient_size : count f.recipient ≡ 32
    pub signature_size : count f.signature ≡ 64
    pub ttl_positive : 0 < f.ttl
    pub not_old : now ≤ f.timestamp + 300
    pub not_future : f.timestamp ≤ now + 60
    pub signed : S.verify (plain_message (signed_fields envelope)) f.signature f.sender ≡ true

  check-IsValid :
      (now : ℕ) (envelope : Dict) (f : Fields)
      → missing_from envelope required_fields ≡ []
      → decoded envelope ≡ some f
      → check_fields now envelope (some f) ≡ none
      → IsValid now envelope f
  check-IsValid now envelope f m d h = record {
    complete = m;
    reads = d;
    sender_size = ground arith;
    recipient_size = ground arith;
    signature_size = ground arith;
    ttl_positive = ground arith;
    not_old = ground arith;
    not_future = ground arith;
    signed = ground arith;
  }

  judged-IsValid :
      (now : ℕ) (envelope : Dict) (fields : Option Fields) (missing : List String)
      → decoded envelope ≡ fields
      → missing_from envelope required_fields ≡ missing
      → judged now envelope fields missing ≡ none
      → (f : Fields) × IsValid now envelope f
  judged-IsValid now envelope (some f) [] d m h = (f, check-IsValid now envelope f m d h)
  judged-IsValid now envelope none [] d m h = ground arith
  judged-IsValid now envelope fields (k ∷ ks) d m h = ground arith

  accepts :
      (now : ℕ) (envelope : Dict) (f : Fields)
      → IsValid now envelope f
      → check_fields now envelope (some f) ≡ none
  accepts now envelope f v = ground (
    arith, v.sender_size, v.recipient_size, v.signature_size, v.ttl_positive, v.not_old,
    v.not_future, v.signed,
  )

  -- An envelope is taken exactly when it has all the fields, they decode, the keys have 32 bytes
  -- and the signature 64, the time to live is not zero, the timestamp is at most five minutes old
  -- and at most one minute ahead, and the sender's key has signed the five fields.
  pub verify_envelope-IsValid :
      (now : ℕ) (envelope : Dict)
      → (verify_envelope_signature now envelope ≡ none → (f : Fields) × IsValid now envelope f)
        × ((f : Fields) → IsValid now envelope f → verify_envelope_signature now envelope ≡ none)
  unfolding verify_envelope_signature
  verify_envelope-IsValid now envelope = (
    judged-IsValid now envelope (decoded envelope) (missing_from envelope required_fields) refl
        refl,
    λ f v. rw (v.complete, v.reads) (accepts now envelope f v),
  )
