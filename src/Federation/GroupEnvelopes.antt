-- ===== src/Federation/GroupEnvelopes.antt =====
-- api/federation.py: what `_forward_impl` checks of the envelope of a group message.
pub mod Signed
use Prim.Native.String.{◌++◌ as ◌+ˢ◌, count}
use morok_relay.Prelude.{
  ℕ, ◌+◌, String, Bool, true, false, not, ◌&&◌, ◌||◌, Option, none, some, List, [], ◌∷◌, ltb, eqb,
  if◌then◌else◌,
}
use morok_relay.Prelude.Json.{Dict, lookup}
use morok_relay.Redis.{Redis}
use morok_relay.Exec.{Exec, http, raise, raise_if, gets, ◌>>=◌}
use morok_relay.Sessions.Value.{Decimal}
use morok_relay.Dms.{Codec}
use morok_relay.Federation.{plain_message, Signer}
use morok_relay.Federation.Events.{int_of}
use morok_relay.Federation.Envelopes.{json_of, text_in}

-- the object that the sender signs: those of the fields that are there
unfoldable pub present : Dict → List String → Dict
present envelope [] = []
present envelope (k ∷ ks) =
    let rest = present envelope ks in
    elim (lookup k envelope) [ none ↦ rest | some v ↦ (k, v) ∷ rest ]

abbrev pub unsigned_fields : List String
unsigned_fields = "from" ∷ "to" ∷ "ts" ∷ "ttl" ∷ "blob" ∷ []

module _ ⦃R : Redis⦄ ⦃D : Decimal⦄ ⦃C : Codec⦄ ⦃S : Signer⦄ (malformed : Dict → String) where
  abbrev pub check_signed : ℕ → Dict → String → String → Exec (Unit {0})
  check_signed now envelope sender signature =
      raise_if (not (S.verify (plain_message (present envelope unsigned_fields)) signature sender))
        (http 400 "inner_envelope_invalid: signature_invalid")

  abbrev pub check_time : ℕ → Dict → String → String → Option ℕ → Exec (Unit {0})
  check_time now envelope sender signature none = raise (http 400 "malformed_ts")
  check_time now envelope sender signature (some ts) =
      if ltb (ts + 300) now || ltb (now + 60) ts
      then raise (http 400 "inner_envelope_timestamp_out_of_window")
      else check_signed now envelope sender signature

  abbrev pub check_keys : ℕ → Dict → Option String → Option String → Exec (Unit {0})
  check_keys now envelope (some sender) (some signature) =
      if not (eqb (count sender) 32 && eqb (count signature) 64)
      then raise (http 400 "bad_inner_pubkey_or_sig_length")
      else check_time now envelope sender signature (int_of (json_of "ts" envelope))
  check_keys now envelope none signature =
      raise (http 400 ("malformed_envelope_fields: " +ˢ malformed envelope))
  check_keys now envelope (some sender) none =
      raise (http 400 ("malformed_envelope_fields: " +ˢ malformed envelope))

  -- `malformed` is the text of the exception for a malformed field.
  unfoldable pub check_group_envelope : Dict → Exec (Unit {0})
  unfolding present
  check_group_envelope envelope = do
    now ← gets (λ w. w.now)
    check_keys now envelope (text_in C.from_hex (json_of "from" envelope))
        (text_in C.from_hex (json_of "sig" envelope))
