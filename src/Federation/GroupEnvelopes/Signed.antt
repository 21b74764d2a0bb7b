-- ===== src/Federation/GroupEnvelopes/Signed.antt =====
-- What the checks of the envelope of a group message show.
use Prim.Native.String.{count}
use morok_relay.Prelude.{ℕ, ◌+◌, ◌≤◌, String, true, Option, none, some, ◌≡◌, refl, arith}
use morok_relay.Prelude.Json.{Dict}
use morok_relay.Redis.{Redis}
use morok_relay.Exec.{World, ok}
use morok_relay.Sessions.Value.{Decimal}
use morok_relay.Dms.{Codec}
use morok_relay.Federation.{plain_message, Signer}
use morok_relay.Federation.Events.{int_of}
use morok_relay.Federation.Envelopes.{json_of, text_in}
use morok_relay.Federation.GroupEnvelopes.{
  present, unsigned_fields, check_keys, check_group_envelope,
}

module _ ⦃R : Redis⦄ ⦃D : Decimal⦄ ⦃C : Codec⦄ ⦃S : Signer⦄ (malformed : Dict → String) where
  pub record IsGroupSigned (now : ℕ) (envelope : Dict) : Type 0 where
    pub sender : String
    pub signature : String
    pub timestamp : ℕ
    pub reads_sender : text_in C.from_hex (json_of "from" envelope) ≡ some sender
    pub reads_signature : text_in C.from_hex (json_of "sig" envelope) ≡ some signature
    pub reads_timestamp : int_of (json_of "ts" envelope) ≡ some timestamp
    pub sender_size : count sender ≡ 32
    pub signature_size : count signature ≡ 64
    pub not_old : now ≤ timestamp + 300
    pub not_future : timestamp ≤ now + 60
    pub signed : S.verify (plain_message (present envelope unsigned_fields)) signature sender ≡ true

  keys-IsGroupSigned :
      (now : ℕ) (envelope : Dict) (sender signature : Option String) (ts : Option ℕ) (w : World)
      → text_in C.from_hex (json_of "from" envelope) ≡ sender
      → text_in C.from_hex (json_of "sig" envelope) ≡ signature
      → int_of (json_of "ts" envelope) ≡ ts
      → (check_keys malformed now envelope sender signature w).0 ≡ ok tt
      → IsGroupSigned now envelope
  keys-IsGroupSigned now envelope none signature ts w from sig at h = ground arith
  keys-IsGroupSigned now envelope (some sender) none ts w from sig at h = ground arith
  keys-IsGroupSigned now envelope (some sender) (some signature) none w from sig at h = ground arith
  keys-IsGroupSigned now envelope (some sender) (some signature) (some ts) w from sig at h =
      record {
        sender = sender;
        signature = signature;
        timestamp = ts;
        reads_sender = from;
        reads_signature = sig;
        reads_timestamp = at;
        sender_size = ground arith;
        signature_size = ground arith;
        not_old = ground arith;
        not_future = ground arith;
        signed = ground arith;
      }

  pub check_group_envelope-IsGroupSigned :
      (envelope : Dict) (w : World)
      → (check_group_envelope malformed envelope w).0 ≡ ok tt
      → IsGroupSigned w.now envelope
  unfolding check_group_envelope
  check_group_envelope-IsGroupSigned envelope w h =
      keys-IsGroupSigned w.now envelope _ _ _ w refl refl refl h
