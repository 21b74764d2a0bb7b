-- ===== src/Tests/Fixtures.antt =====
-- Concrete values: a server, a digest, a number format and a signature check that meet what the
-- development asks of them, and an envelope.

use Prim.Native.String.{◌++◌ as ◌+ˢ◌}
use morok_relay.Prelude.{
  ℕ, zero, suc, String, ◌≡◌, refl, ap, Bool, true, false, none, some, [], arith, ◌==◌, inl, inr,
  Bool-cases, eq_iff,
}
use morok_relay.Redis.{Redis}
use morok_relay.Redis.Memory.{memory}
use morok_relay.Queue.Model.{Sha256, Envelope}
use morok_relay.Sessions.Value.{Decimal}
use morok_relay.SensitiveAction.{Ed25519}

instance abbrev pub server : Redis
server = memory

instance abbrev pub tagged : Sha256
tagged = record { of_text = λ s. "#" +ˢ s; of_hex = λ s. some ("#" +ˢ s) }

-- a number as that many marks after one more
unfoldable pub marks : ℕ → String
marks zero = "i"
marks (suc n) = String.◌∷◌ "i" (marks n)

unfoldable pub letters : String → ℕ
letters String.[] = 0
letters (String.◌∷◌ c s) = suc (letters s)

abbrev pub one_less : ℕ → ℕ
one_less zero = 0
one_less (suc n) = n

pub letters-marks : (n : ℕ) → letters (marks n) ≡ suc n
unfolding letters marks
letters-marks zero = refl
letters-marks (suc n) = ap suc (letters-marks n)

letters-empty : letters "" ≡ 0
unfolding letters
letters-empty = refl

pub marks-not_empty : (n : ℕ) → (marks n == "") ≡ false
marks-not_empty n = elim (Bool-cases (marks n == "")) [
  | inl h ↦
      let same = ap letters ((eq_iff (marks n) "").0 h) in
      absurd (omega (arith, same, letters-marks n, letters-empty))
  | inr h ↦ h
]

instance abbrev pub unary : Decimal
unary = record {
  show = marks;
  read = λ s. some (one_less (letters s));
  read-show = λ n. rw (letters-marks n) refl;
  show-not_empty = marks-not_empty;
}

instance abbrev pub lenient : Ed25519
lenient = record { is_hex = λ s. true; verify = λ m s k. s == k }

abbrev pub healthy : String → Bool
healthy f = false

-- a direct message from "a11ce" to "b0b" at the time 1000, for an hour
abbrev pub letter : Envelope
letter = record {
  envelope_id = "abcd";
  sender = "a11ce";
  recipient = "b0b";
  timestamp = 1000;
  ttl_seconds = 3600;
  signature = "5160";
  hard_ceiling_seconds = 86400;
  sender_username = none;
  sealed = false;
  delete_key_hash = none;
  channel = none;
  mail_from = none;
  mail_origin = none;
  extra_meta = [];
}
