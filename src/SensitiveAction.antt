-- ===== src/SensitiveAction.antt =====
-- sensitive_action.py: the signed confirmation of an irreversible action and its nonce.
pub mod Replay
use morok_relay.Prelude.{
  ℕ, ◌-◌, String, Bool, true, false, not, ◌&&◌, Option, none, some, List, [], ◌∷◌, ◌==◌, elem, leb,
  ltb, if◌then◌else◌,
}
use morok_relay.Prelude.Json.{Dict, str, int}
use morok_relay.Redis.{Key, Redis, text, set_nx}
use morok_relay.Redis.Pipeline.{◌▸◌, exists}
use morok_relay.Exec.{
  World, Exec, Outcome, ok, raised, http, pure, raise, raise_if, gets, call, catch_all, ◌>>=◌, ◌>>◌,
}

-- PyNaCl's check of a signature, both in hex, on the canonical JSON of a message; `is_hex` is
-- whether `bytes.fromhex` takes a text.
pub record Ed25519 : Type 0 where
  pub is_hex : String → Bool
  pub verify : Dict → String → String → Bool

abbrev pub action_sig_window_seconds : ℕ
action_sig_window_seconds = 300

-- `abs(a - b)`
abbrev pub distance : ℕ → ℕ → ℕ
distance a b = if leb a b then b - a else a - b

-- the keyword arguments of `verify_sensitive_action`
pub record Confirmation : Type 0 where
  pub action : String
  pub pubkey : String
  pub target : String
  pub nonce : String
  pub timestamp : ℕ
  pub signature : String
  pub relay_name : String

abbrev pub message : Confirmation → Dict
message c =
    ("morok_sensitive_action", str "v1")
    ∷ ("action", str c.action)
    ∷ ("relay", str c.relay_name)
    ∷ ("timestamp", int c.timestamp)
    ∷ ("nonce", str c.nonce)
    ∷ ("target", str c.target)
    ∷ []

-- the fields of a proof, and what `getattr` gives for those that are missing
pub record Proof : Type 0 where
  pub signature : Option String
  pub nonce : Option String
  pub timestamp : Option ℕ

abbrev pub or_empty : Option String → String
or_empty none = ""
or_empty (some s) = s

abbrev pub or_zero : Option ℕ → ℕ
or_zero none = 0
or_zero (some n) = n

-- the checks before the nonce
unfoldable pub is_signed : ⦃C : Ed25519⦄ → ℕ → Confirmation → Bool
is_signed ⦃C⦄ now c =
    if ltb action_sig_window_seconds (distance now c.timestamp)
    then false
    else (C.is_hex c.signature && C.is_hex c.pubkey) && C.verify (message c) c.signature c.pubkey

module _ ⦃R : Redis⦄ ⦃C : Ed25519⦄ where
  unfoldable pub claim_nonce : String → String → R.Store → Bool × R.Store
  claim_nonce pubkey nonce s = (
    not (exists (Key.action_nonce pubkey nonce) s),
    s ▸ set_nx (Key.action_nonce pubkey nonce) (text "1") action_sig_window_seconds,
  )

  unfoldable pub verify_sensitive_action : Confirmation → Exec Bool
  unfolding is_signed claim_nonce
  verify_sensitive_action c = do
    now ← gets (λ w. w.now)
    if is_signed now c
        then catch_all (call (claim_nonce c.pubkey c.nonce)) (pure false)
        else pure false

  unfoldable pub require_valid : Bool → Exec (Unit {0})
  require_valid valid = raise_if (not valid) (http 401 "invalid_action_proof")

  abbrev pub signature_of : Option Proof → Option String
  signature_of none = none
  signature_of (some p) = p.signature

  abbrev pub confirmation : String → String → String → String → String → Proof → Confirmation
  confirmation relay_name action pubkey target signature p = record {
    action = action;
    pubkey = pubkey;
    target = target;
    nonce = or_empty p.nonce;
    timestamp = or_zero p.timestamp;
    signature = signature;
    relay_name = relay_name;
  }

  abbrev pub enforce_proof :
      List String → String → String → String → String → Option Proof → Exec (Unit {0})
  enforce_proof required relay_name action pubkey target none =
      raise_if (elem action required) (http 401 "action_proof_required")
  enforce_proof required relay_name action pubkey target (some p) = elim p.signature [
    | none ↦ raise_if (elem action required) (http 401 "action_proof_required")
    | some sig ↦
        verify_sensitive_action (confirmation relay_name action pubkey target sig p) >>= λ valid.
        require_valid valid
  ]

  -- `required` is `settings.action_proof_required_set()`
  unfoldable pub enforce_sensitive_action :
      List String → String → String → String → String → Option Proof → Exec (Unit {0})
  unfolding require_valid verify_sensitive_action
  enforce_sensitive_action required relay_name action pubkey target proof =
      enforce_proof required relay_name action pubkey target proof
