-- ===== src/Dms.antt =====
-- The dead man's switch: its rows in Postgres (models.py), the parameters that its modules share,
-- and the transaction that a request runs in (db.py).
-- Public keys are kept as the hex texts that stand for their bytes, and other bytes as texts with a
-- character for each byte.
pub mod Requests
pub mod Liveness
pub mod Session
pub mod Endpoints
pub mod Reaper
pub mod Sound
pub mod Alive
pub mod Quota
pub mod Table
use Prim.Native.String.{◌++◌ as ◌+ˢ◌}
use morok_relay.Prelude.{
  ℕ, ◌+◌, ◌*◌, String, Bool, true, false, ◌&&◌, Option, none, some, List, [], ◌∷◌, ◌==◌,
  if◌then◌else◌, suc,
}
use morok_relay.Prelude.Json.{Dict}
use morok_relay.Redis.{Redis}
use morok_relay.Exec.{World, Exec, Outcome, ok, raised}

pub data Status : Type 0 where
  armed triggered cancelled : Status

-- `DMSStatus.value`
abbrev pub status_text : Status → String
status_text armed = "armed"
status_text triggered = "triggered"
status_text cancelled = "cancelled"

abbrev pub is_armed : Status → Bool
is_armed armed = true
is_armed _ = false

pub data Tier : Type 0 where
  free premium admin : Tier

pub record Recipient : Type 0 where
  pub recipient_pubkey : String
  pub delivered_at : Option ℕ

pub record Dms : Type 0 where
  pub id : String
  pub creator_pubkey : String
  pub trigger_seconds : ℕ
  pub last_check_in_at : ℕ
  pub payload_encrypted : String
  pub label : Option String
  pub status : Status
  pub created_at : ℕ
  pub triggered_at : Option ℕ
  pub cancelled_at : Option ℕ
  pub recipients : List Recipient

pub record User : Type 0 where
  pub pubkey : String
  pub home_relay : String
  pub tier : Tier
  pub last_seen_at : ℕ

-- the tables
pub record Db : Type 0 where
  pub switches : List Dms
  pub users : List User

-- the settings that these modules read
pub record Settings : Type 0 where
  pub relay_name : String
  pub relay_pubkey_hex : String
  pub relay_privkey_hex : String
  pub message_ttl_hard_seconds : ℕ
  -- `action_proof_required_set()`
  pub action_proof_required : List String

-- base64, `uuid.UUID` with the canonical text of what it reads, `bytes.fromhex`, the SHA-256 of
-- bytes one after the other, Ed25519 signatures on canonical JSON, and `str.lower` and `str.strip`
pub record Codec : Type 0 where
  pub b64decode : String → Option String
  pub b64encode : String → String
  pub uuid : String → Option String
  pub from_hex : String → Option String
  pub digest : List String → String
  -- `n.to_bytes(8, "big")`
  pub to_bytes : ℕ → String
  pub sign : Dict → String → String
  pub lower : String → String
  pub strip : String → String

module _ ⦃R : Redis⦄ where
  -- what a handler does in its transaction; the rows change as a value that it passes on
  abbrev pub Tx : Type 0 → Type 0
  Tx A = Db → Exec (A × Db)

  -- `get_session`: committed when the handler returns, rolled back when it raises
  abbrev pub settle : {A : Type 0} → Db → Outcome (A × Db) × World → Outcome A × (Db × World)
  settle db (ok (a, db'), w) = (ok a, (db', w))
  settle db (raised e, w) = (raised e, (db, w))

  unfoldable pub transact : {A : Type 0} → Tx A → Db → World → Outcome A × (Db × World)
  transact handler db w = settle db (handler db w)
