-- ===== src/Federation/Events/Replay.antt =====
-- How often an event takes effect.
use morok_relay.Prelude.{
  ℕ, ◌+◌, ◌≤◌, String, ◌≡◌, refl, ap, ◌∙◌, inl, inr, Bool, true, false, not, none, some, Option,
  List, arith, eq_refl, leb, max, Bool-cases,
}
use morok_relay.Prelude.Json.{Json}
use morok_relay.Redis.{Key, Redis, Value, text, elapsed}
use morok_relay.Redis.Pipeline.{exists}
use morok_relay.Exec.{ok, call, calm}
use morok_relay.Sessions.Value.{Decimal}
use morok_relay.Queue.Model.{Sha256}
use morok_relay.Dms.{Codec}
use morok_relay.Federation.{Signer}
use morok_relay.Federation.Events.{
  event_key, claim_key, claim_federated_event, verify_delete_sig, delete_sig_window_seconds,
}

module _ ⦃R : Redis⦄ ⦃H : Sha256⦄ ⦃D : Decimal⦄ (kind signer : String) (ts : Json)
    (envelope_id : String) (group_id : Option String) (window : ℕ) where
  abbrev key : Key
  key = event_key kind signer ts envelope_id group_id

  claim_calm :
      (s : R.Store) (t : ℕ) (d : List (String × String)) (k : String → Bool)
      → claim_federated_event kind signer ts envelope_id group_id window (calm s t d k)
        ≡ (ok (not (exists key s)), calm (claim_key key window s).1 t d k)
  unfolding claim_federated_event call
  claim_calm s t d k = refl

  module _ (s : R.Store) (t : ℕ) (d : List (String × String)) (k : String → Bool)
      (first : (claim_federated_event kind signer ts envelope_id group_id window (calm s t d k)).0
        ≡ ok true) where
    fresh : exists key s ≡ false
    fresh = ground (arith, claim_calm s t d k)

    -- the record of the event
    recorded :
        R.at
          (claim_federated_event kind signer ts envelope_id group_id window (calm s t d k)).1.db
          key
        ≡ record { value = Value.string (text "1"); ttl = some (max window 60) }
    unfolding event_key
    recorded = rw (claim_calm s t d k) (simp (R.at_run, eq_refl, fresh))

  -- With the connection up, a claim tells whether the event was claimed before, and after it the
  -- event counts as claimed until the window of its signatures is over, however long that is, as
  -- long as nothing but the passing of time touches the record.
  pub claim_once :
      (s s' : R.Store) (t t' e : ℕ) (d d' : List (String × String)) (k k' : String → Bool)
      → (claim_federated_event kind signer ts envelope_id group_id window (calm s t d k)).0
        ≡ ok true
      → R.at s' key
        ≡ elapsed e (
            R.at
              (claim_federated_event kind signer ts envelope_id group_id window (calm s t d k)).1.db
              key)
      → (claim_federated_event kind signer ts envelope_id group_id window (calm s' t' d' k')).0
        ≡ ok (leb (max window 60) e)
  claim_once s s' t t' e d d' k k' first untouched =
      let later : R.at s' key
          ≡ elapsed e (record { value = Value.string (text "1"); ttl = some (max window 60) }) =
        untouched ∙ ap (elapsed e) (recorded s t d k first) in
      rw (claim_calm s' t' d' k') (elim (Bool-cases (leb (max window 60) e)) [
        | inl long ↦ rw long (rw later (ground arith))
        | inr short ↦ rw short (rw later (ground arith))
      ])

-- A deletion whose signature was good before or at its timestamp and whose record is a week old is
-- signed and fresh once more, as long as nothing but the passing of time touches the record.
pub future_event_replayed :
    ⦃R : Redis⦄ ⦃H : Sha256⦄ ⦃D : Decimal⦄ ⦃C : Codec⦄ ⦃S : Signer⦄
    (envelope_id signature_hex signer : String) (ts t : ℕ) (s s' : R.Store)
    (d d' : List (String × String)) (k k' : String → Bool)
    → t ≤ ts
    → verify_delete_sig t "dm_delete" envelope_id
        (Json.int ts)
        signature_hex
        signer
        none
        delete_sig_window_seconds
      ≡ true
    → (claim_federated_event "dm_delete" signer
        (Json.int ts)
        envelope_id
        none
        delete_sig_window_seconds
        (calm s t d k)).0
      ≡ ok true
    → R.at s' (event_key "dm_delete" signer (Json.int ts) envelope_id none)
      ≡ elapsed delete_sig_window_seconds (
          R.at
            (claim_federated_event "dm_delete" signer
              (Json.int ts)
              envelope_id
              none
              delete_sig_window_seconds
              (calm s t d k)).1.db
            (event_key "dm_delete" signer (Json.int ts) envelope_id none))
    → verify_delete_sig
          (t + delete_sig_window_seconds)
          "dm_delete"
          envelope_id
          (Json.int ts)
          signature_hex
          signer
          none
          delete_sig_window_seconds
        ≡ true
      × (claim_federated_event "dm_delete" signer
          (Json.int ts)
          envelope_id
          none
          delete_sig_window_seconds
          (calm s' (t + delete_sig_window_seconds) d' k')).0
        ≡ ok true
unfolding verify_delete_sig
future_event_replayed envelope_id signature_hex signer ts t s s' d d' k k' ahead good first later =
    (
      ground arith,
      claim_once "dm_delete" signer (Json.int ts) envelope_id none delete_sig_window_seconds s s' t
          (t + delete_sig_window_seconds) delete_sig_window_seconds d d' k k' first later,
    )
