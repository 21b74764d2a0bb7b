-- ===== src/Messages/Delete/Signed.antt =====
-- What a deletion has been checked for, and what it leaves alone when it is refused.
use morok_relay.Prelude.{
  ℕ, ◌*◌, ◌≤◌, String, true, some, List, ltb, ◌≡◌, refl, arith, Bool-cases, Option-cases, inl, inr,
  ◌⊎◌,
}
use morok_relay.Redis.{Redis}
use morok_relay.Exec.{World, Exn, raised, http}
use morok_relay.SensitiveAction.{distance}
use morok_relay.Dms.{Codec}
use morok_relay.Queue.Model.{Sha256}
use morok_relay.Federation.{plain_message, Signer, Outbound, Account, FedSettings}
use morok_relay.Messages.{is_envelope_id}
use morok_relay.Messages.Delete.{DmDeleteRequest, delete_message, delete_dm_message}

module _ ⦃R : Redis⦄ ⦃H : Sha256⦄ ⦃C : Codec⦄ ⦃S : Signer⦄ (settings : FedSettings) where
  -- the sender has signed the deletion, within a week
  pub record IsSigned (now : ℕ) (current envelope_id : String) (body : DmDeleteRequest)
      : Type 0 where
    pub signature : String
    pub sender : String
    pub signature_bytes : C.from_hex body.signature_hex ≡ some signature
    pub sender_bytes : C.from_hex current ≡ some sender
    pub in_window : distance now body.ts ≤ 7 * 86400
    pub signed :
        S.verify (plain_message (delete_message envelope_id body.ts)) signature sender ≡ true

  -- Whatever the network does, the deletion of a message either has the signature of the session's
  -- user, made at most a week before or after, or raises before anything has changed.
  pub delete_dm_message-IsSigned :
      (id current envelope_id : String) (body : DmDeleteRequest) (accounts : List Account)
      (rows : List Outbound) (w : World)
      → IsSigned w.now current envelope_id body
        ⊎ ((e : Exn) × (delete_dm_message settings id current envelope_id body accounts rows w
              ≡ (raised e, w)))
  unfolding delete_dm_message
  delete_dm_message-IsSigned id current envelope_id body accounts rows w =
      elim (Bool-cases (is_envelope_id envelope_id)) [
        | inr e ↦ inr (http 400 "malformed_envelope_id", simp e refl)
        | inl e ↦ elim (Bool-cases (ltb (7 * 86400) (distance w.now body.ts))) [
          | inl late ↦ inr (http 400 "delete_ts_out_of_window", simp (e, late) refl)
          | inr late ↦ elim (Option-cases (C.from_hex body.signature_hex)) [
            | inl s ↦ inr (http 400 "malformed_signature_or_pubkey", simp (e, late, s) refl)
            | inr (signature, s) ↦ elim (Option-cases (C.from_hex current)) [
              | inl k ↦ inr (http 400 "malformed_signature_or_pubkey", simp (e, late, s, k) refl)
              | inr (sender, k) ↦
                  elim (Bool-cases (
                    S.verify (plain_message (delete_message envelope_id body.ts)) signature
                      sender)) [
                        | inr v ↦
                            inr (http 401 "invalid_delete_signature", simp (e, late, s, k, v) refl)
                        | inl v ↦ inl (record {
                          signature = signature;
                          sender = sender;
                          signature_bytes = s;
                          sender_bytes = k;
                          in_window = ground arith;
                          signed = v;
                        })
                      ]
            ]
          ]
        ]
      ]
