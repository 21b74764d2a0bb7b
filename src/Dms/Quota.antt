-- ===== src/Dms/Quota.antt =====
-- The quota of armed switches that an owner can have.
use Prim.Native.String.{count}
use morok_relay.Prelude.{
  ℕ, suc, ◌+◌, ◌≤◌, String, ◌≡◌, false, List, [], ◌∷◌, ◌++◌, arith, leb, ltb, length,
}
use morok_relay.Redis.{Redis}
use morok_relay.Exec.{World, ok, raise_if, ◌>>=◌}
use morok_relay.Exec.Yields.{Yields, Yields-bind, Yields-pure, Yields-any, Yields-raise_if}
use morok_relay.Sessions.Value.{Decimal}
use morok_relay.Dms.{Tier, Dms, Db, Codec, Settings}
use morok_relay.Dms.Requests.{DmsCreate}
use morok_relay.Dms.Liveness.{count_armed}
use morok_relay.Dms.Endpoints.{
  DmsInfo, max_active, max_bytes, max_recipients, bytes_armed, new_dms, get_current_user,
  or_value_error, within_quota, add_dms, with_payload, check_recipients, create_dms_at, create_dms,
}

count_armed-add :
    (pubkey : String) (ds : List Dms) (d : Dms)
    → count_armed pubkey (ds ++ (d ∷ [])) ≤ suc (count_armed pubkey ds)
unfolding count_armed
count_armed-add pubkey [] d = ground arith
count_armed-add pubkey (e ∷ ds) d = ground (arith, count_armed-add pubkey ds d)

bytes_armed-add :
    (pubkey : String) (ds : List Dms) (d : Dms)
    → bytes_armed pubkey (ds ++ (d ∷ [])) ≤ bytes_armed pubkey ds + count d.payload_encrypted
unfolding bytes_armed
bytes_armed-add pubkey [] d = ground arith
bytes_armed-add pubkey (e ∷ ds) d = ground (arith, bytes_armed-add pubkey ds d)

-- what the owner's armed switches take, within the limits of a tier
pub record IsWithinQuota (tier : Tier) (pubkey : String) (ds : List Dms) : Type 0 where
  pub active : count_armed pubkey ds ≤ max_active tier
  pub bytes : bytes_armed pubkey ds ≤ max_bytes tier

module _ ⦃R : Redis⦄ ⦃C : Codec⦄ ⦃D : Decimal⦄ where
  within_quota-Yields :
      (tier : Tier) (pubkey payload : String) (ds : List Dms)
      → Yields
          (λ x.
            leb (max_active tier) (count_armed pubkey ds) ≡ false
            × ltb (max_bytes tier) (bytes_armed pubkey ds + count payload) ≡ false)
          (within_quota tier pubkey payload ds)
  within_quota-Yields tier pubkey payload ds =
      Yields-bind (raise_if (leb (max_active tier) (count_armed pubkey ds)) _)
        (λ _. raise_if (ltb (max_bytes tier) (bytes_armed pubkey ds + count payload)) _)
        (Yields-raise_if _ _)
        (λ _ few. record { yields = λ w x h. (few, (Yields-raise_if _ _).yields w x h) })

  with_payload-Yields :
      (id pubkey : String) (body : DmsCreate) (tier : Tier) (db : Db) (now : ℕ) (payload : String)
      → Yields
          (λ out. IsWithinQuota tier pubkey out.1.switches)
          (with_payload id pubkey body tier db now payload)
  unfolding with_payload
  with_payload-Yields id pubkey body tier db now payload =
      Yields-bind (within_quota tier pubkey payload db.switches)
        (λ _. add_dms id pubkey body db now payload)
        (within_quota-Yields tier pubkey payload db.switches)
        (λ _ room.
          let d = new_dms id pubkey body payload now in
          Yields-pure _ (record {
            active = ground (arith, room.0, count_armed-add pubkey db.switches d);
            bytes = ground (arith, room.1, bytes_armed-add pubkey db.switches d);
          }))

  -- When a request for a new switch is answered, the owner's armed switches are within the quota of
  -- the owner's tier, the new one included, in number (5, or 20 of a premium user or an
  -- administrator) and in bytes of payload (2 MiB, or 20 MiB); and it has at most 5, or 20, recipients.
  pub create_dms-IsWithinQuota :
      (settings : Settings) (id pubkey : String) (body : DmsCreate) (db : Db) (w : World)
      (out : DmsInfo × Db)
      → (create_dms settings id pubkey body db w).0 ≡ ok out
      → let tier = (get_current_user settings pubkey w.now db).0.tier in
        IsWithinQuota tier pubkey out.1.switches
        × length body.recipient_pubkeys_hex ≤ max_recipients tier
  unfolding create_dms create_dms_at
  create_dms-IsWithinQuota settings id pubkey body db w out h =
      let (user, db') = get_current_user settings pubkey w.now db in
      let payload = or_value_error (C.b64decode body.payload_encrypted) in
      let rest = with_payload id pubkey body user.tier db' w.now in
      (Yields-bind
          {Q = λ o.
            IsWithinQuota user.tier pubkey o.1.switches
            × length body.recipient_pubkeys_hex ≤ max_recipients user.tier}
          (check_recipients user.tier body) (λ _. payload >>= rest) (Yields-raise_if _ _)
          (λ _ few. Yields-bind payload rest (Yields-any _) (λ p _. record {
            yields = λ v o made. (
              (with_payload-Yields id pubkey body user.tier db' w.now p).yields v o made,
              ground (arith, few),
            );
          }))).yields
        w out h
