-- ===== src/Dms/Sound/Handlers.antt =====
-- The handlers keep each switch sound.
use Prim.Native.String.{count}
use morok_relay.Prelude.{
  ℕ, String, ◌≡◌, refl, sym, ap, ◌∙◌, inl, inr, true, false, not, Option, none, some, List, arith,
  eqb, Bool-cases, eq_iff,
}
use morok_relay.Dms.{
  Status, armed, triggered, cancelled, is_armed, Tier, Dms, Db, User, Codec, Settings,
}
use morok_relay.Redis.{Redis}
use morok_relay.Exec.{raise_if, pure, gets, ◌>>=◌}
use morok_relay.Exec.Yields.{
  Yields, Yields-bind, Yields-pure, Yields-any, Yields-gets, Yields-raise,
}
use morok_relay.Sessions.Value.{Decimal}
use morok_relay.SensitiveAction.{Ed25519, Proof, enforce_sensitive_action}
use morok_relay.Dms.Requests.{
  DmsCreate, validate_create, with_recipients, validate_recipients, is_payload,
}
use morok_relay.Dms.Liveness.{
  bumped, bump_check_in, signed_checkin_enforced, remember_signed_checkin,
}
use morok_relay.Dms.Endpoints.{
  find_dms, put_dms, the_user, get_current_user, find_user, or_value_error, new_dms, or_not_found,
  load_dms_for_owner, own_dms, parse_dms_id, check_in, check_in_by, check_in_row, checked_in,
  SignedCheckIn, check_in_signed, check_in_signed_at, check_signed, signed_in, cancel_armed,
  cancel_by_status, cancel_dms, scrubbed, create_dms, create_dms_at, within_quota, add_dms,
  with_payload, check_recipients,
}
use morok_relay.Dms.Table.{All-find_dms, All-put_dms, All-map, All-add, find_dms-id}
use morok_relay.Dms.Sound.{is_sound, IsSound, AreSound, checked-IsSound, bumped-IsSound}

module _ ⦃R : Redis⦄ ⦃C : Codec⦄ where
  get_current_user-switches :
      (settings : Settings) (pubkey : String) (now : ℕ) (db : Db)
      → (get_current_user settings pubkey now db).1.switches ≡ db.switches
  unfolding get_current_user
  get_current_user-switches settings pubkey now db = found (find_user pubkey db.users)
    where
      found : (o : Option User) → (the_user settings pubkey now db o).1.switches ≡ db.switches
      found none = refl
      found (some user) = refl

  with_recipients-payload :
      (raw body : DmsCreate) (o : Option (List String))
      → with_recipients raw o ≡ some body
      → raw.payload_encrypted ≡ body.payload_encrypted
  with_recipients-payload raw body none h = cc
  with_recipients-payload raw body (some out) h = cc

  validate_create-payload :
      (raw body : DmsCreate)
      → validate_create raw ≡ some body
      → is_payload (C.b64decode body.payload_encrypted) ≡ true
  unfolding validate_create
  validate_create-payload raw body h =
      elim (Bool-cases (is_payload (C.b64decode raw.payload_encrypted))) [
        | inl full ↦
            let same : raw.payload_encrypted ≡ body.payload_encrypted = ground (
              arith,
              h,
              with_recipients-payload raw body (validate_recipients raw.recipient_pubkeys_hex),
            ) in
            rw (sym same) full
        | inr empty ↦ let h' = simp empty at h in ground (arith, h')
      ]

  decoded-Yields :
      (o : Option String)
      → is_payload o ≡ true
      → Yields (λ payload. eqb (count payload) 0 ≡ false) (or_value_error o)
  unfolding is_payload
  decoded-Yields none h = Yields-raise _
  decoded-Yields (some payload) h = Yields-pure payload (ground (arith, h))

  new_dms-IsSound :
      (id pubkey payload : String) (body : DmsCreate) (now : ℕ)
      → eqb (count payload) 0 ≡ false
      → IsSound (new_dms id pubkey body payload now)
  unfolding is_sound
  new_dms-IsSound id pubkey payload body now full = record { sound = simp full }

  with_payload-Yields :
      ⦃D : Decimal⦄ (id pubkey : String) (body : DmsCreate) (tier : Tier) (db : Db) (now : ℕ)
      (payload : String)
      → eqb (count payload) 0 ≡ false
      → AreSound db
      → Yields (λ out. AreSound out.1) (with_payload id pubkey body tier db now payload)
  unfolding with_payload
  with_payload-Yields id pubkey body tier db now payload full a =
      Yields-bind (within_quota tier pubkey payload db.switches)
        (λ _. add_dms id pubkey body db now payload) (Yields-any _)
        (λ _ _. Yields-pure _ (
          All-add (new_dms id pubkey body payload now) db.switches
            (new_dms-IsSound id pubkey payload body now full) a))

  pub create_dms-Yields :
      ⦃D : Decimal⦄ (settings : Settings) (id pubkey : String) (raw body : DmsCreate) (db : Db)
      → validate_create raw ≡ some body
      → AreSound db
      → Yields (λ out. AreSound out.1) (create_dms settings id pubkey body db)
  unfolding create_dms create_dms_at
  create_dms-Yields settings id pubkey raw body db valid a =
      Yields-gets (λ w. w.now) (create_dms_at settings id pubkey body db)
        (λ now.
          let (user, db') = get_current_user settings pubkey now db in
          let payload = or_value_error (C.b64decode body.payload_encrypted) in
          let rest = with_payload id pubkey body user.tier db' now in
          Yields-bind (check_recipients user.tier body) (λ _. payload >>= rest) (Yields-any _)
            (λ _ _.
              Yields-bind payload rest (decoded-Yields _ (validate_create-payload raw body valid))
                (λ p full.
                  with_payload-Yields id pubkey body user.tier db' now p full
                    (rw (get_current_user-switches settings pubkey now db) a))))

  or_not_found-Yields :
      (pubkey : String) (o : Option Dms)
      → Yields (λ d. o ≡ some d × d.creator_pubkey ≡ pubkey) (or_not_found pubkey o)
  or_not_found-Yields pubkey none = record { yields = λ w d h. cc }
  or_not_found-Yields pubkey (some dms) = record {
    yields = λ w d h. ground (arith, h, eq_iff dms.creator_pubkey pubkey);
  }

  -- a row of the owner, by its identifier
  pub own_dms-Yields :
      (dms_id pubkey : String) (db : Db)
      → Yields
          (λ d. find_dms d.id db.switches ≡ some d × d.creator_pubkey ≡ pubkey)
          (own_dms dms_id pubkey db)
  unfolding own_dms load_dms_for_owner
  own_dms-Yields dms_id pubkey db =
      Yields-bind (parse_dms_id dms_id) (λ id. load_dms_for_owner id pubkey db) (Yields-any _)
        (λ id _. record {
          yields = λ w d h.
              let (found, mine) =
                (or_not_found-Yields pubkey (find_dms id db.switches)).yields w d h in
              (ap (λ i. find_dms i db.switches) (find_dms-id id db.switches d found) ∙ found, mine);
        })

  -- a row of the table in place of another
  put-AreSound :
      (d : Dms) (db : Db)
      → IsSound d
      → AreSound db
      → AreSound (record db { switches = put_dms d db.switches })
  put-AreSound d db p a = All-put_dms d db.switches p a

  check_in_row-Yields :
      (db : Db) (d : Dms)
      → find_dms d.id db.switches ≡ some d
      → AreSound db
      → Yields (λ out. AreSound out.1) (check_in_row db d)
  unfolding check_in_row
  check_in_row-Yields db d here a =
      Yields-bind {A = Unit {0}} (raise_if (not (is_armed d.status)) _)
        (λ _. gets (λ w. w.now) >>= checked_in d db) (Yields-any _)
        (λ _ _.
          Yields-gets (λ w. w.now) (checked_in d db)
            (λ now. Yields-pure _ (
              put-AreSound _ db (checked-IsSound now d (All-find_dms d.id db.switches d a here))
                a)))

  pub check_in-Yields :
      (settings : Settings) (dms_id pubkey : String) (db : Db)
      → AreSound db
      → Yields (λ out. AreSound out.1) (check_in settings dms_id pubkey db)
  unfolding check_in check_in_by
  check_in-Yields settings dms_id pubkey db a =
      Yields-bind (signed_checkin_enforced settings pubkey) (check_in_by dms_id pubkey db)
        (Yields-any _)
        (λ enforced _.
          Yields-bind (raise_if enforced _) (λ _. own_dms dms_id pubkey db >>= check_in_row db)
            (Yields-any _)
            (λ _ _.
              Yields-bind (own_dms dms_id pubkey db) (check_in_row db)
                (own_dms-Yields dms_id pubkey db) (λ d p. check_in_row-Yields db d p.0 a)))

  pub bump-AreSound :
      (pubkey : String) (now : ℕ) (db : Db) → AreSound db → AreSound (bump_check_in pubkey now db).1
  unfolding bump_check_in
  bump-AreSound pubkey now db a =
      All-map (bumped pubkey now) db.switches (bumped-IsSound pubkey now) a

  module _ ⦃E : Ed25519⦄ where
    pub check_in_signed-Yields :
        (body : SignedCheckIn) (pubkey : String) (db : Db)
        → AreSound db
        → Yields (λ out. AreSound out.1) (check_in_signed body pubkey db)
    unfolding check_in_signed check_in_signed_at
    check_in_signed-Yields body pubkey db a =
        Yields-gets (λ w. w.now) (check_in_signed_at body pubkey db)
          (λ now.
            Yields-bind (check_signed body pubkey now) (λ _. signed_in pubkey db now) (Yields-any _)
              (λ _ _.
                Yields-bind (remember_signed_checkin pubkey)
                  (λ _.
                    pure (((bump_check_in pubkey now db).0, now), (bump_check_in pubkey now db).1))
                  (Yields-any _) (λ _ _. Yields-pure _ (bump-AreSound pubkey now db a))))

    cancelled-IsSound :
        (d : Dms) (now : ℕ)
        → d.status ≡ armed
        → IsSound d
        → IsSound (record d { status = cancelled; cancelled_at = some now; payload_encrypted = "" })
    unfolding is_sound
    cancelled-IsSound d now is h =
        let good = simp is at h.sound in record { sound = ground (arith, good) }

    cancel_by_status-Yields :
        (settings : Settings) (pubkey : String) (proof : Option Proof) (d : Dms) (s : Status)
        (db : Db)
        → d.status ≡ s
        → IsSound d
        → AreSound db
        → Yields (λ out. AreSound out.1) (cancel_by_status settings pubkey proof d s db)
    unfolding cancel_armed
    cancel_by_status-Yields settings pubkey proof d triggered db is p a = Yields-pure _ a
    cancel_by_status-Yields settings pubkey proof d cancelled db is p a = Yields-pure _ a
    cancel_by_status-Yields settings pubkey proof d armed db is p a =
        Yields-bind
          (enforce_sensitive_action settings.action_proof_required settings.relay_name "dms_cancel"
            pubkey d.id proof)
          (λ _. gets (λ w. w.now) >>= scrubbed d db) (Yields-any _)
          (λ _ _.
            Yields-gets (λ w. w.now) (scrubbed d db)
              (λ now. Yields-pure _ (put-AreSound _ db (cancelled-IsSound d now is p) a)))

    pub cancel_dms-Yields :
        (settings : Settings) (dms_id pubkey : String) (proof : Option Proof) (db : Db)
        → AreSound db
        → Yields (λ out. AreSound out.1) (cancel_dms settings dms_id pubkey proof db)
    unfolding cancel_dms
    cancel_dms-Yields settings dms_id pubkey proof db a =
        Yields-bind (own_dms dms_id pubkey db)
          (λ d. cancel_by_status settings pubkey proof d d.status db)
          (own_dms-Yields dms_id pubkey db)
          (λ d p.
            cancel_by_status-Yields settings pubkey proof d d.status db refl
              (All-find_dms d.id db.switches d a p.0) a)
