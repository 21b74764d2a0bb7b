-- ===== src/Queue/Delete/Authority.antt =====
-- Who may delete an envelope, and what a refusal leaves.
use morok_relay.Prelude.{
  ℕ, String, ◌≡◌, refl, ap, inl, inr, Bool, true, false, Option, none, some, arith, eq_iff, eq_refl,
  Option-cases,
}
use morok_relay.Prelude.Json.{Json, lookup, is_text, truthy, str}
use morok_relay.Redis.{Key, Payload, Redis, text, gone}
use morok_relay.Redis.Pipeline.{get, zset_at, run_all, at-run_all}
use morok_relay.Redis.Sets.{zscore, zscore-zremove}
use morok_relay.Exec.{World, Outcome, ok, call, calm}
use morok_relay.Blob.{Disk}
use morok_relay.Queue.Model.{Sha256, sender_tombstone_value}
use morok_relay.Queue.Delete.{
  DeleteError, Deleted, refused, check_meta, check_tombstone, loads_or_empty,
  delete_envelope_by_sender, sender_delete_commands,
}

-- what the checks of `delete_envelope_by_sender` say of a store
abbrev pub verdict :
    ⦃H : Sha256⦄ → Option Payload → Option Payload → String → String → Option DeleteError
verdict (some raw) tomb caller recipient = check_meta (loads_or_empty raw) caller recipient
verdict none tomb caller recipient = check_tombstone tomb caller recipient

-- the sender of the metadata, or the pair that the tombstone commits to
abbrev pub IsAuthorised : ⦃H : Sha256⦄ → Option Payload → Option Payload → String → String → Type 0
IsAuthorised (some raw) tomb caller recipient =
    (lookup "from" (loads_or_empty raw) ≡ some (str caller))
    × (lookup "to" (loads_or_empty raw) ≡ some (str recipient))
    × (truthy (lookup "group_id" (loads_or_empty raw)) ≡ false)
IsAuthorised none tomb caller recipient =
    tomb ≡ some (text (sender_tombstone_value caller recipient))

pub is_text_iff : (o : Option Json) (t : String) → is_text o t ≡ true → o ≡ some (str t)
is_text_iff (some (str s)) t h = ap (λ x. some (str x)) ((eq_iff s t).0 h)
is_text_iff _ t h = cc

verdict-IsAuthorised :
    ⦃H : Sha256⦄ (raw tomb : Option Payload) (c r : String)
    → verdict raw tomb c r ≡ none
    → IsAuthorised raw tomb c r
unfolding check_meta check_tombstone
verdict-IsAuthorised (some raw) tomb c r h = ground (
  arith,
  is_text_iff (lookup "from" (loads_or_empty raw)) c,
  is_text_iff (lookup "to" (loads_or_empty raw)) r,
)
verdict-IsAuthorised none (some (text tomb)) c r h =
    ground (arith, eq_iff tomb (sender_tombstone_value c r))
verdict-IsAuthorised none _ c r h = ground arith

module _ ⦃R : Redis⦄ ⦃H : Sha256⦄ (id caller recipient : String) (s : R.Store) (t : ℕ) (d : Disk)
    (k : String → Bool) where
  abbrev meta : Option Payload
  meta = get (Key.envelope id) s

  abbrev tombstone : Option Payload
  tombstone = get (Key.env_tomb id) s

  -- How a call of `delete_envelope_by_sender` ends.
  pub data Decided (r : Outcome Deleted × World) : Type 0 where
    refuses :
        (b : Bool) (e : DeleteError)
        → verdict meta tombstone caller recipient ≡ some e
        → r ≡ (ok (refused b e), calm s t d k)
        → Decided r
    deletes :
        (b found : Bool)
        → IsAuthorised meta tombstone caller recipient
        → r.0
          ≡ ok (record {
            accepted = true;
            deleted_from_queue = found;
            meta_existed = b;
            error = none;
          })
        → R.at r.1.db (Key.envelope id) ≡ gone
        → R.at r.1.db (Key.env_tomb id) ≡ gone
        → zscore id (zset_at (Key.inbox recipient) r.1.db) ≡ none
        → Decided r

  module _ (v : verdict meta tombstone caller recipient ≡ none) where
    authorised : IsAuthorised meta tombstone caller recipient
    authorised = verdict-IsAuthorised meta tombstone caller recipient v

    abbrev deleted : R.Store
    deleted = run_all (sender_delete_commands id caller recipient) s

    deleted_meta : R.at deleted (Key.envelope id) ≡ gone
    unfolding sender_delete_commands
    deleted_meta = simp (at-run_all, eq_refl)

    deleted_tombstone : R.at deleted (Key.env_tomb id) ≡ gone
    unfolding sender_delete_commands
    deleted_tombstone = simp (at-run_all, eq_refl)

    deleted_row : zscore id (zset_at (Key.inbox recipient) deleted) ≡ none
    unfolding sender_delete_commands
    deleted_row = simp (at-run_all, eq_refl, zscore-zremove)

  decide_meta :
      (raw : Payload) (o : Option DeleteError)
      → meta ≡ some raw
      → verdict (some raw) tombstone caller recipient ≡ o
      → Decided (delete_envelope_by_sender id caller recipient (calm s t d k))
  unfolding delete_envelope_by_sender call
  decide_meta raw none m v =
      let h : verdict meta tombstone caller recipient ≡ none = rw m v in
      rw (m, v)
        (deletes true _ (authorised h) refl (deleted_meta h) (deleted_tombstone h) (deleted_row h))
  decide_meta raw (some e) m v = rw (m, v) (refuses true e (rw m v) refl)

  decide_tombstone :
      (o : Option DeleteError)
      → meta ≡ none
      → verdict none tombstone caller recipient ≡ o
      → Decided (delete_envelope_by_sender id caller recipient (calm s t d k))
  unfolding delete_envelope_by_sender call
  decide_tombstone none m v =
      let h : verdict meta tombstone caller recipient ≡ none = rw m v in
      rw (m, v)
        (deletes false _ (authorised h) refl (deleted_meta h) (deleted_tombstone h) (deleted_row h))
  decide_tombstone (some e) m v = rw (m, v) (refuses false e (rw m v) refl)

  -- With the connection up a call is refused and changes nothing, or it was authorised, by the
  -- metadata or by the tombstone, and removes the metadata, the tombstone and the row.
  pub delete_envelope_by_sender-Decided :
      Decided (delete_envelope_by_sender id caller recipient (calm s t d k))
  delete_envelope_by_sender-Decided = elim (Option-cases meta) [
    | inl m ↦ decide_tombstone _ m refl
    | inr (raw, m) ↦ decide_meta raw _ m refl
  ]
