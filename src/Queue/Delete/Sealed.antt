-- ===== src/Queue/Delete/Sealed.antt =====
-- Who may delete an envelope whose sender the relay does not know.
use morok_relay.Prelude.{
  ℕ, String, ◌≡◌, refl, inl, inr, Bool, true, false, Option, none, some, arith, eq_refl,
  Option-cases,
}
use morok_relay.Prelude.Json.{Json, Dict, str, lookup, truthy}
use morok_relay.Redis.{Key, Redis, gone}
use morok_relay.Redis.Pipeline.{get, zset_at, run_all, at-run_all}
use morok_relay.Redis.Sets.{zscore, zscore-zremove}
use morok_relay.Exec.{World, Outcome, ok, call, calm}
use morok_relay.Blob.{Disk}
use morok_relay.Queue.Model.{Sha256}
use morok_relay.Queue.Inbox.{loads}
use morok_relay.Queue.Delete.{
  DeleteError, Deleted, refused, hash_matches, check_sealed, recipient_of, sealed_delete_commands,
  delete_sealed_envelope,
}
use morok_relay.Queue.Delete.Authority.{is_text_iff}

-- the preimage of the hash that the metadata of a sealed envelope carries
pub record HoldsKey ⦃H : Sha256⦄ (meta : Option Dict) (key : String) : Type 0 where
  pub stored : Dict
  pub found : meta ≡ some stored
  pub is_sealed : truthy (lookup "sealed" stored) ≡ true
  pub digest : String
  pub hashed : H.of_hex key ≡ some digest
  pub committed : lookup "delete_key_hash" stored ≡ some (str digest)

module _ ⦃R : Redis⦄ ⦃H : Sha256⦄ where
  hash_matches_lem :
      (o : Option String) (stored : Option Json)
      → hash_matches o stored ≡ true
      → (h : String) × (o ≡ some h) × (stored ≡ some (str h))
  hash_matches_lem none stored h = cc
  hash_matches_lem (some p) stored h = (p, refl, is_text_iff stored p h)

  check_sealed-HoldsKey :
      (meta : Option Dict) (key : String) → check_sealed meta key ≡ none → HoldsKey meta key
  unfolding check_sealed
  check_sealed-HoldsKey none key h = cc
  check_sealed-HoldsKey (some m) key h =
      let (p, hashed, committed) =
        hash_matches_lem (H.of_hex key) (lookup "delete_key_hash" m) (ground arith) in
      record {
        stored = m;
        found = refl;
        is_sealed = ground arith;
        digest = p;
        hashed = hashed;
        committed = committed;
      }

module _ ⦃R : Redis⦄ ⦃H : Sha256⦄ (id key : String) (s : R.Store) (t : ℕ) (d : Disk)
    (k : String → Bool) where
  abbrev meta : Option Dict
  meta = loads (get (Key.envelope id) s)

  -- How a call of `delete_sealed_envelope` ends.
  pub data SealedDecided (r : Outcome Deleted × World) : Type 0 where
    keeps :
        (e : DeleteError)
        → check_sealed meta key ≡ some e
        → r ≡ (ok (refused false e), calm s t d k)
        → SealedDecided r
    erases :
        (found : Bool)
        → HoldsKey meta key
        → r.0
          ≡ ok (record {
            accepted = true;
            deleted_from_queue = found;
            meta_existed = false;
            error = none;
          })
        → R.at r.1.db (Key.envelope id) ≡ gone
        → zscore id (zset_at (Key.inbox (recipient_of meta)) r.1.db) ≡ none
        → SealedDecided r

  abbrev erased : R.Store
  erased = run_all (sealed_delete_commands id (recipient_of meta)) s

  erased_meta : R.at erased (Key.envelope id) ≡ gone
  unfolding sealed_delete_commands
  erased_meta = simp (at-run_all, eq_refl)

  erased_row : zscore id (zset_at (Key.inbox (recipient_of meta)) erased) ≡ none
  unfolding sealed_delete_commands
  erased_row = simp (at-run_all, eq_refl, zscore-zremove)

  -- With the connection up a call is refused and changes nothing, or its key hashes to the value
  -- that the metadata of the sealed envelope carries, and the metadata and the row are removed.
  pub delete_sealed_envelope-SealedDecided :
      SealedDecided (delete_sealed_envelope id key (calm s t d k))
  unfolding delete_sealed_envelope call
  delete_sealed_envelope-SealedDecided = elim (Option-cases (check_sealed meta key)) [
    | inl h ↦ rw h (erases _ (check_sealed-HoldsKey meta key h) refl erased_meta erased_row)
    | inr (e, h) ↦ rw h (keeps e h refl)
  ]
