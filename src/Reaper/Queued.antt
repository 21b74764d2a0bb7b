-- ===== src/Reaper/Queued.antt =====
-- The passes leave the files of queued envelopes, and remove the others.
use morok_relay.Prelude.{
  ℕ, String, ◌≡◌, refl, ◌∙◌, inl, inr, Bool, true, false, Option, List, [], ◌∷◌, arith, ◌==◌,
  eq_iff, Bool-cases,
}
use morok_relay.Redis.{Key, Redis, zrem}
use morok_relay.Redis.Pipeline.{◌▸◌, exists, zset_at}
use morok_relay.Exec.{
  World, Net, up, lost_request, lost_reply, Exec, Outcome, ok, raised, pure, call, answer, continue,
  handled, ◌>>=◌, ◌>>◌,
}
use morok_relay.Blob.{file, file-unlink, secure_delete_blob}
use morok_relay.Reaper.{
  ScanStats, scanned, expired_members, blob_names, hard_age_limit, no_scan, Stats, failed,
  delete_unless, visit, forget, counted, reap_candidates, reap_found, read_index,
  reap_blobs_indexed, scan_names, reap_blobs_full_scan,
}

module _ ⦃R : Redis⦄ (id : String) where
  -- the envelope is queued, and its file is `f`
  pub record IsKept (f : Option String) (w : World) : Type 0 where
    pub queued : exists (Key.envelope id) w.db ≡ true
    pub file_is : file id w.disk ≡ f

  delete_unless-db : (e : String) (w : World) → (delete_unless e false w).1.db ≡ w.db
  unfolding secure_delete_blob
  delete_unless-db e w = ground arith

  delete_unless-file :
      (e : String) (w : World)
      → (e == id) ≡ false
      → file id (delete_unless e false w).1.disk ≡ file id w.disk
  unfolding secure_delete_blob
  delete_unless-file e w other = ground (arith, other, file-unlink e id w.disk)

  module _ (f : Option String) where
    handled-IsKept :
        {A : Type 0} (a : A) (r : Outcome A) (w : World)
        → IsKept f w
        → IsKept f (handled (pure a) r w).1
    handled-IsKept a (ok b) w k = k
    handled-IsKept a (raised e) w k = k

    -- the file of another envelope
    other_deleted :
        (e : String) (w : World)
        → (e == id) ≡ false
        → IsKept f w
        → IsKept f (delete_unless e false w).1
    other_deleted e w other k = record {
      queued = rw (delete_unless-db e w) k.queued;
      file_is = delete_unless-file e w other ∙ k.file_is;
    }

    asked :
        (e : String) (b : Bool) (w : World)
        → b ≡ exists (Key.envelope e) w.db
        → IsKept f w
        → IsKept f (delete_unless e b w).1
    asked e true w h k = k
    asked e false w h k = elim (Bool-cases (e == id)) [
      | inl this ↦
          let same : e ≡ id = (eq_iff e id).0 this in
          let there = k.queued in
          let there' : exists (Key.envelope e) w.db ≡ true = rw same there in absurd cc
      | inr other ↦ other_deleted e w other k
    ]

    moved : (n : List Net) (w : World) → IsKept f w → IsKept f (record w { net = n })
    moved n w k = record { queued = k.queued; file_is = k.file_is }

    unindexed :
        (e : String) (n : List Net) (w : World)
        → IsKept f w
        → IsKept f (record w { db = w.db ▸ zrem Key.blob_expiry_index e; net = n })
    unindexed e n w k = record {
      queued = rw (R.at_run (zrem Key.blob_expiry_index e) w.db (Key.envelope id)) k.queued;
      file_is = k.file_is;
    }

    visited-IsKept :
        (e : String) (n : List Net) (w : World)
        → IsKept f w
        → IsKept f
            (let (r, w') = answer n (exists (Key.envelope e) w.db, w.db) w in
              let (r', w'') = continue (delete_unless e) r w' in handled (pure failed) r' w'').1
    unfolding answer
    visited-IsKept e [] w k = handled-IsKept failed _ _ (asked e _ w refl k)
    visited-IsKept e (up ∷ n) w k =
        handled-IsKept failed _ _ (asked e _ (record w { net = n }) refl (moved n w k))
    visited-IsKept e (lost_request ∷ n) w k = moved n w k
    visited-IsKept e (lost_reply ∷ n) w k = moved n w k

    forgotten-IsKept :
        (e : String) (n : List Net) (w : World)
        → IsKept f w
        → IsKept f
            (let (r, w') = answer n (tt, w.db ▸ zrem Key.blob_expiry_index e) w in
              handled (pure tt) r w').1
    unfolding answer
    forgotten-IsKept e [] w k = unindexed e w.net w k
    forgotten-IsKept e (up ∷ n) w k = unindexed e n w k
    forgotten-IsKept e (lost_request ∷ n) w k = moved n w k
    forgotten-IsKept e (lost_reply ∷ n) w k = unindexed e n w k

    continue-IsKept :
        {A B : Type 0} (next : A → Exec B) (r : Outcome A) (w : World)
        → ((a : A) (v : World) → IsKept f v → IsKept f (next a v).1)
        → IsKept f w
        → IsKept f (continue next r w).1
    continue-IsKept next (ok a) w rest k = rest a w k
    continue-IsKept next (raised e) w rest k = k

    IsKept-bind :
        {A B : Type 0} (m : Exec A) (next : A → Exec B)
        → ((v : World) → IsKept f v → IsKept f (m v).1)
        → ((a : A) (v : World) → IsKept f v → IsKept f (next a v).1)
        → (w : World) → IsKept f w
        → IsKept f ((m >>= next) w).1
    IsKept-bind m next first rest w k =
        let (r, w') = m w in continue-IsKept next r w' rest (first w k)

    read-IsKept :
        (now : ℕ) (n : List Net) (w : World)
        → IsKept f w
        → IsKept f (answer n (expired_members now (zset_at Key.blob_expiry_index w.db), w.db) w).1
    unfolding answer
    read-IsKept now [] w k = k
    read-IsKept now (up ∷ n) w k = moved n w k
    read-IsKept now (lost_request ∷ n) w k = moved n w k
    read-IsKept now (lost_reply ∷ n) w k = moved n w k

    candidates-IsKept :
        (ids : List String) (stats : Stats) (w : World)
        → IsKept f w
        → IsKept f (reap_candidates ids stats w).1
    unfolding reap_candidates visit forget call
    candidates-IsKept [] stats w k = k
    candidates-IsKept (e ∷ ids) stats w k =
        IsKept-bind (visit e) (λ seen. forget e >> reap_candidates ids (counted stats seen))
          (λ v. visited-IsKept e v.net v)
          (λ seen.
            IsKept-bind (forget e) (λ _. reap_candidates ids (counted stats seen))
              (λ v. forgotten-IsKept e v.net v) (λ _. candidates-IsKept ids (counted stats seen)))
          w k

    names-IsKept :
        (mtime : String → ℕ) (limit now : ℕ) (names : List String) (stats : ScanStats) (w : World)
        → IsKept f w
        → IsKept f (scan_names mtime limit now names stats w).1
    unfolding scan_names visit call
    names-IsKept mtime limit now [] stats w k = k
    names-IsKept mtime limit now (e ∷ names) stats w k =
        IsKept-bind (visit e)
          (λ seen. scan_names mtime limit now names (scanned now limit (mtime e) stats seen))
          (λ v. visited-IsKept e v.net v)
          (λ seen. names-IsKept mtime limit now names (scanned now limit (mtime e) stats seen)) w k

    indexed-IsKept : (w : World) → IsKept f w → IsKept f (reap_blobs_indexed w).1
    unfolding reap_blobs_indexed call
    indexed-IsKept w k =
        IsKept-bind (read_index w.now) reap_found (λ v. read-IsKept w.now v.net v)
          (λ candidates. candidates-IsKept candidates _) w k

  -- Neither pass touches the file of a queued envelope: where the metadata is there at the start, both
  -- leave the file as it is, whatever the index lists, however old the file is, and whatever the
  -- network and the disk do.
  pub reap_blobs-IsKept :
      (mtime : String → ℕ) (message_ttl mail_ttl : ℕ) (w : World)
      → exists (Key.envelope id) w.db ≡ true
      → file id (reap_blobs_indexed w).1.disk ≡ file id w.disk
        × file id (reap_blobs_full_scan mtime message_ttl mail_ttl w).1.disk ≡ file id w.disk
  unfolding reap_blobs_full_scan
  reap_blobs-IsKept mtime message_ttl mail_ttl w there =
      let k : IsKept (file id w.disk) w = record { queued = there; file_is = refl } in
      (
        (indexed-IsKept (file id w.disk) w k).file_is,
        (names-IsKept (file id w.disk) mtime (hard_age_limit message_ttl mail_ttl) w.now
            (blob_names w.disk) no_scan w k).file_is,
      )
