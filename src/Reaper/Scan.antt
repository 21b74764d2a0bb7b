-- ===== src/Reaper/Scan.antt =====
-- The full scan removes every file whose envelope is not queued, a new one too.
use morok_relay.Prelude.{
  ℕ, String, ◌≡◌, refl, sym, ap, ◌∙◌, inl, inr, Bool, true, false, none, some, List, [], ◌∷◌, arith,
  ◌==◌, elem, eq_iff, eq_refl, Bool-cases,
}
use morok_relay.Redis.{Key, Redis}
use morok_relay.Redis.Pipeline.{exists}
use morok_relay.Exec.{ok, call, calm}
use morok_relay.Blob.{Disk, file, file-unlink, unlink, is_file, secure_delete_blob, is_blob_id}
use morok_relay.Reaper.{
  ScanStats, scanned, Visit, still_queued, deleted, nothing_to_delete, failed, visit, is_blob_name,
  blob_names, hard_age_limit, no_scan, scan_names, reap_blobs_full_scan,
}

blob_names-elem :
    (id c : String) (d : Disk)
    → file id d ≡ some c
    → is_blob_name id ≡ true
    → elem id (blob_names d) ≡ true
unfolding blob_names file
blob_names-elem id c [] h named = cc
blob_names-elem id c ((j, v) ∷ d) h named = elim (Bool-cases (j == id)) [
  | inl this ↦ rw ((eq_iff j id).0 this, named) (rw (eq_refl id) refl)
  | inr other ↦
      let rest = blob_names-elem id c d (ground (arith, h, other)) named in
      elim (Bool-cases (is_blob_name j)) [
        | inl named_so ↦ rw (named_so, other) rest
        | inr unnamed ↦ rw unnamed rest
      ]
]

blob_name-is_blob_id : (id : String) → is_blob_name id ≡ true → is_blob_id id ≡ true
unfolding is_blob_name is_blob_id
blob_name-is_blob_id id h = ground (arith, h)

module _ ⦃R : Redis⦄ (s : R.Store) (t : ℕ) (k : String → Bool) where
  -- the disk after an attempt at a file
  abbrev disk_after : String → Disk → Disk
  disk_after e d = (visit e (calm s t d k)).1.disk

  visit-calm :
      (e : String) (d : Disk)
      → (v : Visit) × ((d' : Disk) × visit e (calm s t d k) ≡ (ok v, calm s t d' k))
  unfolding visit secure_delete_blob call
  visit-calm e d = elim (Bool-cases (exists (Key.envelope e) s)) [
    | inl there ↦ (still_queued, (d, simp there))
    | inr away ↦ elim (Bool-cases (is_blob_id e)) [
      | inr wrong ↦ (failed, (d, simp (away, wrong)))
      | inl good ↦ elim (Bool-cases (is_file (file e d))) [
        | inr missing ↦ (nothing_to_delete, (d, simp (away, good, missing)))
        | inl found ↦ elim (Bool-cases (k e)) [
          | inl sick ↦ (nothing_to_delete, (d, simp (away, good, found, sick)))
          | inr well ↦ (deleted, (unlink e d, simp (away, good, found, well)))
        ]
      ]
    ]
  ]

  -- a file that is not there is not made
  none_stays : (id e : String) (d : Disk) → file id d ≡ none → file id (disk_after e d) ≡ none
  unfolding visit secure_delete_blob call
  none_stays id e d h = ground (arith, h, file-unlink e id d)

  visit-removes :
      (id : String) (d : Disk)
      → exists (Key.envelope id) s ≡ false
      → is_blob_id id ≡ true
      → k id ≡ false
      → file id (disk_after id d) ≡ none
  unfolding visit secure_delete_blob call
  visit-removes id d away good well =
      ground (arith, away, good, well, eq_refl id, file-unlink id id d)

  module _ (id : String) (mtime : String → ℕ) (limit : ℕ) where
    none_left :
        (names : List String) (stats : ScanStats) (d : Disk)
        → file id d ≡ none
        → file id (scan_names mtime limit t names stats (calm s t d k)).1.disk ≡ none
    unfolding scan_names
    none_left [] stats d h = h
    none_left (e ∷ names) stats d h =
        let (v, (d', same)) = visit-calm e d in
        let gone : file id d' ≡ none =
          ap (λ o. file id o.1.disk) (sym same) ∙ none_stays id e d h in
        rw same (none_left names (scanned t limit (mtime e) stats v) d' gone)

    scan-removes :
        (names : List String) (stats : ScanStats) (d : Disk)
        → exists (Key.envelope id) s ≡ false
        → is_blob_id id ≡ true
        → k id ≡ false
        → elem id names ≡ true
        → file id (scan_names mtime limit t names stats (calm s t d k)).1.disk ≡ none
    unfolding scan_names
    scan-removes [] stats d away good well listed = cc
    scan-removes (e ∷ names) stats d away good well listed =
        let (v, (d', same)) = visit-calm e d in
        elim (Bool-cases (e == id)) [
          | inl this ↦
              let is : e ≡ id = (eq_iff e id).0 this in
              let gone : file id d' ≡ none =
                ap (λ o. file id o.1.disk) (sym same)
                ∙ (ap (λ i. file id (disk_after i d)) is ∙ visit-removes id d away good well) in
              rw same (none_left names (scanned t limit (mtime e) stats v) d' gone)
          | inr other ↦ rw same (
              scan-removes names (scanned t limit (mtime e) stats v) d' away good well
                (ground (arith, listed, other)))
        ]

  -- With the connection up, the full scan removes the file of every envelope that has no metadata and
  -- whose file the operating system lets it remove, whatever the age of the file: a file that was
  -- written just now is removed, and so is one that waits for its metadata.
  pub full_scan-removes :
      (id c : String) (mtime : String → ℕ) (message_ttl mail_ttl : ℕ) (d : Disk)
      → exists (Key.envelope id) s ≡ false
      → is_blob_name id ≡ true
      → file id d ≡ some c
      → k id ≡ false
      → file id (reap_blobs_full_scan mtime message_ttl mail_ttl (calm s t d k)).1.disk ≡ none
  unfolding reap_blobs_full_scan
  full_scan-removes id c mtime message_ttl mail_ttl d away named there well =
      scan-removes id mtime (hard_age_limit message_ttl mail_ttl) (blob_names d) no_scan d away
        (blob_name-is_blob_id id named) well (blob_names-elem id c d there named)
