-- ===== src/Reaper.antt =====
-- scripts/reaper.py: the removal of the files of envelopes that are no longer queued.
pub mod Queued
pub mod Scan
use Prim.Native.String.{count}
use morok_relay.Prelude.{
  ℕ, ◌+◌, ◌-◌, String, Bool, true, false, ◌&&◌, Option, none, some, List, [], ◌∷◌, eqb, leb, length,
  max, if◌then◌else◌, suc,
}
use morok_relay.Redis.{Key, Redis, zrem}
use morok_relay.Redis.Sets.{ZSet}
use morok_relay.Redis.Pipeline.{exists, zset_at}
use morok_relay.Exec.{World, Exec, Outcome, ok, pure, gets, call, command, catch_all, ◌>>=◌, ◌>>◌}
use morok_relay.Blob.{Disk, all_hex, secure_delete_blob}

-- the counters of the two passes
pub record Stats : Type 0 where
  pub indexed_candidates : ℕ
  pub indexed_deleted : ℕ
  pub indexed_still_queued : ℕ
  pub indexed_errors : ℕ

pub record ScanStats : Type 0 where
  pub blobs_scanned : ℕ
  pub blobs_still_queued : ℕ
  pub blobs_deleted_delivered : ℕ
  pub blobs_deleted_aged_out : ℕ
  pub blob_errors : ℕ

-- how the attempt at one file ended
pub data Visit : Type 0 where
  still_queued deleted nothing_to_delete failed : Visit

abbrev pub counted : Stats → Visit → Stats
counted stats still_queued = record stats { indexed_still_queued = suc stats.indexed_still_queued }
counted stats deleted = record stats { indexed_deleted = suc stats.indexed_deleted }
counted stats nothing_to_delete = stats
counted stats failed = record stats { indexed_errors = suc stats.indexed_errors }

-- ZRANGEBYSCORE index 0 now
unfoldable pub expired_members : ℕ → ZSet → List String
expired_members now [] = []
expired_members now ((m, x) ∷ z) =
    let rest = expired_members now z in if leb x now then m ∷ rest else rest

-- the names that `_iter_blob_paths` yields: 64 hex digits
unfoldable pub is_blob_name : String → Bool
unfolding all_hex
is_blob_name name = eqb (count name) 64 && all_hex name

unfoldable pub blob_names : Disk → List String
unfolding is_blob_name
blob_names [] = []
blob_names ((name, contents) ∷ d) =
    let rest = blob_names d in if is_blob_name name then name ∷ rest else rest

-- the age limit of the full scan
abbrev pub hard_age_limit : ℕ → ℕ → ℕ
hard_age_limit message_ttl mail_ttl = max message_ttl mail_ttl + 86400

module _ ⦃R : Redis⦄ where
  abbrev pub visited : Bool → Visit
  visited true = deleted
  visited false = nothing_to_delete

  abbrev pub delete_unless : String → Bool → Exec Visit
  delete_unless envelope_id true = pure still_queued
  delete_unless envelope_id false = secure_delete_blob envelope_id >>= λ gone. pure (visited gone)

  -- the `try` of both loops: the queue is asked, then the file removed
  unfoldable pub visit : String → Exec Visit
  visit envelope_id =
      catch_all (call (λ s. (exists (Key.envelope envelope_id) s, s)) >>= delete_unless envelope_id)
        (pure failed)

  -- the `finally`
  unfoldable pub forget : String → Exec (Unit {0})
  forget envelope_id = catch_all (command (zrem Key.blob_expiry_index envelope_id)) (pure tt)

  unfoldable pub reap_candidates : List String → Stats → Exec Stats
  unfolding visit forget
  reap_candidates [] stats = pure stats
  reap_candidates (envelope_id ∷ ids) stats = do
    seen ← visit envelope_id
    forget envelope_id
    reap_candidates ids (counted stats seen)

  abbrev pub reap_found : List String → Exec Stats
  reap_found candidates = reap_candidates candidates (record {
    indexed_candidates = length candidates;
    indexed_deleted = 0;
    indexed_still_queued = 0;
    indexed_errors = 0;
  })

  abbrev pub read_index : ℕ → Exec (List String)
  read_index now = call (λ s. (expired_members now (zset_at Key.blob_expiry_index s), s))

  unfoldable pub reap_blobs_indexed : Exec Stats
  unfolding reap_candidates expired_members
  reap_blobs_indexed = gets (λ w. w.now) >>= λ now. read_index now >>= reap_found

  -- `mtime` is when the file was written, `limit` the age limit: the age chooses the counter only
  abbrev pub scanned : ℕ → ℕ → ℕ → ScanStats → Visit → ScanStats
  scanned now limit mtime stats still_queued = record stats {
    blobs_scanned = suc stats.blobs_scanned;
    blobs_still_queued = suc stats.blobs_still_queued;
  }
  scanned now limit mtime stats deleted =
      if leb now (mtime + limit)
      then record stats {
        blobs_scanned = suc stats.blobs_scanned;
        blobs_deleted_delivered = suc stats.blobs_deleted_delivered;
      }
      else record stats {
        blobs_scanned = suc stats.blobs_scanned;
        blobs_deleted_aged_out = suc stats.blobs_deleted_aged_out;
      }
  scanned now limit mtime stats nothing_to_delete = record stats {
    blobs_scanned = suc stats.blobs_scanned;
  }
  scanned now limit mtime stats failed = record stats {
    blobs_scanned = suc stats.blobs_scanned;
    blob_errors = suc stats.blob_errors;
  }

  unfoldable pub scan_names : (String → ℕ) → ℕ → ℕ → List String → ScanStats → Exec ScanStats
  unfolding visit
  scan_names mtime limit now [] stats = pure stats
  scan_names mtime limit now (name ∷ names) stats = do
    seen ← visit name
    scan_names mtime limit now names (scanned now limit (mtime name) stats seen)

  abbrev pub no_scan : ScanStats
  no_scan = record {
    blobs_scanned = 0;
    blobs_still_queued = 0;
    blobs_deleted_delivered = 0;
    blobs_deleted_aged_out = 0;
    blob_errors = 0;
  }

  unfoldable pub reap_blobs_full_scan : (String → ℕ) → ℕ → ℕ → Exec ScanStats
  unfolding scan_names blob_names
  reap_blobs_full_scan mtime message_ttl mail_ttl = gets (λ w. w.now) >>= λ now.
      gets (λ w. blob_names w.disk) >>= λ names.
      scan_names mtime (hard_age_limit message_ttl mail_ttl) now names no_scan
