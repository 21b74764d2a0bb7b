-- ===== src/Tests/Reaper.antt =====
-- The passes over the files at concrete inputs.
use morok_relay.Prelude.{ℕ, String, ◌≡◌, refl, true, none, some, [], ◌∷◌}
use morok_relay.Redis.{Key, document, set}
use morok_relay.Redis.Memory.{Memory, blank}
use morok_relay.Exec.{World, calm, lost_request}
use morok_relay.Blob.{Disk, file}
use morok_relay.Reaper.{reap_blobs_indexed, reap_blobs_full_scan, is_blob_name}
use morok_relay.Reaper.Queued.{reap_blobs-IsKept}
use morok_relay.Reaper.Scan.{full_scan-removes}
use morok_relay.Tests.Fixtures.{server, healthy}

abbrev digest : String
digest = "0123456789abcdef0123456789abcdef0123456789abcdef0123456789abcdef"

abbrev one_file : Disk
one_file = (digest, "c1fe7") ∷ []

-- every file is written at the time 1000
abbrev written : String → ℕ
written name = 1000

abbrev queued : Memory
queued = server.run (set (Key.envelope digest) (document []) (some 3600)) blank

-- the network loses the first request
abbrev shaky : World
shaky = record (calm queued 99000 one_file healthy) { net = lost_request ∷ [] }

reap_blobs-IsKept_example :
    file digest (reap_blobs_indexed shaky).1.disk ≡ file digest one_file
    × file digest (reap_blobs_full_scan written 86400 604800 shaky).1.disk ≡ file digest one_file
reap_blobs-IsKept_example = reap_blobs-IsKept digest written 86400 604800 shaky refl

digest_is_name : is_blob_name digest ≡ true
unfolding is_blob_name
digest_is_name = refl

file_is_there : file digest one_file ≡ some "c1fe7"
unfolding file
file_is_there = refl

full_scan-removes_example :
    file digest
      (reap_blobs_full_scan written 86400 604800 (calm blank 1000 one_file healthy)).1.disk
    ≡ none
full_scan-removes_example =
    full_scan-removes blank 1000 healthy digest "c1fe7" written 86400 604800 one_file refl
      digest_is_name file_is_there refl
