-- ===== src/Queue/Ack/Outcomes.antt =====
-- `acknowledge_envelope` with the connection up: the reply and the world on each of its branches.
use morok_relay.Prelude.{
  ℕ, ◌<◌, String, ◌≡◌, Bool, true, false, none, some, arith, eq_refl, Option-cases, if◌then◌else◌,
}
use morok_relay.Redis.{Key, Redis, text, set, zrem, srem, del}
use morok_relay.Redis.Pipeline.{◌▸◌, exists, zset_at, members_at}
use morok_relay.Redis.Sets.{card, zscore, sremove}
use morok_relay.Exec.{ok, call, calm}
use morok_relay.Blob.{Disk, file, unlink, is_file, is_blob_id, secure_delete_blob, file-unlink}
use morok_relay.Queue.Model.{delivery_tombstone_ttl_seconds}
use morok_relay.Queue.Scripts.{untracked, waiting, last, ack_pending_lua}
use morok_relay.Queue.Ack.{acknowledge_envelope, delete_blob_after_last_ack}

-- the directory after `secure_delete_blob`
pub shredded : String → (String → Bool) → Disk → Disk
shredded id k d =
    if is_blob_id id
    then (if is_file (file id d) then (if k id then d else unlink id d) else d)
    else d

-- The file is gone, for an id that names files and a file that the system lets go.
pub file-shredded :
    (id : String) (k : String → Bool) (d : Disk)
    → is_blob_id id ≡ true
    → k id ≡ false
    → file id (shredded id k d) ≡ none
unfolding shredded
file-shredded id k d valid well =
    ground (arith, file-unlink id id d, eq_refl id, Option-cases (file id d))

pub delete_blob_lem :
    ⦃R : Redis⦄ (id : String) (s : R.Store) (t : ℕ) (d : Disk) (k : String → Bool)
    → delete_blob_after_last_ack id (calm s t d k) ≡ (ok tt, calm s t (shredded id k d) k)
unfolding delete_blob_after_last_ack secure_delete_blob shredded
delete_blob_lem id s t d k = ground arith

module _ ⦃R : Redis⦄ (r id : String) (s : R.Store) (t : ℕ) (d : Disk) (k : String → Bool) where
  abbrev pub marked : R.Store
  marked =
      s
      ▸ zrem (Key.inbox r) id
      ▸ set (Key.delivered id r) (text "1") (some delivery_tombstone_ttl_seconds)

  pub ack_absent :
      zscore id (zset_at (Key.inbox r) s) ≡ none
      → acknowledge_envelope r id (calm s t d k)
        ≡ (ok false, calm (s ▸ zrem (Key.inbox r) id) t d k)
  unfolding acknowledge_envelope call
  ack_absent absent = rw absent

  script_untracked :
      exists (Key.pending id) s ≡ false
      → ack_pending_lua (Key.pending id) (Key.envelope id) r marked ≡ (untracked, marked)
  unfolding ack_pending_lua
  script_untracked h = simp (R.at_run, h)

  script_last :
      exists (Key.pending id) s ≡ true
      → card (sremove r (members_at (Key.pending id) s)) ≡ 0
      → ack_pending_lua (Key.pending id) (Key.envelope id) r marked
        ≡ (last, marked ▸ srem (Key.pending id) r ▸ del (Key.pending id) ▸ del (Key.envelope id))
  unfolding ack_pending_lua
  script_last h none_left = simp (R.at_run, h, eq_refl, none_left)

  script_waiting :
      exists (Key.pending id) s ≡ true
      → 0 < card (sremove r (members_at (Key.pending id) s))
      → ack_pending_lua (Key.pending id) (Key.envelope id) r marked
        ≡ (waiting, marked ▸ srem (Key.pending id) r)
  unfolding ack_pending_lua
  script_waiting h left = simp (R.at_run, h, eq_refl) (ground arith)

  module _ {x : ℕ} (there : zscore id (zset_at (Key.inbox r) s) ≡ some x) where
    pub ack_untracked :
        exists (Key.pending id) s ≡ false
        → acknowledge_envelope r id (calm s t d k) ≡ (ok true, calm marked t d k)
    unfolding acknowledge_envelope call
    ack_untracked h = rw (there, script_untracked h)

    pub ack_waiting :
        exists (Key.pending id) s ≡ true
        → 0 < card (sremove r (members_at (Key.pending id) s))
        → acknowledge_envelope r id (calm s t d k)
          ≡ (ok true, calm (marked ▸ srem (Key.pending id) r) t d k)
    unfolding acknowledge_envelope call
    ack_waiting h left = rw (there, script_waiting h left)

    pub ack_last :
        exists (Key.pending id) s ≡ true
        → card (sremove r (members_at (Key.pending id) s)) ≡ 0
        → acknowledge_envelope r id (calm s t d k) ≡ (
          ok true,
          calm
              (marked ▸ srem (Key.pending id) r ▸ del (Key.pending id) ▸ del (Key.envelope id))
              t
              (shredded id k d)
              k,
        )
    unfolding acknowledge_envelope call
    ack_last h none_left = rw (there, script_last h none_left, delete_blob_lem id _ t d k)
