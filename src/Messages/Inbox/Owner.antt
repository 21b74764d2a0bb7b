-- ===== src/Messages/Inbox/Owner.antt =====
-- Who gets the bytes of an envelope, and what the list of a request is read as.
use morok_relay.Prelude.{
  ℕ, String, Bool, true, not, ◌&&◌, some, List, [], ◌∷◌, elem, ◌≡◌, refl, ap, ◌∙◌, arith,
  Bool-cases, Option-cases, inl, inr, eq_iff,
}
use morok_relay.Redis.{Key, Redis}
use morok_relay.Redis.Sets.{zscore}
use morok_relay.Redis.Pipeline.{zset_at}
use morok_relay.Exec.{World, ok, calm, call}
use morok_relay.Blob.{Disk, file, read_blob, is_blob_id}
use morok_relay.Queue.Inbox.{is_envelope_in_inbox, is_some}
use morok_relay.Messages.{is_envelope_id}
use morok_relay.Messages.Inbox.{without_repeats, get_envelope_blob}

module _ ⦃R : Redis⦄ where
  -- With the connection up, the bytes that a user gets are those of the file of an envelope that
  -- stands in the user's own inbox, and nothing changes.
  pub get_envelope_blob-own :
      (s : R.Store) (t : ℕ) (d : Disk) (k : String → Bool) (pubkey envelope_id blob : String)
      (w' : World)
      → get_envelope_blob pubkey envelope_id (calm s t d k) ≡ (ok blob, w')
      → (is_some (zscore envelope_id (zset_at (Key.inbox pubkey) s)) ≡ true)
        × (file envelope_id d ≡ some blob)
        × (w' ≡ calm s t d k)
  unfolding get_envelope_blob is_envelope_in_inbox call read_blob
  get_envelope_blob-own s t d k pubkey envelope_id blob w' h =
      elim (Bool-cases (is_envelope_id envelope_id)) [
        | inr e ↦ absurd (ground arith)
        | inl e ↦ elim (Bool-cases (is_some (zscore envelope_id (zset_at (Key.inbox pubkey) s)))) [
          | inr m ↦ absurd (ground arith)
          | inl m ↦ elim (Bool-cases (is_blob_id envelope_id)) [
            | inr b ↦ absurd (ground arith)
            | inl b ↦ elim (Option-cases (file envelope_id d)) [
              | inl f ↦ absurd (ground arith)
              | inr (found, f) ↦
                  let r = simp (e, m, b, f) at h in
                  let same : found ≡ blob = cc in
                  let kept : w' ≡ calm s t d k = cc in (m, f ∙ ap some same, kept)
            ]
          ]
        ]
      ]

-- The list without repeats has the same members.
without_repeats_lem :
    (seen xs : List String) (x : String)
    → elem x (without_repeats seen xs) ≡ (elem x xs && not (elem x seen))
unfolding without_repeats
without_repeats_lem seen [] x = refl
without_repeats_lem seen (y ∷ xs) x =
    ground (arith, eq_iff y x, without_repeats_lem seen xs x, without_repeats_lem (y ∷ seen) xs x)
