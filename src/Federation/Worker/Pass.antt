-- ===== src/Federation/Worker/Pass.antt =====
-- What a whole pass keeps of the outbound queue, and what it counts.
use morok_relay.Prelude.{
  ℕ, zero, suc, ◌+◌, ◌≤◌, ◌<◌, String, Bool, true, false, none, some, List, [], ◌∷◌, ◌≡◌, refl,
  length, take, leb, arith, Bool-cases, inl, inr, length-take-le, leb→le, not-leb→lt, ltb, ◌&&◌,
}
use morok_relay.Prelude.Json.{Dict, truthy, lookup}
use morok_relay.Sessions.Value.{Decimal}
use morok_relay.Federation.{
  FedQueueStatus, Outbound, pending, in_flight, succeeded, dead_letter, is_pending, is_in_flight,
}
use morok_relay.Federation.Worker.{
  Sent, failed, returned, object, not_object, Visit, Stats, max_attempts, batch_size, update,
  rowcount, recover_stuck_in_flight, place_by_time, due_by_time, fetch_pending_batch,
  mark_in_flight, mark_succeeded, mark_retry_or_dead, settle_sent, process_row, process_batch,
  run_once, no_stats, tally, counts_as, get, is_row, is_claimable, is_stuck, delivered,
}

-- What holds of a row at all times: a row to be sent has attempts left, a delivered one has lost
-- its payload, and a dead one has used up its eleven attempts.
abbrev pub SoundAs : FedQueueStatus → ℕ → Dict → Type 0
SoundAs pending attempts payload = attempts < max_attempts
SoundAs in_flight attempts payload = attempts < max_attempts
SoundAs succeeded attempts payload = payload ≡ []
SoundAs dead_letter attempts payload = attempts ≡ max_attempts

abbrev pub IsSound : Outbound → Type 0
IsSound r = SoundAs r.status r.attempts r.envelope_data

abbrev pub AllSound : List Outbound → Type 0
AllSound [] = Unit {0}
AllSound (r ∷ rows) = IsSound r × AllSound rows

-- rows to be sent, with attempts left
abbrev pub AllWaiting : List Outbound → Type 0
AllWaiting [] = Unit {0}
AllWaiting (r ∷ rows) = (r.attempts < max_attempts) × AllWaiting rows

and_left : (a b : Bool) → a && b ≡ true → a ≡ true
and_left true b h = refl
and_left false b h = h

and_right : (a b : Bool) → a && b ≡ true → b ≡ true
and_right true b h = h
and_right false b h = absurd (cc)

update-AllSound :
    (where_ : Outbound → Bool) (values : Outbound → Outbound)
    → ((r : Outbound) → where_ r ≡ true → IsSound r → IsSound (values r))
    → (rows : List Outbound) → AllSound rows
    → AllSound (update where_ values rows)
unfolding update
update-AllSound where_ values keeps [] h = tt
update-AllSound where_ values keeps (r ∷ rows) (s, h) = elim (Bool-cases (where_ r)) [
  | inl e ↦ simp e (keeps r e s, update-AllSound where_ values keeps rows h)
  | inr e ↦ simp e (s, update-AllSound where_ values keeps rows h)
]

sound_pending :
    (status : FedQueueStatus) (attempts : ℕ) (payload : Dict)
    → is_pending status ≡ true
    → SoundAs status attempts payload
    → attempts < max_attempts
sound_pending pending attempts payload p s = s
sound_pending in_flight attempts payload p s = s
sound_pending succeeded attempts payload p s = absurd (cc)
sound_pending dead_letter attempts payload p s = absurd (cc)

sound_in_flight :
    (status : FedQueueStatus) (attempts : ℕ) (payload : Dict)
    → is_in_flight status ≡ true
    → SoundAs status attempts payload
    → attempts < max_attempts
sound_in_flight pending attempts payload p s = s
sound_in_flight in_flight attempts payload p s = s
sound_in_flight succeeded attempts payload p s = absurd (cc)
sound_in_flight dead_letter attempts payload p s = absurd (cc)

recover-AllSound :
    (now : ℕ) (rows : List Outbound) → AllSound rows → AllSound (recover_stuck_in_flight now rows).1
unfolding recover_stuck_in_flight
recover-AllSound now rows =
    update-AllSound (is_stuck now) (λ r. record r { status = pending })
      (λ r e s. sound_in_flight r.status r.attempts r.envelope_data (and_left _ _ e) s) rows

place-AllWaiting :
    (r : Outbound) (rows : List Outbound)
    → r.attempts < max_attempts
    → AllWaiting rows
    → AllWaiting (place_by_time r rows)
unfolding place_by_time
place-AllWaiting r [] a h = (a, h)
place-AllWaiting r (x ∷ rows) a (b, h) = let ih = place-AllWaiting r rows a h in ground arith

due-AllWaiting :
    (now : ℕ) (rows : List Outbound) → AllSound rows → AllWaiting (due_by_time now rows)
unfolding due_by_time
due-AllWaiting now [] h = tt
due-AllWaiting now (r ∷ rows) (s, h) =
    let ih = due-AllWaiting now rows h in
    elim (Bool-cases (is_pending r.status)) [
      | inl e ↦ ground (
        arith,
        place-AllWaiting r (due_by_time now rows)
            (sound_pending r.status r.attempts r.envelope_data e s) ih,
      )
      | inr e ↦ ground arith
    ]

take-AllWaiting : (n : ℕ) (rows : List Outbound) → AllWaiting rows → AllWaiting (take n rows)
take-AllWaiting zero rows h = tt
take-AllWaiting (suc n) [] h = tt
take-AllWaiting (suc n) (r ∷ rows) (a, h) = (a, take-AllWaiting n rows h)

retry-AllSound :
    (now : ℕ) (row : Outbound) (error : String) (rows : List Outbound)
    → row.attempts < max_attempts
    → AllSound rows
    → AllSound (mark_retry_or_dead now row error rows)
unfolding mark_retry_or_dead
retry-AllSound now row error rows few h = elim (Bool-cases (leb max_attempts (row.attempts + 1))) [
  | inl e ↦ simp e (
      update-AllSound (is_row row) _
        (λ r _ s. omega (arith, few, leb→le max_attempts (row.attempts + 1) e)) rows h)
  | inr e ↦ simp e (
      update-AllSound (is_row row) _ (λ r _ s. not-leb→lt max_attempts (row.attempts + 1) e) rows h)
]

module _ ⦃D : Decimal⦄ where
  settle-AllSound :
      (now : ℕ) (row : Outbound) (sent : Sent) (rows : List Outbound)
      → row.attempts < max_attempts
      → AllSound rows
      → AllSound (settle_sent now row sent rows).1
  unfolding settle_sent mark_succeeded
  settle-AllSound now row (failed kind text) rows few h = retry-AllSound now row _ rows few h
  settle-AllSound now row (returned none) rows few h =
      retry-AllSound now row "remote_forward_returned_none" rows few h
  settle-AllSound now row (returned (some not_object)) rows few h = h
  settle-AllSound now row (returned (some (object result))) rows few h =
      elim (Bool-cases (truthy (lookup "accepted" result))) [
        | inl e ↦ simp e (update-AllSound (is_row row) (delivered now) (λ r _ s. refl) rows h)
        | inr e ↦ simp e (retry-AllSound now row _ rows few h)
      ]

  -- Whatever else has happened to the row since the worker read it, and whatever the other relay
  -- answers, a worker that read a row with attempts left keeps every row of the queue sound.
  pub process_row-AllSound :
      (visit : Visit) (row : Outbound) (rows : List Outbound)
      → row.attempts < max_attempts
      → AllSound rows
      → AllSound (process_row visit row rows).1
  unfolding process_row mark_in_flight
  process_row-AllSound visit row rows few h =
      let claimed =
        update-AllSound (is_claimable row)
          (λ r. record r { status = in_flight; next_attempt_at = visit.claimed_at })
          (λ r e s. sound_pending r.status r.attempts r.envelope_data (and_right _ _ e) s) rows h in
      elim (Bool-cases (ltb 0 (rowcount (is_claimable row) rows))) [
        | inl e ↦ simp e (
            settle-AllSound visit.settled_at row (visit.send row.target_relay row.envelope_data) _
              few claimed)
        | inr e ↦ simp e h
      ]

  batch-AllSound :
      (visits : ℕ → Visit) (n : ℕ) (batch : List Outbound) (stats : Stats) (rows : List Outbound)
      → AllWaiting batch
      → AllSound rows
      → AllSound (process_batch visits n batch stats rows).1
  unfolding process_batch
  batch-AllSound visits n [] stats rows w h = h
  batch-AllSound visits n (row ∷ batch) stats rows (few, w) h =
      batch-AllSound visits (suc n) batch _ _ w (process_row-AllSound (visits n) row rows few h)

  -- A pass keeps every row of the queue sound, whatever the clock shows and whatever the other
  -- relays answer.
  pub run_once-AllSound :
      (started fetched : ℕ) (visits : ℕ → Visit) (rows : List Outbound)
      → AllSound rows
      → AllSound (run_once started fetched visits rows).1
  unfolding run_once fetch_pending_batch
  run_once-AllSound started fetched visits rows h =
      let recovered = recover-AllSound started rows h in
      batch-AllSound visits 0 _ _ _
        (take-AllWaiting batch_size _ (due-AllWaiting fetched _ recovered)) recovered

  tally_counts :
      (b : Bool) (stats : Stats)
      → (tally b stats).processed ≡ stats.processed + 1
        × (tally b stats).succeeded + (tally b stats).failed ≡ stats.succeeded + stats.failed + 1
  tally_counts true stats = omega arith
  tally_counts false stats = omega arith

  batch_counts :
      (visits : ℕ → Visit) (n : ℕ) (batch : List Outbound) (stats : Stats) (rows : List Outbound)
      → (process_batch visits n batch stats rows).0.processed ≡ stats.processed + length batch
        × (process_batch visits n batch stats rows).0.succeeded
            + (process_batch visits n batch stats rows).0.failed
          ≡ stats.succeeded + stats.failed + length batch
  unfolding process_batch
  batch_counts visits n [] stats rows = omega arith
  batch_counts visits n (row ∷ batch) stats rows =
      let (ended, rows') = process_row (visits n) row rows in
      let b = counts_as ended (get row.id rows') in
      let (one, both) = tally_counts b stats in
      let (all, sum) = batch_counts visits (suc n) batch (tally b stats) rows' in
      omega (arith, one, both, all, sum)

  -- A pass tries the rows that are due, fifty of them at most, and counts each as a success or a
  -- failure.
  pub run_once_counts :
      (started fetched : ℕ) (visits : ℕ → Visit) (rows : List Outbound)
      → (run_once started fetched visits rows).0.processed
          ≡ (run_once started fetched visits rows).0.succeeded
            + (run_once started fetched visits rows).0.failed
        × (run_once started fetched visits rows).0.processed ≤ batch_size
        × (run_once started fetched visits rows).0.processed
          ≡ length (fetch_pending_batch fetched (recover_stuck_in_flight started rows).1)
  unfolding run_once fetch_pending_batch
  run_once_counts started fetched visits rows =
      let rows' = (recover_stuck_in_flight started rows).1 in
      let (all, sum) =
        batch_counts visits 0 (take batch_size (due_by_time fetched rows'))
          (no_stats (recover_stuck_in_flight started rows).0) rows' in
      let few = length-take-le batch_size (due_by_time fetched rows') in
      (omega (arith, all, sum), omega (arith, all, few), omega (arith, all))
