-- ===== src/Federation/Worker/Visits.antt =====
-- What one visit of the worker makes of a pending row.
use Prim.Native.String.{◌++◌ as ◌+ˢ◌}
use morok_relay.Prelude.{
  ◌+◌, String, true, none, some, List, [], ◌≡◌, refl, leb, if◌then◌else◌, eq_iff, eq_refl, arith,
  ◌≢◌, Bool-cases, inl, inr,
}
use morok_relay.Prelude.Json.{truthy, lookup}
use morok_relay.Sessions.Value.{Decimal}
use morok_relay.RateLimit.Depends.{first_chars}
use morok_relay.Federation.{Outbound, pending, in_flight, succeeded}
use morok_relay.Federation.Worker.{
  Sent, failed, returned, object, not_object, Visit, max_attempts, backoff_seconds, delivered, dead,
  postponed, update, mark_in_flight, mark_succeeded, mark_retry_or_dead, settle_sent, process_row,
  reason_text, get, is_row, is_claimable,
}
use morok_relay.Federation.Worker.Rows.{KeepsId, get-update_self, get-update_ne, rowcount_pos}

module _ ⦃D : Decimal⦄ where
  -- the row while the worker waits for the other relay
  abbrev pub claimed_row : Visit → Outbound → Outbound
  claimed_row visit row = record row { status = in_flight; next_attempt_at = visit.claimed_at }

  abbrev pub failed_row : Visit → Outbound → String → Outbound
  failed_row visit row error =
      if leb max_attempts (row.attempts + 1)
      then dead (row.attempts + 1) (first_chars 500 error) (claimed_row visit row)
      else postponed (row.attempts + 1) (visit.settled_at + backoff_seconds (row.attempts + 1))
          (first_chars 500 error) (claimed_row visit row)

  abbrev pub delivered_row : Visit → Outbound → Outbound
  delivered_row visit row = record row {
    status = succeeded;
    next_attempt_at = visit.claimed_at;
    delivered_at = some visit.settled_at;
    last_error = none;
    envelope_data = [];
  }

  abbrev pub settled_row : Visit → Outbound → Sent → Outbound
  settled_row visit row (failed kind text) =
      failed_row visit row ("exception: " +ˢ (kind +ˢ (": " +ˢ text)))
  settled_row visit row (returned none) = failed_row visit row "remote_forward_returned_none"
  settled_row visit row (returned (some not_object)) = claimed_row visit row
  settled_row visit row (returned (some (object result))) =
      if truthy (lookup "accepted" result)
      then delivered_row visit row
      else failed_row visit row ("rejected: " +ˢ reason_text (lookup "reason" result))

  unfoldable pub visited : Visit → Outbound → Outbound
  visited visit row = settled_row visit row (visit.send row.target_relay row.envelope_data)

  claims :
      (visit : Visit) (row : Outbound) (rows : List Outbound)
      → get row.id rows ≡ some row
      → row.status ≡ pending
      → (mark_in_flight visit.claimed_at row rows).0 ≡ true
        × get row.id (mark_in_flight visit.claimed_at row rows).1 ≡ some (claimed_row visit row)
  unfolding mark_in_flight
  claims visit row rows h p =
      let claimable : is_claimable row row ≡ true = ground (arith, eq_refl row.id) in
      (
        rowcount_pos (is_claimable row) row.id rows row h claimable,
        get-update_self (is_claimable row)
            (λ r. record r { status = in_flight; next_attempt_at = visit.claimed_at }) row.id
            (λ r. refl) rows row h claimable,
      )

  -- an UPDATE of the claimed row
  overwrites :
      (visit : Visit) (row : Outbound) (values : Outbound → Outbound) (rows : List Outbound)
      → KeepsId values
      → get row.id rows ≡ some (claimed_row visit row)
      → get row.id (update (is_row row) values rows) ≡ some (values (claimed_row visit row))
  overwrites visit row values rows keeps h =
      get-update_self (is_row row) values row.id keeps rows (claimed_row visit row) h
        (eq_refl row.id)

  retries :
      (visit : Visit) (row : Outbound) (error : String) (rows : List Outbound)
      → get row.id rows ≡ some (claimed_row visit row)
      → get row.id (mark_retry_or_dead visit.settled_at row error rows)
        ≡ some (failed_row visit row error)
  unfolding mark_retry_or_dead
  retries visit row error rows h = elim (Bool-cases (leb max_attempts (row.attempts + 1))) [
    | inl e ↦
        simp e (
          overwrites visit row (dead (row.attempts + 1) (first_chars 500 error)) rows (λ r. refl) h)
    | inr e ↦ simp e (
        overwrites visit row
          (postponed (row.attempts + 1) (visit.settled_at + backoff_seconds (row.attempts + 1))
            (first_chars 500 error))
          rows (λ r. refl) h)
  ]

  settles :
      (visit : Visit) (row : Outbound) (sent : Sent) (rows : List Outbound)
      → get row.id rows ≡ some (claimed_row visit row)
      → get row.id (settle_sent visit.settled_at row sent rows).1
        ≡ some (settled_row visit row sent)
  unfolding settle_sent mark_succeeded
  settles visit row (failed kind text) rows h = retries visit row _ rows h
  settles visit row (returned none) rows h = retries visit row "remote_forward_returned_none" rows h
  settles visit row (returned (some not_object)) rows h = h
  settles visit row (returned (some (object result))) rows h = ground (
    arith,
    overwrites visit row (delivered visit.settled_at) rows (λ r. refl) h,
    retries visit row ("rejected: " +ˢ reason_text (lookup "reason" result)) rows h,
  )

  -- A worker that finds a pending row leaves it as `visited` says.
  pub process_row-visited :
      (visit : Visit) (row : Outbound) (rows : List Outbound)
      → get row.id rows ≡ some row
      → row.status ≡ pending
      → get row.id (process_row visit row rows).1 ≡ some (visited visit row)
  unfolding process_row visited
  process_row-visited visit row rows h p =
      let (won, got) = claims visit row rows h p in
      simp won (
        settles visit row (visit.send row.target_relay row.envelope_data)
          (mark_in_flight visit.claimed_at row rows).1 got)

  retries_other :
      (visit : Visit) (row : Outbound) (id error : String) (rows : List Outbound)
      → id ≢ row.id
      → get id (mark_retry_or_dead visit.settled_at row error rows) ≡ get id rows
  unfolding mark_retry_or_dead
  retries_other visit row id error rows ne = ground (
    arith,
    get-update_ne (is_row row) (dead (row.attempts + 1) (first_chars 500 error)) id (λ r. refl)
        (λ r e. ground (arith, ne, eq_iff r.id row.id)) rows,
    get-update_ne (is_row row)
        (postponed (row.attempts + 1) (visit.settled_at + backoff_seconds (row.attempts + 1))
          (first_chars 500 error))
        id (λ r. refl) (λ r e. ground (arith, ne, eq_iff r.id row.id)) rows,
  )

  settles_other :
      (visit : Visit) (row : Outbound) (id : String) (sent : Sent) (rows : List Outbound)
      → id ≢ row.id
      → get id (settle_sent visit.settled_at row sent rows).1 ≡ get id rows
  unfolding settle_sent mark_succeeded
  settles_other visit row id (failed kind text) rows ne = retries_other visit row id _ rows ne
  settles_other visit row id (returned none) rows ne =
      retries_other visit row id "remote_forward_returned_none" rows ne
  settles_other visit row id (returned (some not_object)) rows ne = refl
  settles_other visit row id (returned (some (object result))) rows ne =
      elim (Bool-cases (truthy (lookup "accepted" result))) [
        | inl e ↦ simp e (
            get-update_ne (is_row row) (delivered visit.settled_at) id (λ r. refl)
              (λ r e. ground (arith, ne, eq_iff r.id row.id)) rows)
        | inr e ↦ simp e (retries_other visit row id _ rows ne)
      ]

  -- and the other rows as they are
  pub process_row_other :
      (visit : Visit) (row : Outbound) (id : String) (rows : List Outbound)
      → id ≢ row.id
      → get id (process_row visit row rows).1 ≡ get id rows
  unfolding process_row mark_in_flight
  process_row_other visit row id rows ne = ground (
    arith,
    settles_other visit row id (visit.send row.target_relay row.envelope_data) (
        update (is_claimable row)
          (λ r. record r { status = in_flight; next_attempt_at = visit.claimed_at }) rows),
    get-update_ne (is_claimable row)
        (λ r. record r { status = in_flight; next_attempt_at = visit.claimed_at }) id (λ r. refl)
        (λ r e. ground (arith, ne, eq_iff r.id row.id)) rows,
  )
