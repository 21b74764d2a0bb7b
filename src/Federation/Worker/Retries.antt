-- ===== src/Federation/Worker/Retries.antt =====
-- How often the worker tries a row, and when it tries again.
use Prim.Native.String.{◌++◌ as ◌+ˢ◌}
use morok_relay.Prelude.{
  ℕ, ◌+◌, ◌≤◌, ◌<◌, String, Bool, true, false, Option, none, some, List, [], ◌∷◌, ◌≡◌, refl, inl,
  inr, length, leb, if◌then◌else◌, arith, Bool-cases, not-leb→lt,
}
use morok_relay.Prelude.Json.{Dict, truthy, lookup}
use morok_relay.Sessions.Value.{Decimal}
use morok_relay.Federation.{Outbound, pending, succeeded, dead_letter, is_pending}
use morok_relay.Federation.Worker.{
  Sent, failed, returned, object, not_object, Visit, max_attempts, backoff_seconds, process_row,
  reason_text, get,
}
use morok_relay.Federation.Worker.Rows.{get_id}
use morok_relay.Federation.Worker.Visits.{
  visited, settled_row, delivered_row, failed_row, process_row-visited,
}

-- The other relay answers with `null` or an object, or the call fails.
abbrev pub IsReply : Sent → Type 0
IsReply (returned (some not_object)) = ⊥
IsReply _ = Unit {0}

-- The other relay takes the envelope.
abbrev pub is_accepted : Sent → Bool
is_accepted (returned (some (object result))) = truthy (lookup "accepted" result)
is_accepted _ = false

abbrev pub answer_to : Visit → Outbound → Sent
answer_to visit row = visit.send row.target_relay row.envelope_data

-- what is left of a row that the worker is done with
pub data IsSettled (row : Outbound) : Type 0 where
  delivered : row.status ≡ succeeded → row.envelope_data ≡ [] → IsSettled row
  given_up : row.status ≡ dead_letter → row.attempts ≡ max_attempts → IsSettled row

-- a row that is tried again
pub record IsPostponed (visit : Visit) (row later : Outbound) : Type 0 where
  pub waits : later.status ≡ pending
  pub counted : later.attempts ≡ row.attempts + 1
  pub kept : later.envelope_data ≡ row.envelope_data
  pub not_before : visit.settled_at + 30 ≤ later.next_attempt_at
  pub not_after : later.next_attempt_at ≤ visit.settled_at + 28800

-- The waits are from half a minute to eight hours.
backoff_seconds_bounds : (n : ℕ) → 0 < n → (30 ≤ backoff_seconds n) × (backoff_seconds n ≤ 28800)
unfolding backoff_seconds
backoff_seconds_bounds n h = ground arith

module _ ⦃D : Decimal⦄ where
  settled_accepted :
      (visit : Visit) (row : Outbound) (sent : Sent)
      → is_accepted sent ≡ true
      → settled_row visit row sent ≡ delivered_row visit row
  settled_accepted visit row (failed kind text) h = cc
  settled_accepted visit row (returned none) h = cc
  settled_accepted visit row (returned (some not_object)) h = cc
  settled_accepted visit row (returned (some (object result))) h = simp h refl

  settled_refused :
      (visit : Visit) (row : Outbound) (sent : Sent)
      → IsReply sent
      → is_accepted sent ≡ false
      → (error : String) × (settled_row visit row sent ≡ failed_row visit row error)
  settled_refused visit row (failed kind text) r h = (_, refl)
  settled_refused visit row (returned none) r h = ("remote_forward_returned_none", refl)
  settled_refused visit row (returned (some not_object)) r h = absurd r
  settled_refused visit row (returned (some (object result))) r h =
      ("rejected: " +ˢ reason_text (lookup "reason" result), simp h refl)

  accepted_settles :
      (visit : Visit) (row : Outbound)
      → is_accepted (answer_to visit row) ≡ true
      → IsSettled (visited visit row)
  unfolding visited
  accepted_settles visit row h =
      rw (settled_accepted visit row (answer_to visit row) h) (delivered refl refl)

  refused_postpones :
      (visit : Visit) (row : Outbound)
      → row.attempts + 1 < max_attempts
      → IsReply (answer_to visit row)
      → is_accepted (answer_to visit row) ≡ false
      → (visited visit row).status ≡ pending
        × (visited visit row).attempts ≡ row.attempts + 1
        × (visited visit row).id ≡ row.id
        × (visited visit row).envelope_data ≡ row.envelope_data
        × (visited visit row).next_attempt_at
          ≡ visit.settled_at + backoff_seconds (row.attempts + 1)
  unfolding visited
  refused_postpones visit row h r f =
      let (error, e) = settled_refused visit row (answer_to visit row) r f in
      let small : leb max_attempts (row.attempts + 1) ≡ false = ground arith in
      rw e (simp small (refl, refl, refl, refl, refl))

  last_settles :
      (visit : Visit) (row : Outbound)
      → row.attempts + 1 ≡ max_attempts
      → IsReply (answer_to visit row)
      → is_accepted (answer_to visit row) ≡ false
      → IsSettled (visited visit row)
  unfolding visited
  last_settles visit row h r f =
      let (error, e) = settled_refused visit row (answer_to visit row) r f in
      let full : leb max_attempts (row.attempts + 1) ≡ true = ground arith in
      rw e (simp full (given_up refl h))

  -- a visit to the row as it is now; the query passes a row over that is not pending
  abbrev pub attempted : Visit → Option Outbound → List Outbound → List Outbound
  attempted visit none rows = rows
  attempted visit (some row) rows =
      if is_pending row.status then (process_row visit row rows).1 else rows

  -- the visits to one row, by one pass after the other
  unfoldable pub worked : List Visit → String → List Outbound → List Outbound
  worked [] id rows = rows
  worked (visit ∷ visits) id rows = worked visits id (attempted visit (get id rows) rows)

  not_pending : (row : Outbound) → IsSettled row → is_pending row.status ≡ false
  not_pending row (delivered e _) = ground arith
  not_pending row (given_up e _) = ground arith

  skips :
      (visit : Visit) (id : String) (rows : List Outbound) (row : Outbound)
      → get id rows ≡ some row
      → is_pending row.status ≡ false
      → attempted visit (get id rows) rows ≡ rows
  skips visit id rows row h p = ground arith

  attempts :
      (visit : Visit) (id : String) (rows : List Outbound) (row : Outbound)
      → get id rows ≡ some row
      → row.status ≡ pending
      → get id (attempted visit (get id rows) rows) ≡ some (visited visit row)
  attempts visit id rows row h p =
      let same = get_id id rows row h in ground (arith, process_row-visited visit row rows)

  settled_stays :
      (visits : List Visit) (id : String) (rows : List Outbound) (row : Outbound)
      → get id rows ≡ some row
      → IsSettled row
      → get id (worked visits id rows) ≡ some row
  unfolding worked
  settled_stays [] id rows row h s = h
  settled_stays (visit ∷ visits) id rows row h s =
      rw (skips visit id rows row h (not_pending row s)) (settled_stays visits id rows row h s)

  -- Whenever the worker asks, it gets a reply.
  abbrev pub AllReply : List Visit → Type 0
  AllReply [] = Unit {0}
  AllReply (visit ∷ visits) =
      ((relay : String) (envelope : Dict) → IsReply (visit.send relay envelope)) × AllReply visits

  -- A pending row with fewer than eleven attempts that the worker visits as often as attempts are
  -- left ends delivered, without its payload, or given up after exactly eleven attempts, as long
  -- as no relay answers with JSON that is no object.
  pub worked-IsSettled :
      (visits : List Visit) (id : String) (rows : List Outbound) (row : Outbound)
      → get id rows ≡ some row
      → row.status ≡ pending
      → row.attempts < max_attempts
      → max_attempts ≤ row.attempts + length visits
      → AllReply visits
      → (last : Outbound) × (get id (worked visits id rows) ≡ some last) × IsSettled last
  unfolding worked
  worked-IsSettled [] id rows row h p few many replies = absurd (omega arith)
  worked-IsSettled (visit ∷ visits) id rows row h p few many (reply, replies) =
      let got = attempts visit id rows row h p in
      let next = attempted visit (get id rows) rows in
      let answer : IsReply (answer_to visit row) = reply row.target_relay row.envelope_data in
      elim (Bool-cases (is_accepted (answer_to visit row))) [
        | inl taken ↦
            let s = accepted_settles visit row taken in
            (visited visit row, settled_stays visits id next (visited visit row) got s, s)
        | inr refused ↦ elim (Bool-cases (leb max_attempts (row.attempts + 1))) [
          | inl full ↦
              let s = last_settles visit row (ground arith) answer refused in
              (visited visit row, settled_stays visits id next (visited visit row) got s, s)
          | inr room ↦
              let (p', n, _, _, _) = refused_postpones visit row (ground arith) answer refused in
              worked-IsSettled visits id next (visited visit row) got p'
                (omega (arith, n, not-leb→lt max_attempts (row.attempts + 1) room))
                (omega (arith, n)) replies
        ]
      ]

  -- A worker that finds a pending row with at most nine attempts and gets a reply that does not
  -- take the envelope leaves the row pending with its payload, counts the attempt, and puts the
  -- next one off by half a minute at least and eight hours at most.
  pub process_row-IsPostponed :
      (visit : Visit) (row : Outbound) (rows : List Outbound)
      → get row.id rows ≡ some row
      → row.status ≡ pending
      → row.attempts + 1 < max_attempts
      → IsReply (answer_to visit row)
      → is_accepted (answer_to visit row) ≡ false
      → (later : Outbound) × (get row.id (process_row visit row rows).1 ≡ some later)
        × IsPostponed visit row later
  process_row-IsPostponed visit row rows h p few reply refused =
      let (p', n, _, same, at) = refused_postpones visit row few reply refused in
      let (low, high) = backoff_seconds_bounds (row.attempts + 1) (omega arith) in
      (
        visited visit row,
        process_row-visited visit row rows h p,
        record {
          waits = p';
          counted = n;
          kept = same;
          not_before = omega (arith, at, low);
          not_after = omega (arith, at, high);
        },
      )
