-- ===== src/Federation/Worker.antt =====
-- scripts/federation_worker.py: the pass over the outbound queue. Each statement on the table is
-- committed at once. The time at which a statement runs is an argument.
pub mod Rows
pub mod Visits
pub mod Retries
pub mod Pass
use Prim.Native.String.{◌++◌ as ◌+ˢ◌}
use morok_relay.Prelude.{
  ℕ, zero, suc, ◌+◌, String, Bool, true, false, not, ◌&&◌, Option, none, some, List, [], ◌∷◌,
  length, take, leb, ltb, eqb, ◌==◌, if◌then◌else◌,
}
use morok_relay.Prelude.Json
use morok_relay.Prelude.Json.{Json, Dict, truthy, lookup}
use morok_relay.Sessions.Value.{Decimal}
use morok_relay.RateLimit.Depends.{first_chars}
use morok_relay.Federation.{
  FedQueueStatus, pending, in_flight, succeeded, dead_letter, Outbound, is_pending, is_in_flight,
  is_succeeded,
}

abbrev pub batch_size : ℕ
batch_size = 50

abbrev pub max_attempts : ℕ
max_attempts = 11

abbrev pub in_flight_timeout_seconds : ℕ
in_flight_timeout_seconds = 300

-- `BACKOFF_SCHEDULE`, and its last entry for any other count
unfoldable pub backoff_seconds : ℕ → ℕ
backoff_seconds attempts =
    if eqb attempts 1
    then 30
    else if eqb attempts 2
    then 60
    else if eqb attempts 3
    then 120
    else if eqb attempts 4
    then 300
    else if eqb attempts 5
    then 900
    else if eqb attempts 6
    then 1800
    else if eqb attempts 7
    then 3600
    else if eqb attempts 8
    then 7200
    else if eqb attempts 9
    then 14400
    else 28800

-- `UPDATE … WHERE`: the rows, and the number of those that matched
unfoldable pub update : (Outbound → Bool) → (Outbound → Outbound) → List Outbound → List Outbound
update where_ values [] = []
update where_ values (r ∷ rows) = (if where_ r then values r else r) ∷ update where_ values rows

unfoldable pub rowcount : (Outbound → Bool) → List Outbound → ℕ
rowcount where_ [] = 0
rowcount where_ (r ∷ rows) = let rest = rowcount where_ rows in if where_ r then suc rest else rest

abbrev pub is_stuck : ℕ → Outbound → Bool
is_stuck now r = is_in_flight r.status && ltb (r.next_attempt_at + in_flight_timeout_seconds) now

unfoldable pub recover_stuck_in_flight : ℕ → List Outbound → ℕ × List Outbound
unfolding rowcount update
recover_stuck_in_flight now rows =
    (rowcount (is_stuck now) rows, update (is_stuck now) (λ r. record r { status = pending }) rows)

abbrev pub is_due : ℕ → Outbound → Bool
is_due now r = is_pending r.status && leb r.next_attempt_at now

-- `ORDER BY next_attempt_at`
unfoldable pub place_by_time : Outbound → List Outbound → List Outbound
place_by_time r [] = r ∷ []
place_by_time r (x ∷ rows) =
    let rest = place_by_time r rows in
    if leb r.next_attempt_at x.next_attempt_at then r ∷ x ∷ rows else x ∷ rest

unfoldable pub due_by_time : ℕ → List Outbound → List Outbound
unfolding place_by_time
due_by_time now [] = []
due_by_time now (r ∷ rows) =
    let rest = due_by_time now rows in if is_due now r then place_by_time r rest else rest

unfoldable pub fetch_pending_batch : ℕ → List Outbound → List Outbound
unfolding due_by_time
fetch_pending_batch now rows = take batch_size (due_by_time now rows)

abbrev pub is_row : Outbound → Outbound → Bool
is_row row r = r.id == row.id

abbrev pub is_claimable : Outbound → Outbound → Bool
is_claimable row r = is_row row r && is_pending r.status

unfoldable pub mark_in_flight : ℕ → Outbound → List Outbound → Bool × List Outbound
unfolding rowcount update
mark_in_flight now row rows = (
  ltb 0 (rowcount (is_claimable row) rows),
  update (is_claimable row) (λ r. record r { status = in_flight; next_attempt_at = now }) rows,
)

abbrev pub delivered : ℕ → Outbound → Outbound
delivered now r = record r {
  status = succeeded;
  delivered_at = some now;
  last_error = none;
  envelope_data = [];
}

unfoldable pub mark_succeeded : ℕ → Outbound → List Outbound → List Outbound
unfolding update
mark_succeeded now row rows = update (is_row row) (delivered now) rows

abbrev pub dead : ℕ → String → Outbound → Outbound
dead attempts error r = record r {
  status = dead_letter;
  attempts = attempts;
  last_error = some error;
}

abbrev pub postponed : ℕ → ℕ → String → Outbound → Outbound
postponed attempts next_at error r = record r {
  status = pending;
  attempts = attempts;
  next_attempt_at = next_at;
  last_error = some error;
}

-- The count of attempts is that of the row as it was fetched.
unfoldable pub mark_retry_or_dead : ℕ → Outbound → String → List Outbound → List Outbound
unfolding update backoff_seconds first_chars
mark_retry_or_dead now row error rows =
    let new_attempts = row.attempts + 1 in
    if leb max_attempts new_attempts
    then update (is_row row) (dead new_attempts (first_chars 500 error)) rows
    else update (is_row row)
        (postponed new_attempts (now + backoff_seconds new_attempts) (first_chars 500 error)) rows

-- the JSON value of a reply that is not `null`
pub data Body : Type 0 where
  object : Dict → Body
  not_object : Body

-- what `remote_forward` does
pub data Sent : Type 0 where
  -- an exception, with `type(e).__name__` and its text
  failed : String → String → Sent
  returned : Option Body → Sent

-- how `process_row` ends: it returns, or the reply's `get` raises `AttributeError`
pub data Ended : Type 0 where
  done attribute_error : Ended

-- what `process_row` meets: the times of its two statements, and `remote_forward` by the relay and
-- the envelope
pub record Visit : Type 0 where
  pub claimed_at : ℕ
  pub settled_at : ℕ
  pub send : String → Dict → Sent

pub record Stats : Type 0 where
  pub recovered : ℕ
  pub processed : ℕ
  pub succeeded : ℕ
  pub failed : ℕ

abbrev pub no_stats : ℕ → Stats
no_stats n = record { recovered = n; processed = 0; succeeded = 0; failed = 0 }

-- `db.get(…, row.id)`
unfoldable pub get : String → List Outbound → Option Outbound
get id [] = none
get id (r ∷ rows) = if r.id == id then some r else get id rows

abbrev pub has_succeeded : Option Outbound → Bool
has_succeeded none = false
has_succeeded (some r) = is_succeeded r.status

abbrev pub tally : Bool → Stats → Stats
tally true stats = record stats { processed = stats.processed + 1; succeeded = stats.succeeded + 1 }
tally false stats = record stats { processed = stats.processed + 1; failed = stats.failed + 1 }

module _ ⦃D : Decimal⦄ where
  -- the text of a value in an f-string
  abbrev pub json_text : Json → String
  json_text Json.null = "None"
  json_text (Json.bool true) = "True"
  json_text (Json.bool false) = "False"
  json_text (Json.int n) = D.show n
  json_text (Json.str s) = s

  -- `result.get("reason") or "remote_rejected"`
  abbrev pub reason_text : Option Json → String
  reason_text none = "remote_rejected"
  reason_text (some v) = if truthy (some v) then json_text v else "remote_rejected"

  unfoldable pub settle_sent : ℕ → Outbound → Sent → List Outbound → Ended × List Outbound
  unfolding mark_retry_or_dead mark_succeeded
  settle_sent now row (failed kind text) rows =
      (done, mark_retry_or_dead now row ("exception: " +ˢ (kind +ˢ (": " +ˢ text))) rows)
  settle_sent now row (returned none) rows =
      (done, mark_retry_or_dead now row "remote_forward_returned_none" rows)
  settle_sent now row (returned (some not_object)) rows = (attribute_error, rows)
  settle_sent now row (returned (some (object result))) rows = (
    done,
    if truthy (lookup "accepted" result)
        then mark_succeeded now row rows
        else mark_retry_or_dead now row ("rejected: " +ˢ reason_text (lookup "reason" result)) rows,
  )

  unfoldable pub process_row : Visit → Outbound → List Outbound → Ended × List Outbound
  unfolding mark_in_flight settle_sent
  process_row visit row rows =
      let (won, claimed) = mark_in_flight visit.claimed_at row rows in
      if won
      then settle_sent visit.settled_at row (visit.send row.target_relay row.envelope_data) claimed
      else (done, rows)

  -- what the pass counts after a row
  abbrev pub counts_as : Ended → Option Outbound → Bool
  counts_as done refreshed = has_succeeded refreshed
  counts_as attribute_error refreshed = false

  -- What a row meets is drawn from `visits`, by its place in the batch.
  unfoldable pub process_batch :
      (ℕ → Visit) → ℕ → List Outbound → Stats → List Outbound → Stats × List Outbound
  unfolding process_row get
  process_batch visits n [] stats rows = (stats, rows)
  process_batch visits n (row ∷ batch) stats rows =
      let (ended, rows') = process_row (visits n) row rows in
      process_batch visits (suc n) batch (tally (counts_as ended (get row.id rows')) stats) rows'

  -- `started` and `fetched` are the times of the recovery and of the query.
  unfoldable pub run_once : ℕ → ℕ → (ℕ → Visit) → List Outbound → Stats × List Outbound
  unfolding recover_stuck_in_flight fetch_pending_batch process_batch
  run_once started fetched visits rows =
      let (recovered, rows') = recover_stuck_in_flight started rows in
      process_batch visits 0 (fetch_pending_batch fetched rows') (no_stats recovered) rows'
