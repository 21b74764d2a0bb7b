-- ===== src/Exec.antt =====
-- How the relay's coroutines run: actions on a world that return or raise. The world is the Redis
-- store, the blob directory, the clock, and the outcomes of the round trips to Redis that are
-- still to come. What was written before a raise stays written.
pub mod Keeps
pub mod Runs
pub mod Yields
use morok_relay.Prelude.{
  ℕ, String, Bool, true, false, Option, none, some, List, [], ◌∷◌, if◌then◌else◌,
}
use morok_relay.Redis.{Redis, Command}

-- A round trip succeeds, or raises before or after the server has run the command.
pub data Net : Type 0 where
  up lost_request lost_reply : Net

pub data Exn : Type 0 where
  -- `HTTPException` with its status code and detail, `EnqueueRejected` among them
  rejected http : ℕ → String → Exn
  value_error key_error redis_error os_error : Exn
  -- `MultipleResultsFound` of SQLAlchemy
  multiple_results : Exn

pub data Outcome (A : Type 0) : Type 0 where
  ok : A → Outcome A
  raised : Exn → Outcome A

module _ ⦃R : Redis⦄ where
  pub record World : Type 0 where
    pub db : R.Store
    -- when the list is used up, the connection is up
    pub net : List Net
    -- `int(time.time())`
    pub now : ℕ
    -- file name (the envelope id) and contents
    pub disk : List (String × String)
    -- a file on which the operating system raises `OSError`
    pub sick : String → Bool

  abbrev pub Exec : Type 0 → Type 0
  Exec A = World → Outcome A × World

module _ ⦃R : Redis⦄ {A : Type 0} where
  abbrev pub pure : A → Exec A
  pure a w = (ok a, w)

  abbrev pub raise : Exn → Exec A
  raise e w = (raised e, w)

  abbrev pub gets : (World → A) → Exec A
  gets f w = (ok (f w), w)

  -- how a round trip ends, by the outcome of the network
  unfoldable pub answer : List Net → A × R.Store → Exec A
  answer [] (a, s) w = (ok a, record w { db = s })
  answer (up ∷ n) (a, s) w = (ok a, record w { db = s; net = n })
  answer (lost_request ∷ n) (a, s) w = (raised redis_error, record w { net = n })
  answer (lost_reply ∷ n) (a, s) w = (raised redis_error, record w { db = s; net = n })

  -- One round trip: a command, a pipeline or a script, with its reply.
  unfoldable pub call : (R.Store → A × R.Store) → Exec A
  unfolding answer
  call f w = answer w.net (f w.db) w

  abbrev pub handled : Exec A → Outcome A → Exec A
  handled handler (ok a) w = (ok a, w)
  handled handler (raised e) w = handler w

  -- `try: m except Exception: handler`
  abbrev pub catch_all : Exec A → Exec A → Exec A
  catch_all m handler w = let (r, w') = m w in handled handler r w'

  abbrev pub cleaned : Exec (Unit {0}) → Outcome A → Exec A
  cleaned cleanup (ok a) w = (ok a, w)
  cleaned cleanup (raised (rejected c d)) w = (raised (rejected c d), (cleanup w).1)
  cleaned cleanup (raised e) w = (raised e, w)

  -- `try: m except EnqueueRejected: cleanup; raise`, for a `cleanup` that does not raise
  abbrev pub on_rejected : Exec A → Exec (Unit {0}) → Exec A
  on_rejected m cleanup w = let (r, w') = m w in cleaned cleanup r w'

module _ ⦃R : Redis⦄ where
  abbrev pub continue : {A B : Type 0} → (A → Exec B) → Outcome A → Exec B
  continue f (ok a) w = f a w
  continue f (raised e) w = (raised e, w)

  infixl 5 ◌>>=◌ ◌>>◌
  abbrev pub ◌>>=◌ : {A B : Type 0} → Exec A → (A → Exec B) → Exec B
  ◌>>=◌ m f w = let (r, w') = m w in continue f r w'

  abbrev pub ◌>>◌ : {A B : Type 0} → Exec A → Exec B → Exec B
  m >> k = m >>= λ _. k

  -- a command whose reply the caller does not look at
  abbrev pub command : Command → Exec (Unit {0})
  command c = call (λ s. (tt, R.run c s))

  abbrev pub raise_if : Bool → Exn → Exec (Unit {0})
  raise_if b e w = (if b then raised e else ok tt, w)

  -- a world whose connection to Redis is up
  abbrev pub calm : R.Store → ℕ → List (String × String) → (String → Bool) → World
  calm s t d k = record { db = s; net = []; now = t; disk = d; sick = k }
