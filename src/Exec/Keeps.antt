-- ===== src/Exec/Keeps.antt =====
-- Invariants of the store under actions, one rule for each way to build an action.
use morok_relay.Prelude.{◌≡◌, refl, Bool, true, false, List, [], ◌∷◌, if◌then◌else◌}
use morok_relay.Redis.{Redis}
use morok_relay.Exec.{
  World, Net, up, lost_request, lost_reply, Exn, Outcome, ok, raised, Exec, pure, raise, gets,
  answer, call, continue, raise_if, handled, cleaned, catch_all, on_rejected, rejected, ◌>>=◌,
}

module _ ⦃R : Redis⦄ where
  -- `m` keeps `P` of the store, whether it returns or raises and whatever the network does.
  pub record Keeps {A : Type 0} (P : R.Store → Type 0) (m : Exec A) : Type 0 where
    pub holds : (w : World) → P w.db → P (m w).1.db

module _ ⦃R : Redis⦄ (P : R.Store → Type 0) where
  pub answer_holds :
      {A : Type 0} (n : List Net) (r : A × R.Store) (w : World)
      → P w.db
      → P r.1
      → P (answer n r w).1.db
  unfolding answer
  answer_holds [] r w old new = new
  answer_holds (up ∷ n) r w old new = new
  answer_holds (lost_request ∷ n) r w old new = old
  answer_holds (lost_reply ∷ n) r w old new = new

  pub continue_holds :
      {A B : Type 0} (f : A → Exec B) (r : Outcome A) (w : World)
      → ((a : A) → Keeps P (f a))
      → P w.db
      → P (continue f r w).1.db
  continue_holds f (ok a) w kf h = (kf a).holds w h
  continue_holds f (raised e) w kf h = h

  handled_holds :
      {A : Type 0} (handler : Exec A) (r : Outcome A) (w : World)
      → Keeps P handler
      → P w.db
      → P (handled handler r w).1.db
  handled_holds handler (ok a) w k h = h
  handled_holds handler (raised e) w k h = k.holds w h

  cleaned_holds :
      {A : Type 0} (cleanup : Exec (Unit {0})) (r : Outcome A) (w : World)
      → Keeps P cleanup
      → P w.db
      → P (cleaned cleanup r w).1.db
  cleaned_holds cleanup (ok a) w k h = h
  cleaned_holds cleanup (raised (rejected c d)) w k h = k.holds w h
  cleaned_holds cleanup (raised e) w k h = h

module _ ⦃R : Redis⦄ {P : R.Store → Type 0} where
  pub Keeps-pure : {A : Type 0} (a : A) → Keeps P (pure a)
  Keeps-pure a = record { holds = λ w h. h }

  pub Keeps-raise : {A : Type 0} (e : Exn) → Keeps P (raise {A = A} e)
  Keeps-raise e = record { holds = λ w h. h }

  pub Keeps-gets : {A : Type 0} (f : World → A) → Keeps P (gets f)
  Keeps-gets f = record { holds = λ w h. h }

  pub Keeps-raise_if : (b : Bool) (e : Exn) → Keeps P (raise_if b e)
  Keeps-raise_if b e = record { holds = λ w h. h }

  pub Keeps-call :
      {A : Type 0} (f : R.Store → A × R.Store)
      → ((s : R.Store) → P s → P (f s).1)
      → Keeps P (call f)
  unfolding call
  Keeps-call f kf = record { holds = λ w h. answer_holds P w.net (f w.db) w h (kf w.db h) }

  pub Keeps-if :
      {A : Type 0} (test : Bool) (one other : Exec A)
      → (test ≡ true → Keeps P one)
      → (test ≡ false → Keeps P other)
      → Keeps P (if test then one else other)
  Keeps-if false one other _ safe = safe refl
  Keeps-if true one other safe _ = safe refl

  pub Keeps-bind :
      {A B : Type 0} (m : Exec A) (next : A → Exec B)
      → Keeps P m
      → ((a : A) → Keeps P (next a))
      → Keeps P (m >>= next)
  Keeps-bind m next first rest = record {
    holds = λ w h. let (r, w') = m w in continue_holds P next r w' rest (first.holds w h);
  }

  pub Keeps-catch_all :
      {A : Type 0} (m handler : Exec A)
      → Keeps P m
      → Keeps P handler
      → Keeps P (catch_all m handler)
  Keeps-catch_all m handler km kh = record {
    holds = λ w h. let (r, w') = m w in handled_holds P handler r w' kh (km.holds w h);
  }

  pub Keeps-on_rejected :
      {A : Type 0} (m : Exec A) (cleanup : Exec (Unit {0}))
      → Keeps P m
      → Keeps P cleanup
      → Keeps P (on_rejected m cleanup)
  Keeps-on_rejected m cleanup km kc = record {
    holds = λ w h. let (r, w') = m w in cleaned_holds P cleanup r w' kc (km.holds w h);
  }

  -- a round trip that only reads
  pub Keeps-read : {A : Type 0} (f : R.Store → A) → Keeps P (call (λ s. (f s, s)))
  Keeps-read f = Keeps-call (λ s. (f s, s)) (λ s h. h)

pub ruleset keeps_rules = (
  Keeps-catch_all, Keeps-on_rejected, Keeps-bind, Keeps-if, Keeps-read, Keeps-raise_if, Keeps-gets,
  Keeps-raise, Keeps-pure,
)
