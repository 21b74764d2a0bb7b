-- ===== src/Exec/Yields.antt =====
-- What actions return, whatever the network does.
use morok_relay.Prelude.{List, [], ◌∷◌, ◌≡◌, refl, sym, Bool, true, false}
use morok_relay.Redis.{Redis}
use morok_relay.Exec.{
  World, Net, up, lost_request, lost_reply, answer, call, Exn, Outcome, ok, raised, Exec, pure,
  raise, gets, continue, raise_if, handled, catch_all, ◌>>=◌, ◌>>◌,
}

module _ ⦃R : Redis⦄ where
  -- if `m` returns, then it returns an `a` with `Q a`
  pub record Yields {A : Type 0} (Q : A → Type 0) (m : Exec A) : Type 0 where
    pub yields : (w : World) (a : A) → (m w).0 ≡ ok a → Q a

  -- `m` returns, and returns an `a` with `Q a`
  pub record Returns {A : Type 0} (Q : A → Type 0) (m : Exec A) : Type 0 where
    pub returns : (w : World) → (a : A) × ((m w).0 ≡ ok a × Q a)

module _ ⦃R : Redis⦄ {A B : Type 0} {Q : B → Type 0} where
  continue_yields :
      (k : A → Exec B) (r : Outcome A) (w : World) (b : B)
      → ((a : A) → r ≡ ok a → Yields Q (k a))
      → (continue k r w).0 ≡ ok b
      → Q b
  continue_yields k (ok a) w b rest h = (rest a refl).yields w b h
  continue_yields k (raised e) w b rest h = cc

module _ ⦃R : Redis⦄ {A : Type 0} where
  answer_reply :
      (n : List Net) (p : A × R.Store) (w : World) (a : A) → (answer n p w).0 ≡ ok a → a ≡ p.0
  unfolding answer
  answer_reply [] p w a h = cc
  answer_reply (up ∷ n) p w a h = cc
  answer_reply (lost_request ∷ n) p w a h = cc
  answer_reply (lost_reply ∷ n) p w a h = cc

  answer_now : (n : List Net) (p : A × R.Store) (w : World) → (answer n p w).1.now ≡ w.now
  unfolding answer
  answer_now [] p w = refl
  answer_now (up ∷ n) p w = refl
  answer_now (lost_request ∷ n) p w = refl
  answer_now (lost_reply ∷ n) p w = refl

  -- a reply that arrives is that of the server
  pub call_reply :
      (f : R.Store → A × R.Store) (w : World) (a : A) → (call f w).0 ≡ ok a → a ≡ (f w.db).0
  unfolding call
  call_reply f w a h = answer_reply w.net (f w.db) w a h

  pub call_now : (f : R.Store → A × R.Store) (w : World) → (call f w).1.now ≡ w.now
  unfolding call
  call_now f w = answer_now w.net (f w.db) w

module _ ⦃R : Redis⦄ {A B : Type 0} where
  continued :
      (k : A → Exec B) (r : Outcome A) (w : World) (b : B)
      → (continue k r w).0 ≡ ok b
      → (a : A) × r ≡ ok a
  continued k (ok a) w b h = (a, refl)
  continued k (raised e) w b h = cc

  -- a chain returns only if its first action has
  pub first_returned :
      (m : Exec A) (k : A → Exec B) (w : World) (b : B)
      → ((m >>= k) w).0 ≡ ok b
      → (a : A) × (m w).0 ≡ ok a
  first_returned m k w b h = let (r, w') = m w in continued k r w' b h

module _ ⦃R : Redis⦄ {A B : Type 0} {P : A → Type 0} {Q : B → Type 0} where
  pub Yields-bind :
      (m : Exec A) (k : A → Exec B)
      → Yields P m
      → ((a : A) → P a → Yields Q (k a))
      → Yields Q (m >>= k)
  Yields-bind m k first rest = record {
    yields = λ w b h.
        let (r, w') = m w in continue_yields k r w' b (λ a e. rest a (first.yields w a e)) h;
  }

  pub Returns-bind :
      (m : Exec A) (k : A → Exec B)
      → Returns P m
      → ((a : A) → P a → Returns Q (k a))
      → Returns Q (m >>= k)
  Returns-bind m k first rest = record {
    returns = λ w.
        let (a, made) = first.returns w in
        let (b, done) = (rest a made.1).returns (m w).1 in (b, (rw made.0 done.0, done.1));
  }

module _ ⦃R : Redis⦄ {A : Type 0} {Q : A → Type 0} where
  pub Yields-pure : (a : A) → Q a → Yields Q (pure a)
  Yields-pure a q = record { yields = λ w b h. let same : a ≡ b = cc in rw (sym same) q }

  pub Yields-raise : (e : Exn) → Yields Q (raise e)
  Yields-raise e = record { yields = λ w b h. cc }

  pub Returns-pure : (a : A) → Q a → Returns Q (pure a)
  Returns-pure a q = record { returns = λ w. (a, (refl, q)) }

  pub Returns-Yields : (m : Exec A) → Returns Q m → Yields Q m
  Returns-Yields m r = record {
    yields = λ w a h.
        let (b, made) = r.returns w in
        let e = made.0 in let same : b ≡ a = cc in rw (sym same) made.1;
  }

  handled-Returns :
      (handler : Exec A) (r : Outcome A) (w : World)
      → ((a : A) → r ≡ ok a → Q a)
      → Returns Q handler
      → (a : A) × ((handled handler r w).0 ≡ ok a × Q a)
  handled-Returns handler (ok a) w first second = (a, (refl, first a refl))
  handled-Returns handler (raised e) w first second = second.returns w

  pub Returns-catch_all :
      (m handler : Exec A) → Yields Q m → Returns Q handler → Returns Q (catch_all m handler)
  Returns-catch_all m handler first second = record {
    returns =
        λ w. let (r, w') = m w in handled-Returns handler r w' (λ a e. first.yields w a e) second;
  }

module _ ⦃R : Redis⦄ where
  -- nothing is said of what is returned
  pub Yields-any : {A : Type 0} (m : Exec A) → Yields (λ a. Unit {0}) m
  Yields-any m = record { yields = λ w a h. tt }

  -- the condition did not hold
  pub Yields-raise_if : (b : Bool) (e : Exn) → Yields (λ a. b ≡ false) (raise_if b e)
  Yields-raise_if true e = record { yields = λ w a h. cc }
  Yields-raise_if false e = record { yields = λ w a h. refl }

module _ ⦃R : Redis⦄ {B : Type 0} {Q : B → Type 0} where
  -- what follows a test
  pub Yields-guard :
      (b : Bool) (e : Exn) (k : Exec B) → (b ≡ false → Yields Q k) → Yields Q (raise_if b e >> k)
  Yields-guard true e k rest = record { yields = λ w a h. cc }
  Yields-guard false e k rest = rest refl

  -- what follows a look at the world
  pub Yields-gets :
      {A : Type 0} (f : World → A) (k : A → Exec B)
      → ((a : A) → Yields Q (k a))
      → Yields Q (gets f >>= k)
  Yields-gets f k rest = record { yields = λ w b h. (rest (f w)).yields w b h }

module _ ⦃R : Redis⦄ {A B : Type 0} {Q : B → Type 0} where
  pub Yields-after : (m : Exec A) (k : A → Exec B) → ((a : A) → Yields Q (k a)) → Yields Q (m >>= k)
  Yields-after m k rest = Yields-bind m k (Yields-any m) (λ a _. rest a)
