-- ===== src/Exec/Runs.antt =====
-- Actions that return, with the worlds that they pass through.
use morok_relay.Prelude.{◌≡◌, refl}
use morok_relay.Redis.{Redis}
use morok_relay.Exec.{World, Outcome, ok, raised, Exec, Exn}

module _ ⦃R : Redis⦄ where
  -- `m` started in `w` returns, and what it returns and the world after it are related by `Q`
  abbrev pub Runs : {A : Type 0} → Exec A → World → (A → World → Type 0) → Type 0
  Runs {A} m w Q = (a : A) × ((w' : World) × (m w ≡ (ok a, w') × Q a w'))

  -- an action returns or raises
  pub data Ended {A : Type 0} (r : Outcome A × World) : Type 0 where
    returned : (a : A) (w' : World) → r ≡ (ok a, w') → Ended r
    failed : (e : Exn) (w' : World) → r ≡ (raised e, w') → Ended r

  pub ended : {A : Type 0} (r : Outcome A × World) → Ended r
  ended (ok a, w) = returned a w refl
  ended (raised e, w) = failed e w refl
