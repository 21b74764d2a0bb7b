-- ===== src/Dms/Table.antt =====
-- The rows of the table under the operations that change them.
use morok_relay.Prelude.{
  ℕ, String, ◌≡◌, refl, sym, inl, inr, Bool, some, List, [], ◌∷◌, ◌++◌, map, ◌==◌, eq_iff, eq_refl,
  Bool-cases,
}
use morok_relay.Redis.{Redis}
use morok_relay.Exec.{World}
use morok_relay.Queue.Model.{Sha256}
use morok_relay.Dms.{Dms, Settings, Codec}
use morok_relay.Dms.Endpoints.{find_dms, put_dms}
use morok_relay.Dms.Reaper.{is_reaped, reap_rows}
use morok_relay.Dms.Reaper.Outcomes.{Fired, FiredAll, left, retried, released, none_left, one_more}

-- a property of each row
pub data All (P : Dms → Type 0) : List Dms → Type 0 where
  none_there : All P []
  one_there : {d : Dms} {ds : List Dms} → P d → All P ds → All P (d ∷ ds)

module _ {P : Dms → Type 0} where
  pub All-find_dms :
      (id : String) (ds : List Dms) (d : Dms) → All P ds → find_dms id ds ≡ some d → P d
  unfolding find_dms
  All-find_dms id [] d a h = cc
  All-find_dms id (e ∷ es) d (one_there p a) h = elim (Bool-cases (e.id == id)) [
    | inl this ↦ let h' = simp this at h in let same : e ≡ d = cc in rw (sym same) p
    | inr other ↦ let h' = simp other at h in All-find_dms id es d a h'
  ]

  pub All-put_dms : (d : Dms) (ds : List Dms) → P d → All P ds → All P (put_dms d ds)
  unfolding put_dms
  All-put_dms d [] p a = none_there
  All-put_dms d (e ∷ es) p (one_there q a) = elim (Bool-cases (e.id == d.id)) [
    | inl this ↦ simp this (one_there p a)
    | inr other ↦ simp other (one_there q (All-put_dms d es p a))
  ]

  pub All-map :
      (f : Dms → Dms) (ds : List Dms) → ((d : Dms) → P d → P (f d)) → All P ds → All P (map f ds)
  All-map f [] k none_there = none_there
  All-map f (d ∷ ds) k (one_there p a) = one_there (k d p) (All-map f ds k a)

  pub All-add : (d : Dms) (ds : List Dms) → P d → All P ds → All P (ds ++ (d ∷ []))
  All-add d [] p none_there = one_there p none_there
  All-add d (e ∷ es) p (one_there q a) = one_there q (All-add d es p a)

  pub All-reap_rows : (now : ℕ) (ds : List Dms) → All P ds → All P (reap_rows now ds).1
  unfolding reap_rows
  All-reap_rows now [] none_there = none_there
  All-reap_rows now (d ∷ ds) (one_there p a) = elim (Bool-cases (is_reaped now d)) [
    | inl old ↦ rw old (All-reap_rows now ds a)
    | inr kept ↦ rw kept (one_there p (All-reap_rows now ds a))
  ]

module _ ⦃R : Redis⦄ ⦃H : Sha256⦄ ⦃C : Codec⦄ {settings : Settings} {relay_priv : String}
    {locked : String → Bool} {now : ℕ} where
  pub All-FiredAll :
      {P : Dms → Type 0} {ds es : List Dms} {w w' : World}
      → ((d e : Dms) (v v' : World) → Fired settings relay_priv locked now v d e v' → P d → P e)
      → FiredAll settings relay_priv locked now w ds es w'
      → All P ds
      → All P es
  All-FiredAll k none_left none_there = none_there
  All-FiredAll k (one_more f fs) (one_there p a) = one_there (k _ _ _ _ f p) (All-FiredAll k fs a)

  Fired-id :
      (d e : Dms) {w w' : World} → Fired settings relay_priv locked now w d e w' → e.id ≡ d.id
  Fired-id d e (left idle) = refl
  Fired-id d e (retried rs due p a) = refl
  Fired-id d e (released rs due p a) = refl

  -- the row of an identifier after a run of the reaper
  pub find_dms-FiredAll :
      (id : String) {ds es : List Dms} {w w' : World} (d : Dms)
      → FiredAll settings relay_priv locked now w ds es w'
      → find_dms id ds ≡ some d
      → (e : Dms) × ((v : World) × ((v' : World) × (find_dms id es ≡ some e
              × Fired settings relay_priv locked now v d e v')))
  unfolding find_dms
  find_dms-FiredAll id d none_left h = cc
  find_dms-FiredAll id d (one_more {d = x} {e = y} {w = u} {v = u'} f fs) h =
      elim (Bool-cases (x.id == id)) [
        | inl this ↦
            let h' = simp this at h in
            let same : x ≡ d = cc in (y, (u, (u', (simp (Fired-id x y f, this), rw (sym same) f))))
        | inr other ↦
            let h' = simp other at h in
            let (e, (v, (v', (found, is)))) = find_dms-FiredAll id d fs h' in
            (e, (v, (v', (simp (Fired-id x y f, other, found), is))))
      ]

pub find_dms-put_dms :
    (d : Dms) (ds : List Dms) (c : Dms)
    → find_dms d.id ds ≡ some c
    → find_dms d.id (put_dms d ds) ≡ some d
unfolding find_dms put_dms
find_dms-put_dms d [] c h = cc
find_dms-put_dms d (e ∷ es) c h = elim (Bool-cases (e.id == d.id)) [
  | inl this ↦ simp (this, eq_refl d.id)
  | inr other ↦ let h' = simp other at h in simp (other, find_dms-put_dms d es c h')
]

pub find_dms-id : (id : String) (ds : List Dms) (d : Dms) → find_dms id ds ≡ some d → d.id ≡ id
unfolding find_dms
find_dms-id id [] d h = cc
find_dms-id id (e ∷ es) d h = elim (Bool-cases (e.id == id)) [
  | inl this ↦
      let h' = simp this at h in let same : e ≡ d = cc in rw (sym same) ((eq_iff e.id id).0 this)
  | inr other ↦ let h' = simp other at h in find_dms-id id es d h'
]
