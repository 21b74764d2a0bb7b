-- ===== src/Tokens/Shelf/Within.antt =====
-- The cap on the live tokens of an owner, under the commands of both modules.
use morok_relay.Prelude.{ℕ, ◌≤◌, String, ◌≡◌, false, Option, List, [], ◌∷◌, arith, leb, eq_iff}
use morok_relay.Redis.{Payload, Redis, set, sadd, srem, del, set_xx_keepttl, expire, elapse}
use morok_relay.Redis.Pipeline.{◌▸◌, members_at}
use morok_relay.Exec.Keeps.{Keeps, Keeps-call, Keeps-pure, Keeps-catch_all}
use morok_relay.Tokens.Shelf.{count_live, srem_all, scan, drop_stale}
use morok_relay.Tokens.Shelf.Alive.{
  Shelf, live, live-del, live-set_xx_keepttl, live-expire, live-srem, live-elapse, live-count_live,
  live-counted, live-add, IsFresh, IsFresh-count_live,
}

module _ ⦃R : Redis⦄ (S : Shelf) (max_active : ℕ) where
  pub record IsWithin (s : R.Store) : Type 0 where
    pub within : (o : String) → live S o s ≤ max_active

  pub IsWithin-del : (t : String) (s : R.Store) → IsWithin s → IsWithin (s ▸ del (S.token_key t))
  IsWithin-del t s v = record { within = λ o. omega (arith, live-del S o t s, v.within o) }

  pub IsWithin-set_xx_keepttl :
      (t : String) (p : Payload) (s : R.Store)
      → IsWithin s
      → IsWithin (s ▸ set_xx_keepttl (S.token_key t) p)
  IsWithin-set_xx_keepttl t p s v = record {
    within = λ o. omega (arith, live-set_xx_keepttl S o t p s, v.within o);
  }

  pub IsWithin-expire :
      (p : String) (d : ℕ) (s : R.Store) → IsWithin s → IsWithin (s ▸ expire (S.owner_key p) d)
  IsWithin-expire p d s v = record {
    within = λ o. omega (arith, live-expire S o p d s, v.within o);
  }

  pub IsWithin-srem :
      (p t : String) (s : R.Store) → IsWithin s → IsWithin (s ▸ srem (S.owner_key p) t)
  IsWithin-srem p t s v = record { within = λ o. omega (arith, live-srem S o p t s, v.within o) }

  pub IsWithin-elapse : (d : ℕ) (s : R.Store) → IsWithin s → IsWithin (s ▸ elapse d)
  IsWithin-elapse d s v = record { within = λ o. omega (arith, live-elapse S o d s, v.within o) }

  pub IsWithin-loop :
      (p : String) (s : R.Store)
      → IsWithin s
      → IsWithin (count_live S.token_key (S.owner_key p) (members_at (S.owner_key p) s) s).1
  IsWithin-loop p s v = record {
    within = λ o. omega (arith, live-count_live S o p (members_at (S.owner_key p) s) s, v.within o);
  }

  -- the insertion that follows when the loop counted fewer than the cap
  pub IsWithin-add :
      (p t : String) (v : Payload) (ttl : Option ℕ) (s : R.Store)
      → IsFresh S t s
      → leb max_active (count_live S.token_key (S.owner_key p) (members_at (S.owner_key p) s) s).0
        ≡ false
      → IsWithin s
      → IsWithin (
          (count_live S.token_key (S.owner_key p) (members_at (S.owner_key p) s) s).1
          ▸ set (S.token_key t) v ttl
          ▸ sadd (S.owner_key p) t)
  IsWithin-add p t v ttl s fresh room h =
      let ms = members_at (S.owner_key p) s in
      let looped = (count_live S.token_key (S.owner_key p) ms s).1 in
      record {
        within = λ o.
            let kept = live-count_live S o p ms s in
            let added = live-add S o p t v ttl looped (IsFresh-count_live S t p ms s fresh) in
            let counted = live-counted S p s in
            let before = h.within o in
            ground (arith, kept, added, counted, before, eq_iff p o, live-count_live S p p ms s);
      }

  IsWithin-srem_all :
      (p : String) (ts : List String) (s : R.Store)
      → IsWithin s
      → IsWithin (srem_all (S.owner_key p) ts s)
  unfolding srem_all
  IsWithin-srem_all p [] s v = v
  IsWithin-srem_all p (t ∷ ts) s v = IsWithin-srem_all p ts _ (IsWithin-srem p t s v)

  pub Keeps-scan : (ts : List String) → Keeps IsWithin (scan S.token_key ts)
  unfolding scan
  Keeps-scan ts = Keeps-call _ (λ s v. v)

  pub Keeps-drop_stale :
      (p : String) (ts : List String) → Keeps IsWithin (drop_stale (S.owner_key p) ts)
  unfolding drop_stale
  Keeps-drop_stale p [] = Keeps-pure tt
  Keeps-drop_stale p (t ∷ ts) =
      Keeps-catch_all _ _ (Keeps-call _ (λ s v. IsWithin-srem_all p (t ∷ ts) s v)) (Keeps-pure tt)
