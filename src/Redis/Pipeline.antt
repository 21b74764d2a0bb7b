-- ===== src/Redis/Pipeline.antt =====
-- Commands in a row, as a transaction (MULTI/EXEC) runs them, and the replies that the relay reads.
use morok_relay.Prelude.{String, ◌≡◌, refl, ◌∙◌, Bool, Option, List, [], ◌∷◌, ◌++◌}
use mathlib.Core.List.{append-nil, append_assoc}
use morok_relay.Prelude.Json.{Dict}
use morok_relay.Redis.{
  Key, Payload, Entry, Command, effect, sent, Redis, is_there, get_of, zset_of, members_of,
}
use morok_relay.Redis.Sets.{ZSet}

abbrev pub effects : List Command → Key → Entry → Entry
effects [] j e = e
effects (c ∷ cs) j e = effects cs j (effect c j e)

abbrev pub all_sent : List Command → List (String × Dict)
all_sent [] = []
all_sent (c ∷ cs) = sent c ++ all_sent cs

pub effects-append :
    (cs ds : List Command) (j : Key) (e : Entry)
    → effects (cs ++ ds) j e ≡ effects ds j (effects cs j e)
effects-append [] ds j e = refl
effects-append (c ∷ cs) ds j e = effects-append cs ds j (effect c j e)

module _ ⦃R : Redis⦄ where
  infixl 20 ◌▸◌
  abbrev pub ◌▸◌ : R.Store → Command → R.Store
  s ▸ c = R.run c s

  unfoldable pub run_all : List Command → R.Store → R.Store
  run_all [] s = s
  run_all (c ∷ cs) s = run_all cs (R.run c s)

  -- GET, EXISTS, ZSCORE, ZCARD, SCARD, SMEMBERS
  abbrev pub get : Key → R.Store → Option Payload
  get k s = get_of (R.at s k).value

  abbrev pub exists : Key → R.Store → Bool
  exists k s = is_there (R.at s k)

  abbrev pub zset_at : Key → R.Store → ZSet
  zset_at k s = zset_of (R.at s k).value

  abbrev pub members_at : Key → R.Store → List String
  members_at k s = members_of (R.at s k).value

  pub at-run_all :
      (cs : List Command) (s : R.Store) (j : Key) → R.at (run_all cs s) j ≡ effects cs j (R.at s j)
  unfolding run_all
  at-run_all [] s j = refl
  at-run_all (c ∷ cs) s j = at-run_all cs (R.run c s) j ∙ (λ i. effects cs j (R.at_run c s j i))

  pub published-run_all :
      (cs : List Command) (s : R.Store) → R.published (run_all cs s) ≡ R.published s ++ all_sent cs
  unfolding run_all
  published-run_all [] s = simp append-nil
  published-run_all (c ∷ cs) s =
      simp (published-run_all cs (R.run c s), R.published_run, append_assoc)
