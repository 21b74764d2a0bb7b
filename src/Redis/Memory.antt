-- ===== src/Redis/Memory.antt =====
-- A server that meets the laws, for the examples: a function from keys and the list of what was
-- published.
use morok_relay.Prelude.{String, refl, List, [], ◌++◌}
use morok_relay.Prelude.Json.{Dict}
use morok_relay.Redis.{Key, Entry, effect, sent, gone, Redis}

pub record Memory : Type 0 where
  pub cells : Key → Entry
  pub log : List (String × Dict)

abbrev pub memory : Redis
memory = record {
  Store = Memory;
  at = λ s k. s.cells k;
  published = λ s. s.log;
  run = λ c s. record { cells = λ j. effect c j (s.cells j); log = s.log ++ sent c };
  at_run = λ c s j. refl;
  published_run = λ c s. refl;
}

abbrev pub blank : Memory
blank = record { cells = λ k. gone; log = [] }
