-- ===== src/Tokens/Invite/Once.antt =====
-- An invite token is good for one joining.
use morok_relay.Prelude.{
  String, ◌≡◌, Bool, true, false, none, some, List, [], ◌∷◌, arith, if◌then◌else◌, ◌==◌, eq_refl, ℕ,
}
use morok_relay.Prelude.Json.{Dict}
use morok_relay.Redis.{Redis}
use morok_relay.Exec.{World, Outcome, ok}
use morok_relay.Tokens.Invite.Refine.{serve-refines}
use morok_relay.Tokens.Invite.Store.{
  Invites, Request, issue, take, Reply, found, TableStep, issues, refuses, looks, takes, withdraws,
  fails, loses, serve, IsTable,
}

-- a request for a new token of this text
abbrev pub makes_token : String → Request → Bool
makes_token t (issue u g c ttl) = u == t
makes_token t _ = false

abbrev pub makes_one : String → List Request → Bool
makes_one t [] = false
makes_one t (q ∷ qs) = if makes_token t q then true else makes_one t qs

took :
    {now : ℕ} {t : String} {m m' : Invites} {o : Outcome Reply} (r : Reply)
    → TableStep now m (take t) o m'
    → o ≡ ok r
    → m' t ≡ none × r ≡ found (m t)
took {t = t} r (takes _) e = (simp (eq_refl t), cc)
took r (fails _) e = cc
took r (loses st) e = cc

stays_taken :
    {now : ℕ} {m m' : Invites} {q : Request} {o : Outcome Reply} (t : String)
    → TableStep now m q o m'
    → makes_token t q ≡ false
    → m t ≡ none
    → m' t ≡ none
stays_taken t (issues u g c ttl) other h = simp (other, h)
stays_taken t (refuses u g c ttl) other h = h
stays_taken t (looks u) other h = h
stays_taken t (takes u) other h = ground arith
stays_taken t (withdraws g u) other h = ground arith
stays_taken t (fails q) other h = h
stays_taken t (loses st) other h = stays_taken t st other h

module _ ⦃R : Redis⦄ where
  -- the world after requests in a row
  unfoldable pub after : List Request → World → World
  after [] w = w
  after (q ∷ qs) w = after qs (serve q w).1

  -- nothing is there for the token
  taken_stays :
      (t : String) (qs : List Request) (m : Invites) (w : World)
      → IsTable m w.db
      → m t ≡ none
      → makes_one t qs ≡ false
      → (m' : Invites) × (m' t ≡ none × IsTable m' (after qs w).db)
  unfolding after
  taken_stays t [] m w h gone other = (m, (gone, h))
  taken_stays t (q ∷ qs) m w h gone other =
      let (m', st) = serve-refines q m w h in
      taken_stays t qs m' (serve q w).1 st.1 (stays_taken t st.0 (ground arith) gone) (ground arith)

  -- When a request for the token was answered with its document, then no request for it is, after
  -- any requests that do not make a token of the same text, whatever the network does meanwhile.
  pub take-once :
      (t : String) (meta : Dict) (qs : List Request) (m : Invites) (w : World)
      → IsTable m w.db
      → (serve (take t) w).0 ≡ ok (found (some meta))
      → makes_one t qs ≡ false
      → (meta' : Dict)
      → ¬ ((serve (take t) (after qs (serve (take t) w).1)).0 ≡ ok (found (some meta')))
  take-once t meta qs m w h first other meta' again =
      let (m', st) = serve-refines (take t) m w h in
      let (m'', later) =
        taken_stays t qs m' (serve (take t) w).1 st.1 (took _ st.0 first).0 other in
      let (m''', st') = serve-refines (take t) m'' _ later.1 in
      let same : found (some meta') ≡ found (m'' t) = (took _ st'.0 again).1 in
      let empty : m'' t ≡ none = later.0 in cc
