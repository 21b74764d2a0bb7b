-- ===== src/Auth/Proven.antt =====
-- What a login has been checked for.
use morok_relay.Prelude.{
  ℕ, ◌≤◌, String, true, Option, none, some, List, ltb, ◌==◌, ◌≡◌, refl, sym, ◌∙◌, arith, Bool-cases,
  Option-cases, inl, inr, eq_iff,
}
use morok_relay.Redis.{Key, Redis}
use morok_relay.Redis.Pipeline.{get}
use morok_relay.Exec.{World, ok, Exec, call, pure, ◌>>=◌}
use morok_relay.Exec.Yields.{
  Yields, Yields-bind, Yields-pure, Yields-after, call_reply, call_now, first_returned,
}
use morok_relay.SensitiveAction.{distance}
use morok_relay.Sessions.Value.{Decimal}
use morok_relay.Sessions.{Session, decoded, create_session, consume_challenge, get_and_delete}
use morok_relay.Queue.Model.{Sha256}
use morok_relay.RateLimit.Identifier.{get_ip_from_request}
use morok_relay.Dms.{Codec}
use morok_relay.Federation.{plain_message, Signer, Account}
use morok_relay.Auth.Log.{LoginLog, record_login}
use morok_relay.Federation.Accounts.{account_of}
use morok_relay.Auth.{
  respond, account_home, reactivate, AuthRequest, AuthSettings, Visit, login_message, LoggedIn,
  admit, check_signature, check_expected, verify_challenge,
}

module _ ⦃R : Redis⦄ ⦃H : Sha256⦄ ⦃D : Decimal⦄ ⦃C : Codec⦄ ⦃S : Signer⦄
    (settings : AuthSettings) where
  -- the owner of the key has signed the challenge, within two minutes
  pub record IsProven (now : ℕ) (body : AuthRequest) : Type 0 where
    pub pubkey : String
    pub signature : String
    pub pubkey_bytes : C.from_hex body.pubkey_hex ≡ some pubkey
    pub signature_bytes : C.from_hex body.signature_hex ≡ some signature
    pub in_window : distance now body.timestamp ≤ 120
    pub signed : S.verify (plain_message (login_message body)) signature pubkey ≡ true

  pub record IsLoggedIn (w : World) (body : AuthRequest) (visit : Visit) (r : LoggedIn settings)
      : Type 0 where
    pub issued : decoded (get (Key.challenge body.challenge_hex) w.db) ≡ some body.pubkey_hex
    pub proven : IsProven w.now body
    pub token : r.0.session_token ≡ visit.token
    pub owner : r.0.pubkey_hex ≡ body.pubkey_hex

  IsOwn : String → String → Session → Type 0
  IsOwn token pubkey s = (s.token ≡ token) × (s.pubkey ≡ pubkey)

  IsOwn-session :
      (token pubkey : String) (expires_at : ℕ)
      → Yields
          (IsOwn token pubkey)
          (pure (record { token = token; pubkey = pubkey; expires_at = expires_at }))
  unfolding IsOwn
  IsOwn-session token pubkey expires_at = Yields-pure _ (refl, refl)

  create_session-IsOwn :
      (token pubkey : String) → Yields (IsOwn token pubkey) (create_session token pubkey)
  unfolding create_session
  create_session-IsOwn token pubkey = search (Yields-after, IsOwn-session)

  admit-owner :
      (visit : Visit) (body : AuthRequest) (pubkey : String) (accounts : List Account)
      (log : List LoginLog)
      → Yields
          (λ r. (r.0.session_token ≡ visit.token) × (r.0.pubkey_hex ≡ body.pubkey_hex))
          (admit settings visit body pubkey accounts log)
  unfolding admit IsOwn
  admit-owner visit body pubkey accounts log =
      let accounts' : List Account = reactivate pubkey accounts in
      let answer : Session → List LoginLog → LoggedIn settings = λ session log'. (
        respond settings session (account_home (account_of pubkey accounts')),
        (accounts', log'),
      ) in
      let record_it : Exec (List LoginLog) =
        record_login settings.relay_privkey_hex visit.id visit.date visit.candidate body.pubkey_hex
          (get_ip_from_request settings.trusted_proxies visit.request) visit.user_agent log in
      Yields-bind (create_session visit.token body.pubkey_hex)
        (λ session. record_it >>= λ log'. pure (answer session log'))
        (create_session-IsOwn visit.token body.pubkey_hex)
        (λ session own.
          Yields-after record_it (λ log'. pure (answer session log'))
            (λ log'. Yields-pure (answer session log') own))

  signature-IsProven :
      (visit : Visit) (body : AuthRequest) (accounts : List Account) (log : List LoginLog)
      (w : World) (r : LoggedIn settings)
      → (check_signature settings visit body accounts log w).0 ≡ ok r
      → IsProven w.now body
        × ((r.0.session_token ≡ visit.token) × (r.0.pubkey_hex ≡ body.pubkey_hex))
  unfolding check_signature
  signature-IsProven visit body accounts log w r h =
      elim (Bool-cases (ltb 120 (distance w.now body.timestamp))) [
        | inl late ↦ absurd (ground arith)
        | inr late ↦ elim (Option-cases (C.from_hex body.pubkey_hex)) [
          | inl p ↦ absurd (ground arith)
          | inr (pubkey, p) ↦ elim (Option-cases (C.from_hex body.signature_hex)) [
            | inl s ↦ absurd (ground arith)
            | inr (signature, s) ↦
                elim (Bool-cases (S.verify (plain_message (login_message body)) signature pubkey)) [
                  | inr v ↦ absurd (ground arith)
                  | inl v ↦ (
                    record {
                      pubkey = pubkey;
                      signature = signature;
                      pubkey_bytes = p;
                      signature_bytes = s;
                      in_window = ground arith;
                      signed = v;
                    },
                    (admit-owner visit body pubkey accounts log).yields w r
                        (simp (late, p, s, v) at h),
                  )
                ]
          ]
        ]
      ]

  expected-IsLoggedIn :
      (visit : Visit) (body : AuthRequest) (accounts : List Account) (log : List LoginLog)
      (w : World) (r : LoggedIn settings) (expected : Option String)
      → (check_expected settings visit body accounts log expected w).0 ≡ ok r
      → (expected ≡ some body.pubkey_hex)
        × (IsProven w.now body
            × ((r.0.session_token ≡ visit.token) × (r.0.pubkey_hex ≡ body.pubkey_hex)))
  expected-IsLoggedIn visit body accounts log w r none h = ground arith
  expected-IsLoggedIn visit body accounts log w r (some expected) h =
      elim (Bool-cases (expected == body.pubkey_hex)) [
        | inr e ↦ absurd (ground arith)
        | inl e ↦ (
          rw ((eq_iff expected body.pubkey_hex).0 e) refl,
          signature-IsProven visit body accounts log w r (simp e at h),
        )
      ]

  -- Whatever the network does, a login is answered only if the relay holds the challenge for the key
  -- that the request names, and the key has signed the challenge at most two minutes before or
  -- after; and the answer is a session of that key, with the token that was drawn.
  pub verify_challenge-IsLoggedIn :
      (visit : Visit) (body : AuthRequest) (accounts : List Account) (log : List LoginLog)
      (w : World) (r : LoggedIn settings)
      → (verify_challenge settings visit body accounts log w).0 ≡ ok r
      → IsLoggedIn w body visit r
  unfolding verify_challenge consume_challenge get_and_delete
  verify_challenge-IsLoggedIn visit body accounts log w r h =
      let take = get_and_delete (Key.challenge body.challenge_hex) in
      let (expected, replied) =
        first_returned (call take) (check_expected settings visit body accounts log) w r h in
      let (named, (proven, (token, owner))) =
        expected-IsLoggedIn visit body accounts log (call take w).1 r expected (rw replied at h) in
      record {
        issued = sym (call_reply take w expected replied) ∙ named;
        proven = rw (← call_now take w) proven;
        token = token;
        owner = owner;
      }
