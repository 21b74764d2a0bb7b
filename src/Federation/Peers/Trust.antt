-- ===== src/Federation/Peers/Trust.antt =====
-- What a handshake can do to the table of peers.
use morok_relay.Prelude.{
  ℕ, ◌≤◌, String, true, false, Option, none, some, List, [], ◌∷◌, ltb, ◌==◌, ◌≡◌, refl, arith,
  eq_iff, Bool-cases, Option-cases, inl, inr,
}
use morok_relay.Exec.{Outcome, ok, raised}
use morok_relay.SensitiveAction.{distance}
use morok_relay.Dms.{Codec}
use morok_relay.Federation.{
  handshake_message, Signer, FederationPeer, HandshakeRequest, HandshakeResponse, FedSettings,
}
use morok_relay.Federation.Peers.{
  peer_of_host, touch_peer, new_peer, get_or_create_peer, checked_handshake, answer_handshake,
  handshake,
}

-- what is left of a peer after a handshake
abbrev pub Kept : FederationPeer → Option FederationPeer → Type 0
Kept p none = ⊥
Kept p (some q) = (q.pubkey ≡ p.pubkey) × (q.is_trusted ≡ p.is_trusted)

-- what the table says of a host that it did not have
abbrev pub Fresh : Option FederationPeer → Type 0
Fresh none = Unit {0}
Fresh (some q) = q.is_trusted ≡ false

abbrev pub Carried : Option FederationPeer → Option FederationPeer → Type 0
Carried none after = Fresh after
Carried (some p) after = Kept p after

same-Carried : (o : Option FederationPeer) → Carried o o
same-Carried none = tt
same-Carried (some p) = (refl, refl)

touch-Carried :
    (host hostname : String) (now : ℕ) (peers : List FederationPeer)
    → Carried (peer_of_host host peers) (peer_of_host host (touch_peer hostname now peers))
unfolding peer_of_host touch_peer
touch-Carried host hostname now [] = tt
touch-Carried host hostname now (p ∷ peers) = elim (Bool-cases (p.hostname == host)) [
  | inl e ↦ ground arith
  | inr e ↦ elim (Bool-cases (p.hostname == hostname)) [
    | inl f ↦ simp (e, f) (same-Carried (peer_of_host host peers))
    | inr f ↦ simp (e, f) (touch-Carried host hostname now peers)
  ]
]

add-Carried :
    (host hostname pubkey : String) (now : ℕ) (peers : List FederationPeer)
    → peer_of_host hostname peers ≡ none
    → Carried (peer_of_host host peers) (peer_of_host host (new_peer hostname pubkey now ∷ peers))
unfolding peer_of_host
add-Carried host hostname pubkey now peers new = elim (Bool-cases (hostname == host)) [
  | inl e ↦
      let same : hostname ≡ host = (eq_iff hostname host).0 e in
      let none_there : peer_of_host host peers ≡ none = rw (← same) new in simp (e, none_there) refl
  | inr e ↦ simp e (same-Carried (peer_of_host host peers))
]

recorded-Carried :
    (host hostname pubkey : String) (now : ℕ) (peers peers' : List FederationPeer)
    → get_or_create_peer hostname pubkey now peers ≡ ok peers'
    → Carried (peer_of_host host peers) (peer_of_host host peers')
unfolding get_or_create_peer
recorded-Carried host hostname pubkey now peers peers' h =
    elim (Option-cases (peer_of_host hostname peers)) [
      | inl e ↦
          let same : new_peer hostname pubkey now ∷ peers ≡ peers' = ground arith in
          rw (← same) (add-Carried host hostname pubkey now peers e)
      | inr (p, e) ↦
          let same : touch_peer hostname now peers ≡ peers' = ground arith in
          rw (← same) (touch-Carried host hostname now peers)
    ]

module _ ⦃C : Codec⦄ ⦃S : Signer⦄ where
  answered-Carried :
      (settings : FedSettings) (host : String) (peers : List FederationPeer)
      (made : Outcome (List FederationPeer)) (r : HandshakeResponse) (peers' : List FederationPeer)
      → answer_handshake settings made ≡ ok (r, peers')
      → ((next : List FederationPeer)
          → made ≡ ok next
          → Carried (peer_of_host host peers) (peer_of_host host next))
      → Carried (peer_of_host host peers) (peer_of_host host peers')
  answered-Carried settings host peers (ok next) r peers' h step =
      let same : next ≡ peers' = ground arith in rw (← same) (step next refl)
  answered-Carried settings host peers (raised e) r peers' h step = ground arith

  -- what a handshake proves of its sender
  pub record IsSigned (now : ℕ) (body : HandshakeRequest) : Type 0 where
    pub pubkey : String
    pub signature : String
    pub key_bytes : C.from_hex body.peer_pubkey_hex ≡ some pubkey
    pub signature_bytes : C.from_hex body.signature_hex ≡ some signature
    pub in_window : distance now body.timestamp ≤ 300
    pub signed :
        S.verify
          (handshake_message body.peer_hostname body.peer_pubkey_hex body.timestamp)
          signature
          pubkey
        ≡ true

  checked-Carried :
      (settings : FedSettings) (now : ℕ) (body : HandshakeRequest)
      (peers peers' : List FederationPeer) (r : HandshakeResponse) (host : String)
      (key signature : Option String)
      → C.from_hex body.peer_pubkey_hex ≡ key
      → C.from_hex body.signature_hex ≡ signature
      → distance now body.timestamp ≤ 300
      → checked_handshake settings now body key signature peers ≡ ok (r, peers')
      → IsSigned now body × Carried (peer_of_host host peers) (peer_of_host host peers')
  unfolding checked_handshake
  checked-Carried settings now body peers peers' r host none signature k s near h = ground arith
  checked-Carried settings now body peers peers' r host (some key) none k s near h = ground arith
  checked-Carried settings now body peers peers' r host (some key) (some signature) k s near h =
      elim (Bool-cases (
        S.verify (handshake_message body.peer_hostname body.peer_pubkey_hex body.timestamp)
          signature key)) [
            | inl f ↦ (
              record {
                pubkey = key;
                signature = signature;
                key_bytes = k;
                signature_bytes = s;
                in_window = near;
                signed = f;
              },
              answered-Carried settings host peers
                  (get_or_create_peer body.peer_hostname key now peers) r peers' (simp f at h)
                  (λ next. recorded-Carried host body.peer_hostname key now peers next),
            )
            | inr f ↦ absurd (ground arith)
          ]

  -- A handshake is accepted only with a signature of the key that it names, not older or newer than
  -- five minutes, and then keeps the key and the trust of every host in the table; a host that it
  -- adds is not trusted.
  pub handshake-Carried :
      (settings : FedSettings) (now : ℕ) (body : HandshakeRequest)
      (peers peers' : List FederationPeer) (r : HandshakeResponse) (host : String)
      → handshake settings now body peers ≡ ok (r, peers')
      → IsSigned now body × Carried (peer_of_host host peers) (peer_of_host host peers')
  unfolding handshake
  handshake-Carried settings now body peers peers' r host h =
      elim (Bool-cases (ltb 300 (distance now body.timestamp))) [
        | inl e ↦ absurd (ground arith)
        | inr e ↦
            checked-Carried settings now body peers peers' r host (C.from_hex body.peer_pubkey_hex)
              (C.from_hex body.signature_hex) refl refl (ground arith) (simp e at h)
      ]
