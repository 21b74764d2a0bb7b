-- ===== src/Federation/Peers/Forwarding.antt =====
-- Which forwards get past the checks of the relay that sends them.
use morok_relay.Prelude.{
  ℕ, ◌≤◌, String, true, false, Option, none, some, List, [], ◌∷◌, ltb, ◌≡◌, refl, sym, ap, ◌∙◌,
  arith, Bool-cases, inl, inr,
}
use morok_relay.Prelude.Json.{Dict}
use morok_relay.Exec.{ok}
use morok_relay.SensitiveAction.{distance}
use morok_relay.Dms.{Codec}
use morok_relay.Federation.{Message, forward_message, Signer, FederationPeer, ForwardRequest}
use morok_relay.Federation.Client.{
  Identity, Network, forward_request, forward_payload, connection, resolve_pinned_peer,
  pinned_request, remote_forward,
}
use morok_relay.Federation.Peers.{peers_of_key, trusted_peer, checked_relay, forwarding_peer}

trusted-Sound :
    (found : List FederationPeer) (peer : FederationPeer)
    → trusted_peer found ≡ ok peer
    → (found ≡ peer ∷ []) × (peer.is_trusted ≡ true)
trusted-Sound [] peer h = ground arith
trusted-Sound (p ∷ []) peer h = elim (Bool-cases p.is_trusted) [
  | inl e ↦
      let same : p ≡ peer = ground arith in
      (ap (λ x. x ∷ []) same, ap (λ x. x.is_trusted) (sym same) ∙ e)
  | inr e ↦ ground arith
]
trusted-Sound (p ∷ q ∷ found) peer h = ground arith

module _ ⦃C : Codec⦄ ⦃S : Signer⦄ where
  -- what a forward proves of its sender
  pub record IsForwarder (now : ℕ) (body : ForwardRequest) (peers : List FederationPeer)
      (peer : FederationPeer) : Type 0 where
    pub pubkey : String
    pub signature : String
    pub key_bytes : C.from_hex body.relay_pubkey_hex ≡ some pubkey
    pub signature_bytes : C.from_hex body.relay_signature_hex ≡ some signature
    pub in_window : distance now body.forwarded_at ≤ 300
    pub signed :
        S.verify
          (forward_message body.envelope body.relay_pubkey_hex body.forwarded_at)
          signature
          pubkey
        ≡ true
    pub only_one : peers_of_key pubkey peers ≡ peer ∷ []
    pub trusted : peer.is_trusted ≡ true

  -- what the signer gives is the text of a signature of the message that is good under the key
  abbrev pub GoodSignature : String → Message → Option String → Type 0
  GoodSignature pubkey m signed =
      (hex : String) × ((signature : String) × (signed ≡ some hex
          × C.from_hex hex ≡ some signature
          × S.verify m signature pubkey ≡ true))

  checked-IsForwarder :
      (now : ℕ) (body : ForwardRequest) (peers : List FederationPeer) (peer : FederationPeer)
      (key signature : Option String)
      → C.from_hex body.relay_pubkey_hex ≡ key
      → C.from_hex body.relay_signature_hex ≡ signature
      → checked_relay now body key signature peers ≡ ok peer
      → IsForwarder now body peers peer
  checked-IsForwarder now body peers peer none signature k s h = ground arith
  checked-IsForwarder now body peers peer (some key) none k s h = ground arith
  checked-IsForwarder now body peers peer (some key) (some signature) k s h =
      elim (Bool-cases (ltb 300 (distance now body.forwarded_at))) [
        | inl e ↦ ground arith
        | inr e ↦
            elim (Bool-cases (
              S.verify (forward_message body.envelope body.relay_pubkey_hex body.forwarded_at)
                signature key)) [
                  | inl f ↦
                      let (only, trust) =
                        trusted-Sound (peers_of_key key peers) peer (simp (e, f) at h) in
                      record {
                        pubkey = key;
                        signature = signature;
                        key_bytes = k;
                        signature_bytes = s;
                        in_window = ground arith;
                        signed = f;
                        only_one = only;
                        trusted = trust;
                      }
                  | inr f ↦ ground arith
                ]
      ]

  -- A forward that gets past the checks of its sender was signed, not more than five minutes before
  -- or after, with the key of the one peer in the table that has it, and that peer is trusted.
  pub forwarding_peer-IsForwarder :
      (now : ℕ) (body : ForwardRequest) (peers : List FederationPeer) (peer : FederationPeer)
      → forwarding_peer now body peers ≡ ok peer
      → IsForwarder now body peers peer
  unfolding forwarding_peer
  forwarding_peer-IsForwarder now body peers peer =
      checked-IsForwarder now body peers peer (C.from_hex body.relay_pubkey_hex)
        (C.from_hex body.relay_signature_hex) refl refl

  module _ ⦃N : Network⦄ where
    -- If the peer's host resolves to public addresses and the relay's two keys belong together, so
    -- that it can sign and its signatures are good under the public one, then `remote_forward` sends
    -- one request, to the first address, with the envelope in it, and this request gets past the
    -- checks of a relay that trusts the key and has no other peer with it, if the clocks differ by
    -- five minutes at most.
    pub remote_forward-forwarding_peer :
        (i : Identity) (sent_at now : ℕ) (hostname ip : String) (envelope : Dict)
        (peers : List FederationPeer) (peer : FederationPeer) (pubkey : String)
        → resolve_pinned_peer hostname ≡ some ip
        → C.from_hex i.relay_pubkey_hex ≡ some pubkey
        → ((m : Message) → GoodSignature pubkey m (S.sign m i.relay_privkey_hex))
        → distance now sent_at ≤ 300
        → peers_of_key pubkey peers ≡ peer ∷ []
        → peer.is_trusted ≡ true
        → (body : ForwardRequest) × ((remote_forward i sent_at hostname envelope).1
              ≡ connection ip hostname "/api/v1/federation/forward" (forward_payload body) ∷ []
            × body.envelope ≡ envelope
            × forwarding_peer now body peers ≡ ok peer)
    unfolding remote_forward pinned_request forwarding_peer
    remote_forward-forwarding_peer i sent_at now hostname ip envelope peers peer pubkey found key
          pair near only trusted =
        let (hex, (signature, (signed, sig, good))) =
          pair (forward_message envelope i.relay_pubkey_hex sent_at) in
        let near' : ltb 300 (distance now sent_at) ≡ false = ground arith in
        (
          forward_request i sent_at envelope hex,
          (rw (signed, found) refl, refl, simp (key, sig, near', good, only, trusted) refl),
        )
