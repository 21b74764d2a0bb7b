-- ===== src/Federation/Client/Pinned.antt =====
-- Where the calls of other relays connect to.
use Prim.Native.String.{◌++◌ as ◌+ˢ◌}
use morok_relay.Prelude.{
  ℕ, String, Bool, true, false, Option, none, some, List, [], ◌∷◌, ◌≡◌, ◌≢◌, refl, arith,
  Bool-cases, Option-cases, inl, inr, if◌then◌else◌,
}
use morok_relay.Prelude.Json.{Dict}
use morok_relay.Federation.{handshake_message, forward_message, pull_message, Signer}
use morok_relay.Federation.Hostname.{is_hostname}
use morok_relay.Federation.Client.{
  Resolved, addresses, name_error, system_error, Connection, Payload, Network, Identity, all_public,
  pinned, resolve_pinned_peer, safe, is_safe_peer_hostname, pinned_request, handshake_with,
  forward_with, pull_with, remote_handshake, remote_forward, remote_lookup,
  remote_pull_group_snapshot,
}

module _ ⦃N : Network⦄ where
  -- The host of the URL is an address, in brackets if it has a colon, and not a name: the first of
  -- the addresses that the resolver gave for the peer's host, every one of which is public. The
  -- `Host` header and the certificate are for the peer's host, which has the form of a full domain
  -- name.
  pub record IsPinned (hostname : String) (c : Connection) : Type 0 where
    pub named : c.host ≡ hostname
    pub certified : c.sni_hostname ≡ hostname
    pub well_formed : is_hostname hostname ≡ true
    pub ip : String
    pub others : List String
    pub resolved : N.getaddrinfo hostname ≡ addresses (ip ∷ others)
    pub all_are_public : all_public (ip ∷ others) ≡ true
    pub connects_to : c.host_for_url ≡ (if N.has_colon ip then "[" +ˢ (ip +ˢ "]") else ip)

  abbrev pub AllPinned : String → List Connection → Type 0
  AllPinned hostname [] = Unit {0}
  AllPinned hostname (c ∷ cs) = IsPinned hostname c × AllPinned hostname cs

  abbrev Found : String → String → Resolved → Type 0
  Found hostname ip r =
      (others : List String) × (r ≡ addresses (ip ∷ others)) × (all_public (ip ∷ others) ≡ true)

  pinned_found : (hostname ip : String) (r : Resolved) → pinned r ≡ some ip → Found hostname ip r
  unfolding pinned
  pinned_found hostname ip (addresses []) h = ground arith
  pinned_found hostname ip (addresses (a ∷ others)) h =
      elim (Bool-cases (all_public (a ∷ others))) [
        | inl e ↦ (others, ground arith, ground arith)
        | inr e ↦ absurd (ground arith)
      ]
  pinned_found hostname ip name_error h = ground arith
  pinned_found hostname ip system_error h = ground arith

  resolve-Found :
      (hostname ip : String)
      → resolve_pinned_peer hostname ≡ some ip
      → (is_hostname hostname ≡ true) × Found hostname ip (N.getaddrinfo hostname)
  unfolding resolve_pinned_peer
  resolve-Found hostname ip h = elim (Bool-cases (is_hostname hostname)) [
    | inl e ↦ (e, pinned_found hostname ip (N.getaddrinfo hostname) (simp e at h))
    | inr e ↦ absurd (ground arith)
  ]

  pinned_request-AllPinned :
      (hostname path : String) (payload : Payload)
      → AllPinned hostname (pinned_request hostname path payload).1
  unfolding pinned_request
  pinned_request-AllPinned hostname path payload =
      elim (Option-cases (resolve_pinned_peer hostname)) [
        | inl e ↦ simp e tt
        | inr (ip, e) ↦
            let (form, (others, resolved, all_are_public)) = resolve-Found hostname ip e in
            simp e (
              record {
                named = refl;
                certified = refl;
                well_formed = form;
                ip = ip;
                others = others;
                resolved = resolved;
                all_are_public = all_are_public;
                connects_to = refl;
              },
              tt,
            )
      ]

  -- Every connection that a lookup makes is pinned.
  pub remote_lookup-AllPinned :
      (hostname username : String) → AllPinned hostname (remote_lookup hostname username).1
  unfolding remote_lookup
  remote_lookup-AllPinned hostname username = pinned_request-AllPinned hostname _ _

  module _ ⦃S : Signer⦄ where
    handshake-AllPinned :
        (i : Identity) (now : ℕ) (hostname : String) (signature : Option String)
        → AllPinned hostname (handshake_with i now hostname signature).1
    handshake-AllPinned i now hostname none = tt
    handshake-AllPinned i now hostname (some s) = pinned_request-AllPinned hostname _ _

    forward-AllPinned :
        (i : Identity) (now : ℕ) (hostname : String) (envelope : Dict) (signature : Option String)
        → AllPinned hostname (forward_with i now hostname envelope signature).1
    forward-AllPinned i now hostname envelope none = tt
    forward-AllPinned i now hostname envelope (some s) = pinned_request-AllPinned hostname _ _

    pull-AllPinned :
        (i : Identity) (now : ℕ) (hostname group_id caller : String) (signature : Option String)
        → AllPinned hostname (pull_with i now hostname group_id caller signature).1
    pull-AllPinned i now hostname group_id caller none = tt
    pull-AllPinned i now hostname group_id caller (some s) = pinned_request-AllPinned hostname _ _

    -- Every request of a handshake, a forward or a pull of a group has an address for the host of
    -- its URL, which the resolver gave for the peer's host, when all of the addresses that it gave
    -- are public; the `Host` header and the name for the certificate are the peer's host.
    pub remote_calls-AllPinned :
        (i : Identity) (now : ℕ) (hostname group_id caller : String) (envelope : Dict)
        → AllPinned hostname (remote_handshake i now hostname).1
          × AllPinned hostname (remote_forward i now hostname envelope).1
          × AllPinned hostname (remote_pull_group_snapshot i now hostname group_id caller).1
    unfolding remote_handshake remote_forward remote_pull_group_snapshot
    remote_calls-AllPinned i now hostname group_id caller envelope = (
      handshake-AllPinned i now hostname
          (S.sign (handshake_message i.relay_name i.relay_pubkey_hex now) i.relay_privkey_hex),
      forward-AllPinned i now hostname envelope
          (S.sign (forward_message envelope i.relay_pubkey_hex now) i.relay_privkey_hex),
      pull-AllPinned i now hostname group_id caller
          (S.sign (pull_message group_id caller i.relay_pubkey_hex now) i.relay_privkey_hex),
    )

  abbrev pub is_some : Option String → Bool
  is_some none = false
  is_some (some ip) = true

  safe-pinned : (r : Resolved) → r ≢ system_error → safe r ≡ some (is_some (pinned r))
  unfolding safe pinned
  safe-pinned (addresses []) h = refl
  safe-pinned (addresses (a ∷ others)) h = ground arith
  safe-pinned name_error h = refl
  safe-pinned system_error h = absurd (h refl)

  -- Unless the resolver fails with an error of the operating system, the older check of a host
  -- accepts exactly the hosts for which the newer one gives an address to connect to.
  pub safe-resolve :
      (hostname : String)
      → N.getaddrinfo hostname ≢ system_error
      → is_safe_peer_hostname hostname ≡ some (is_some (resolve_pinned_peer hostname))
  unfolding is_safe_peer_hostname resolve_pinned_peer
  safe-resolve hostname h = elim (Bool-cases (is_hostname hostname)) [
    | inl e ↦ simp e (safe-pinned (N.getaddrinfo hostname) h)
    | inr e ↦ simp e refl
  ]
