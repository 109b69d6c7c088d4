-- ===== src/Limits/Identity.antt =====
-- `client_identity` of src/sns_media_list/api/limits.py. Python's `ipaddress` is a parameter.
use sns_media_list.Prelude.{
  ℕ, ◌≡◌, refl, Bool, true, false, ◌&&◌, not, Option, none, some, List, [], ◌∷◌, arith,
  if◌then◌else◌, any, ◌==◌, Bool-cases, inl, inr, Option-cases, ◌⊎◌, ◌≢◌,
}
use sns_media_list.Text.{Text, before, strip, is_space}

-- `ip_address(text)` and `ip_network(text, strict=False)`, `none` being the ValueError; `str` of an
-- address, `prefixlen` of a network and `address in network`.
pub record IpLibrary : Type 1 where
  pub Address : Type 0
  pub Network : Type 0
  pub ip_address : Text → Option Address
  pub ip_network : Text → Option Network
  pub show : Address → Text
  pub prefixlen : Network → ℕ
  pub belongs : Address → Network → Bool

-- `forwarded_for.split(",", 1)[0].strip()`
unfoldable pub first_hop : Text → Text
first_hop header = strip is_space (before b',' header)

module _ (lib : IpLibrary) where
  open lib use {Address, Network, ip_address, ip_network, show, prefixlen, belongs}

  -- the body of the loop over the configured networks
  unfoldable pub trusts : Address → Text → Bool
  trusts peer cidr = elim (ip_network cidr) [
    | none ↦ false
    | some network ↦ not (prefixlen network == 0) && belongs peer network
  ]

  unfoldable pub forwarded_identity : Address → Option Text → Text
  unfolding first_hop
  forwarded_identity peer none = show peer
  forwarded_identity peer (some []) = show peer
  forwarded_identity peer (some (c ∷ header)) = elim (ip_address (first_hop (c ∷ header))) [
    | none ↦ show peer
    | some address ↦ show address
  ]

  unfoldable pub client_identity : Text → Option Text → List Text → Text
  unfolding trusts forwarded_identity
  client_identity peer_ip forwarded_for trusted_proxy_cidrs = elim (ip_address peer_ip) [
    | none ↦ peer_ip
    | some peer ↦
        if any (trusts peer) trusted_proxy_cidrs
        then forwarded_identity peer forwarded_for
        else show peer
  ]

  -- A configured network, not the whole address space, that holds an address.
  abbrev pub IsTrusted : Address → List Text → Type 0
  IsTrusted peer [] = ⊥
  IsTrusted peer (cidr ∷ cidrs) =
      ((n : Network) × (ip_network cidr ≡ some n) × (prefixlen n ≢ 0) × (belongs peer n ≡ true))
      ⊎ IsTrusted peer cidrs

  -- where the identity of a client comes from
  pub data Origin (peer_ip : Text) (header : Option Text) (cidrs : List Text) (id : Text)
      : Type 0 where
    raw : ip_address peer_ip ≡ none → id ≡ peer_ip → Origin peer_ip header cidrs id
    socket :
        (peer : Address)
        → ip_address peer_ip ≡ some peer
        → id ≡ show peer
        → Origin peer_ip header cidrs id
    forwarded :
        (peer client : Address) (text : Text)
        → ip_address peer_ip ≡ some peer
        → IsTrusted peer cidrs
        → header ≡ some text
        → ip_address (first_hop text) ≡ some client
        → id ≡ show client
        → Origin peer_ip header cidrs id

  trusts-IsTrusted :
      (peer : Address) (cidrs : List Text) → any (trusts peer) cidrs ≡ true → IsTrusted peer cidrs
  unfolding trusts
  trusts-IsTrusted peer [] h = cc
  trusts-IsTrusted peer (cidr ∷ cidrs) h = elim (Option-cases (ip_network cidr)) [
    | inl e ↦ inr (trusts-IsTrusted peer cidrs (ground arith))
    | inr (n, e) ↦ elim (Bool-cases (not (prefixlen n == 0) && belongs peer n)) [
      | inl t ↦ inl (n, e, ground arith, ground arith)
      | inr f ↦ inr (trusts-IsTrusted peer cidrs (ground arith))
    ]
  ]

  forwarded_identity-Origin :
      (peer_ip : Text) (peer : Address) (header : Option Text) (cidrs : List Text)
      → ip_address peer_ip ≡ some peer
      → IsTrusted peer cidrs
      → Origin peer_ip header cidrs (forwarded_identity peer header)
  unfolding forwarded_identity
  forwarded_identity-Origin peer_ip peer none cidrs e t = socket peer e refl
  forwarded_identity-Origin peer_ip peer (some []) cidrs e t = socket peer e refl
  forwarded_identity-Origin peer_ip peer (some (c ∷ text)) cidrs e t =
      elim (Option-cases (ip_address (first_hop (c ∷ text)))) [
        | inl f ↦ socket peer e (rw (f, forwarded_identity) refl)
        | inr (client, f) ↦
            forwarded peer client (c ∷ text) e t refl f (rw (f, forwarded_identity) refl)
      ]

  -- The identity is the forwarded address only if the socket's peer lies in a configured network that
  -- is not the whole address space, and the first entry of the header is an address; otherwise it is
  -- the peer itself, as it stands where it is no address.
  pub client_identity-Origin :
      (peer_ip : Text) (header : Option Text) (cidrs : List Text)
      → Origin peer_ip header cidrs (client_identity peer_ip header cidrs)
  unfolding client_identity
  client_identity-Origin peer_ip header cidrs = elim (Option-cases (ip_address peer_ip)) [
    | inl e ↦ raw e (rw (e, client_identity) refl)
    | inr (peer, e) ↦ elim (Bool-cases (any (trusts peer) cidrs)) [
      | inl t ↦
          rw (e, client_identity, t)
            (forwarded_identity-Origin peer_ip peer header cidrs e (trusts-IsTrusted peer cidrs t))
      | inr f ↦ socket peer e (rw (e, client_identity, f) refl)
    ]
  ]
