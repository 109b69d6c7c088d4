-- ===== src/Proxy/Guard.antt =====
-- src/sns_media_list/network/connect_proxy.py and dns.py: where the proxy's tunnels lead.
use sns_media_list.Errors.{Result-cases, Result, ok}
use sns_media_list.Media.Policy.{Address, is_dot}
use sns_media_list.Media.Fetch.{
  Failure, timeout_error, os_error, runtime_error, incomplete_read, limit_overrun, encode_error,
}
use sns_media_list.Prelude.{
  ℕ, ◌≡◌, refl, ◌⊎◌, inl, inr, true, false, not, Option, none, some, List, [], ◌∷◌, any, length,
  ltb, ◌==◌, arith, Bool-cases, Either-cases, Option-cases,
}
use sns_media_list.Proxy.{
  ValidatedTarget, validate, Session, Answer, established, forbidden, refuse, tunnel, handle_client,
  parse_connect_request,
}
use sns_media_list.Text.{Text, one_of, rstrip, lower}

-- An allowed host on port 443, pinned to one of the addresses that it resolves to, all public.
pub record IsPublic (allowed_hosts : List Text) (resolver : Text → ℕ → Result (List Address))
    (target : ValidatedTarget) : Type 0 where
  pub allowed : one_of allowed_hosts (target.hostname) ≡ true
  pub https : target.port ≡ 443
  pub others : List Address
  pub resolved : resolver (target.hostname) 443 ≡ ok (target.address ∷ others)
  pub is_public : target.address.is_global ≡ true
  pub others_public : any (λ a. not (a.is_global)) others ≡ false

-- A tunnel leads to such a target and is answered as one; without a tunnel nothing is answered but
-- a refusal.
abbrev pub IsGuarded :
    List Text → (Text → ℕ → Result (List Address)) → Option ValidatedTarget → List Answer → Type 0
IsGuarded hosts resolver (some target) answers =
    IsPublic hosts resolver target × (answers ≡ established ∷ [])
IsGuarded hosts resolver none answers = (answers ≡ []) ⊎ (answers ≡ forbidden ∷ [])

module _ (hosts : List Text) (resolver : Text → ℕ → Result (List Address)) where
  validate-IsPublic :
      (hostname : Text) (port : ℕ) (target : ValidatedTarget)
      → validate hosts resolver hostname port ≡ ok target
      → IsPublic hosts resolver target
  unfolding validate
  validate-IsPublic hostname port target e =
      let normalized = rstrip is_dot (lower hostname) in
      elim (Bool-cases (port == 443)) [
        | inr elsewhere ↦ absurd (ground arith)
        | inl secure ↦
            let https : port ≡ 443 = ground arith in
            elim (Result-cases (resolver normalized port)) [
              | inl (f, fails) ↦ absurd (ground arith)
              | inr ([], answer) ↦ absurd (ground arith)
              | inr (address ∷ others, answer) ↦
                  let known : target.hostname ≡ normalized = ground arith in
                  let picked : target.address ≡ address = ground arith in
                  record {
                    allowed = rw known (ground arith);
                    https = ground arith;
                    others = others;
                    resolved = rw (known, picked) (rw https at answer);
                    is_public = rw picked (ground arith);
                    others_public = ground arith;
                  }
            ]
      ]

  refuse-IsGuarded :
      (f : Failure) → IsGuarded hosts resolver ((refuse f).target) ((refuse f).answers)
  unfolding refuse
  refuse-IsGuarded runtime_error = inl refl
  refuse-IsGuarded encode_error = inl refl
  refuse-IsGuarded timeout_error = inr refl
  refuse-IsGuarded os_error = inr refl
  refuse-IsGuarded incomplete_read = inr refl
  refuse-IsGuarded limit_overrun = inr refl

  tunnel-IsGuarded :
      (target : ValidatedTarget) (drained relayed : Option Failure)
      → IsPublic hosts resolver target
      → IsGuarded hosts resolver
          ((tunnel target drained relayed).target)
          ((tunnel target drained relayed).answers)
  tunnel-IsGuarded target (some f) relayed p = (p, refl)
  tunnel-IsGuarded target none none p = (p, refl)
  tunnel-IsGuarded target none (some f) p = (p, refl)

  -- Whatever a client of the proxy sends and however the awaited operations end, a tunnel leads to
  -- port 443 of an allowed host, at one of the addresses that it resolves to, all of them public,
  -- and is answered as established; without a tunnel the client is answered nothing or a refusal.
  pub handle_client-IsGuarded :
      (max_header_bytes : ℕ) (session : Session)
      → IsGuarded hosts resolver
          ((handle_client hosts resolver max_header_bytes session).target)
          ((handle_client hosts resolver max_header_bytes session).answers)
  unfolding handle_client
  handle_client-IsGuarded max_header_bytes session = elim (Either-cases (session.request)) [
    | inl (f, e) ↦ rw (e, handle_client) (refuse-IsGuarded f)
    | inr (request, e) ↦ elim (Bool-cases (ltb max_header_bytes (length request))) [
      | inl large ↦ rw (e, large, handle_client) (inr refl)
      | inr small ↦ elim (Result-cases (parse_connect_request request)) [
        | inl (f, bad) ↦ rw (e, small, bad, handle_client) (inr refl)
        | inr ((hostname, port), good) ↦ elim (Option-cases (session.validated)) [
          | inr (f, v) ↦ rw (e, small, good, v, handle_client) (refuse-IsGuarded f)
          | inl v ↦ elim (Result-cases (validate hosts resolver hostname port)) [
            | inl (f, bad) ↦ rw (e, small, good, v, bad, handle_client) (inr refl)
            | inr (target, valid) ↦ elim (Option-cases (session.connected)) [
              | inr (f, c) ↦ rw (e, small, good, v, valid, c, handle_client) (refuse-IsGuarded f)
              | inl c ↦
                  rw (e, small, good, v, valid, c, handle_client)
                    (tunnel-IsGuarded target (session.drained) (session.relayed)
                      (validate-IsPublic hostname port target valid))
            ]
          ]
        ]
      ]
    ]
  ]
