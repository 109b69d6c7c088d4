-- ===== src/Media/Fetch/Redirects.antt =====
-- src/sns_media_list/network/media_client.py: the destinations that `fetch` connects to.
use sns_media_list.Errors.{Result-cases}
use sns_media_list.Media.Fetch.{
  app, too_many_redirects, Raised, MediaResponse, Hop, MediaClient, Fetched, validate_target,
  fetch_target, is_redirect, visits, raise_outer, fetch_loop, fetch, normalize_request_headers,
}
use sns_media_list.Media.Headers.{header}
use sns_media_list.Media.Policy.{IsSafe, ValidatedMediaTarget, validate_url-IsSafe}
use sns_media_list.Models.{Headers}
use sns_media_list.Prelude.{
  ℕ, zero, suc, ◌+◌, ◌≤◌, ◌≡◌, refl, ◌⊎◌, inl, inr, false, ◌||◌, Option, List, [], ◌∷◌, length, leb,
  arith, Option-cases, Bool-cases, Either-cases,
}
use sns_media_list.Text.{Text, codes, text_eq}

-- The targets are numbered from `first` on, and each is safe by the network of its redirect.
abbrev pub AreSafe : MediaClient → (ℕ → Hop) → ℕ → List (ℕ × ValidatedMediaTarget) → Type 0
AreSafe client hops first [] = Unit
AreSafe client hops first ((n, target) ∷ more) =
    (n ≡ first)
    × (IsSafe ((hops first).network) (client.policy) target × AreSafe client hops (first + 1) more)

-- A response is not a redirect.
abbrev pub IsFinal : Raised ⊎ MediaResponse → Type 0
IsFinal (inl r) = Unit
IsFinal (inr response) = is_redirect (response.status_code) ≡ false

pub record IsFetched (client : MediaClient) (hops : ℕ → Hop) (first left : ℕ) (fetched : Fetched)
    : Type 0 where
  pub safe : AreSafe client hops first (fetched.0)
  pub bounded : length (fetched.0) ≤ left
  pub final : IsFinal (fetched.1)

validate_target-IsSafe :
    (client : MediaClient) (deadline : Option ℕ) (hop : Hop) (url : Text)
    (target : ValidatedMediaTarget)
    → validate_target client deadline hop url ≡ inr target
    → IsSafe (hop.network) (client.policy) target
unfolding validate_target
validate_target-IsSafe client deadline hop url target e =
    validate_url-IsSafe (hop.network) (client.policy) url target (ground arith)

-- No target, and something raised.
raises-IsFetched :
    (client : MediaClient) (hops : ℕ → Hop) (first left : ℕ) (r : Raised)
    → IsFetched client hops first left ([], inl r)
raises-IsFetched client hops first left r = record { safe = tt; bounded = omega arith; final = tt }

one-IsFetched :
    (client : MediaClient) (hops : ℕ → Hop) (first left : ℕ) (target : ValidatedMediaTarget)
    (outcome : Raised ⊎ MediaResponse)
    → IsSafe ((hops first).network) (client.policy) target
    → IsFinal outcome
    → IsFetched client hops first (suc left) ((first, target) ∷ [], outcome)
one-IsFetched client hops first left target outcome s f = record {
  safe = (refl, (s, tt));
  bounded = omega arith;
  final = f;
}

visits-IsFetched :
    (client : MediaClient) (hops : ℕ → Hop) (first left : ℕ) (target : ValidatedMediaTarget)
    (fetched : Fetched)
    → IsSafe ((hops first).network) (client.policy) target
    → IsFetched client hops (first + 1) left fetched
    → IsFetched client hops first (suc left) (visits (first, target) fetched)
visits-IsFetched client hops first left target (targets, outcome) s f = record {
  safe = (refl, (s, f.safe));
  bounded = omega (arith, f.bounded);
  final = f.final;
}

module _ (client : MediaClient) (deadline : Option ℕ) (hops : ℕ → Hop)
    (urljoin : Text → Text → Text) (headers : Headers) where
  fetch_loop-IsFetched :
      (left count : ℕ) (url : Text)
      → IsFetched client hops count left
          (fetch_loop client deadline hops urljoin headers left count url)
  unfolding fetch_loop
  fetch_loop-IsFetched zero count url = raises-IsFetched client hops count 0 _
  fetch_loop-IsFetched (suc left) count url =
      elim (Either-cases (validate_target client deadline (hops count) url)) [
        | inl (r, e) ↦ rw (e, fetch_loop) (raises-IsFetched client hops count (suc left) r)
        | inr (target, e) ↦
            let safe = validate_target-IsSafe client deadline (hops count) url target e in
            let stops = λ (outcome : Raised ⊎ MediaResponse) (f : IsFinal outcome).
              one-IsFetched client hops count left target outcome safe f in
            elim (Either-cases
              ((fetch_target client deadline (hops count) target headers).outcome)) [
                | inl (r, f) ↦ rw (e, f, fetch_loop) (stops (inl (raise_outer r)) tt)
                | inr (response, f) ↦ elim (Bool-cases (is_redirect (response.status_code))) [
                  | inr plain ↦ rw (e, f, plain, fetch_loop) (stops (inr response) plain)
                  | inl redirect ↦
                      elim (Option-cases (header (codes "location") (response.headers))) [
                        | inl missing ↦
                            rw (e, f, redirect, missing, fetch_loop)
                              (stops (inl (app too_many_redirects)) tt)
                        | inr (location, present) ↦
                            elim (Bool-cases
                              (text_eq location [] || leb (client.max_redirects) count)) [
                                | inl over ↦
                                    rw (e, f, redirect, present, over, fetch_loop)
                                      (stops (inl (app too_many_redirects)) tt)
                                | inr within ↦
                                    rw (e, f, redirect, present, within, fetch_loop)
                                      (visits-IsFetched client hops count left target _ safe (
                                        fetch_loop-IsFetched left (count + 1)
                                          (urljoin url location)))
                              ]
                      ]
                ]
              ]
      ]

-- Whatever the network does, `fetch` connects to at most `max_redirects + 1` targets, each of them
-- an allowed host on port 443 pinned to a public address of an answer with no other addresses, and
-- the response it returns is not a redirect.
pub fetch-IsFetched :
    (client : MediaClient) (hops : ℕ → Hop) (urljoin : Text → Text → Text) (now : ℕ)
    (headers : Headers) (range_start : Option ℕ) (url : Text)
    → IsFetched client hops 0
        (client.max_redirects + 1)
        (fetch client hops urljoin now headers range_start url)
unfolding fetch
fetch-IsFetched client hops urljoin now headers range_start url =
    elim (Result-cases (normalize_request_headers headers)) [
      | inl (f, e) ↦
          rw (e, fetch) (raises-IsFetched client hops 0 (client.max_redirects + 1) (app f))
      | inr (request_headers, e) ↦
          rw (e, fetch)
            (fetch_loop-IsFetched client _ hops urljoin _ (client.max_redirects + 1) 0 url)
    ]
