-- ===== src/Media/Policy.antt =====
-- src/sns_media_list/network/media_client.py: `MediaDestinationPolicy`, which pins a media URL to a
-- public address.
-- `urlsplit` and the resolver are parameters; an address comes with what `ipaddress` says of it.
use sns_media_list.Errors.{Result-cases, AppError, Result, err, ok, app_error, unsafe_destination}
use sns_media_list.Prelude.{
  ℕ, ◌≡◌, inl, inr, refl, sym, Bool, true, false, ◌||◌, not, Option, none, some, List, [], ◌∷◌, any,
  all, if◌then◌else◌, ltb, ◌==◌, arith, Option-cases,
}
use sns_media_list.Text.{Text, codes, text_eq, one_of, ends_with, lower, rstrip}

-- What `urllib.parse.urlsplit` finds in a URL, reading the port included; `none` for a port that
-- the URL does not name.
pub record SplitUrl : Type 0 where
  pub scheme : Text
  pub username : Option Text
  pub password : Option Text
  pub hostname : Option Text
  pub port : Option ℕ
  pub path : Text
  pub query : Text
  pub fragment : Text

pub record Address : Type 0 where
  pub text : Text
  pub is_global : Bool

-- The URL library and the resolver: `none` where `urlsplit` or `port` raises a `ValueError`.
pub record Network : Type 0 where
  pub urlsplit : Text → Option SplitUrl
  pub resolver : Text → ℕ → Result (List Address)

pub record MediaDestinationPolicy : Type 0 where
  pub allowed_exact_hosts : List Text
  pub allowed_suffixes : List Text

pub record ValidatedMediaTarget : Type 0 where
  pub url : Text
  pub hostname : Text
  pub port : ℕ
  pub address : Address
  pub path : Text
  pub query : Text

-- bool(text), for a text that may be None
abbrev pub is_set : Option Text → Bool
is_set none = false
is_set (some s) = not (text_eq s [])

abbrev pub or_empty : Option Text → Text
or_empty none = []
or_empty (some s) = s

abbrev pub is_dot : ℕ → Bool
is_dot c = c == b'.'

abbrev pub is_unsafe_char : ℕ → Bool
is_unsafe_char c = ltb c 0x20 || c == 0x7f || ltb 0x7f c

-- port in (None, 443)
abbrev pub is_https_port : Option ℕ → Bool
is_https_port none = true
is_https_port (some port) = port == 443

-- MediaDestinationPolicy._allowed_host
unfoldable pub allowed_host : MediaDestinationPolicy → Text → Bool
allowed_host policy hostname =
    one_of (policy.allowed_exact_hosts) hostname
    || any (λ suffix. text_eq hostname suffix || ends_with hostname (b'.' ∷ suffix))
        (policy.allowed_suffixes)

-- (parsed.hostname or "").lower().rstrip(".")
unfoldable pub clean_hostname : SplitUrl → Text
clean_hostname parsed = rstrip is_dot (lower (or_empty (parsed.hostname)))

abbrev pub not_public : AppError
not_public = app_error unsafe_destination "The media destination is not public."

-- The first of the addresses, if there is one and all are public.
unfoldable pub pin : List Address → Result Address
pin [] = err not_public
pin (address ∷ addresses) =
    if any (λ a. not (a.is_global)) (address ∷ addresses) then err not_public else ok address

-- MediaDestinationPolicy.validate_url
unfoldable pub validate_url : Network → MediaDestinationPolicy → Text → Result ValidatedMediaTarget
unfolding clean_hostname allowed_host pin
validate_url network policy url =
    if any is_unsafe_char url
    then err (app_error unsafe_destination "The media destination is invalid.")
    else elim (network.urlsplit url) [
      | none ↦ err (app_error unsafe_destination "The media destination is invalid.")
      | some parsed ↦
          let hostname = clean_hostname parsed in
          if not (text_eq (lower (parsed.scheme)) (codes "https"))
            || is_set (parsed.username)
            || is_set (parsed.password)
            || not (text_eq (parsed.fragment) [])
            || not (is_https_port (parsed.port))
            || not (allowed_host policy hostname)
          then err (app_error unsafe_destination "The media destination is not allowed.")
          else elim (network.resolver hostname 443) [
            | err e ↦ err e
            | ok addresses ↦ elim (pin addresses) [
              | err e ↦ err e
              | ok address ↦ ok (record {
                url = url;
                hostname = hostname;
                port = 443;
                address = address;
                path = if text_eq (parsed.path) [] then codes "/" else parsed.path;
                query = parsed.query;
              })
            ]
          ]
    ]

-- The target of a URL is on port 443 of an allowed host, at one of the addresses that the resolver
-- gave for the host, all of them public.
pub record IsSafe (network : Network) (policy : MediaDestinationPolicy)
    (target : ValidatedMediaTarget) : Type 0 where
  pub allowed : allowed_host policy (target.hostname) ≡ true
  pub https : target.port ≡ 443
  pub public : target.address.is_global ≡ true
  pub others : List Address
  pub resolved : network.resolver (target.hostname) 443 ≡ ok (target.address ∷ others)
  pub others_public : all (λ a. a.is_global) others ≡ true

none_private :
    (addresses : List Address)
    → any (λ a. not (a.is_global)) addresses ≡ false
    → all (λ a. a.is_global) addresses ≡ true
none_private [] h = refl
none_private (a ∷ others) h = ground (arith, none_private others)

-- The address that is picked is the first one, and all are public.
pin-public :
    (addresses : List Address) (address : Address)
    → pin addresses ≡ ok address
    → (others : List Address) × (addresses ≡ address ∷ others)
      × (address.is_global ≡ true)
      × (all (λ a. a.is_global) others ≡ true)
unfolding pin
pin-public [] address e = absurd (ground arith)
pin-public (a ∷ others) address e =
    let first : a ≡ address = ground arith in
    let whole = none_private others in
    rw (sym first) (others, refl, ground arith, ground (arith, whole))

pub validate_url-IsSafe :
    (network : Network) (policy : MediaDestinationPolicy) (url : Text)
    (target : ValidatedMediaTarget)
    → validate_url network policy url ≡ ok target
    → IsSafe network policy target
unfolding validate_url
validate_url-IsSafe network policy url target e = elim (Option-cases (network.urlsplit url)) [
  | inl invalid ↦ absurd (ground arith)
  | inr (parsed, split) ↦ elim (Result-cases (network.resolver (clean_hostname parsed) 443)) [
    | inl (f, fails) ↦ absurd (ground arith)
    | inr (addresses, resolved) ↦ elim (Result-cases (pin addresses)) [
      | inl (f, fails) ↦ absurd (ground arith)
      | inr (address, pinned) ↦
          let (others, is, public, others_public) = pin-public addresses address pinned in
          let host : target.hostname ≡ clean_hostname parsed = ground arith in
          let port : target.port ≡ 443 = ground arith in
          let picked : target.address ≡ address = ground arith in
          record {
            allowed = rw host (ground arith);
            https = port;
            public = rw picked public;
            others = others;
            resolved = rw (host, picked, sym is) resolved;
            others_public = others_public;
          }
    ]
  ]
]
