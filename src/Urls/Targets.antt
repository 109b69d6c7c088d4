-- ===== src/Urls/Targets.antt =====
-- src/sns_media_list/url_validation.py: the canonical URL of an X post is its own.
use sns_media_list.Errors.{err, ok}
use sns_media_list.Media.Policy.{SplitUrl}
use sns_media_list.Models.{Platform, instagram, x}
use sns_media_list.Prelude.{
  ◌≡◌, refl, inl, inr, Bool, false, not, ◌||◌, Option, none, some, List, ◌++◌, arith, ap, subst,
  ◌∙◌, Bool-cases, Option-cases,
}
use sns_media_list.Text.{Text, codes, text_eq, lower, to_lower, split}
use sns_media_list.Urls.{
  TargetKind, target_of, unsupported, unsupported_scheme, UrlParts, ValidatedExtractionTarget,
  platform_for_host, untracked, trim_slashes, filled, hostname_of, has_fragment_mark, https_parts,
  match_x_post, canonicalize, match_target, validate_post_url, post, is_there, is_default_port,
}
use sns_media_list.Urls.Paths.{untracked_twice, x_host_fixed, canonical_parts, trim_canonical}

-- What is known of a URL that is accepted for X.
record IsPost (lib : UrlParts) (parsed : SplitUrl) (t : ValidatedExtractionTarget) : Type 0 where
  pub platform : platform_for_host (hostname_of parsed) ≡ some x
  pub found : match_x_post lib (filled (split b'/' (parsed.path))) ≡ some (t.target_id)
  pub kind : t.kind ≡ post
  pub on : t.platform ≡ x
  pub canonical : t.canonical_url ≡ canonicalize lib parsed (hostname_of parsed)

target_of_parts :
    (lib : UrlParts) (platform : Platform) (m : TargetKind × Text × Option Text)
    (t : ValidatedExtractionTarget)
    → target_of lib platform m ≡ ok t
    → (t.platform ≡ platform)
      × (t.kind ≡ m.0)
      × (t.canonical_url ≡ m.1)
      × (m.2 ≡ some (t.target_id))
target_of_parts lib platform (kind, canonical_url, none) t e = absurd (ground arith)
target_of_parts lib platform (kind, canonical_url, some target_id) t e =
    (ground arith, ground arith, ground arith, ground arith)

accepted-target_of :
    (lib : UrlParts) (url : Text) (parsed : SplitUrl) (t : ValidatedExtractionTarget)
    → (lib.urlsplit) url ≡ some parsed
    → validate_post_url lib url ≡ ok t
    → (platform : Platform) × (platform_for_host (hostname_of parsed) ≡ some platform)
      × (target_of lib platform (match_target lib platform parsed (hostname_of parsed)) ≡ ok t)
unfolding validate_post_url
accepted-target_of lib url parsed t e valid =
    let refuses : Bool =
      not (text_eq (lower (parsed.scheme)) (codes "https"))
      || is_there (parsed.username)
      || is_there (parsed.password) in
    let marked : Bool = has_fragment_mark url || not (is_default_port (parsed.port)) in
    elim (Bool-cases refuses) [
      | inl refused ↦
          let now : err unsupported_scheme ≡ ok t = rw (e, refused, validate_post_url) at valid in
          absurd (cc now)
      | inr secure ↦ elim (Bool-cases marked) [
        | inl refused ↦
            let now : err unsupported ≡ ok t =
              rw (e, secure, refused, validate_post_url) at valid in
            absurd (cc now)
        | inr clean ↦ elim (Option-cases (platform_for_host (hostname_of parsed))) [
          | inl unknown ↦
              let now : err unsupported ≡ ok t =
                rw (e, secure, clean, unknown, validate_post_url) at valid in
              absurd (cc now)
          | inr (platform, known) ↦
              (platform, known, rw (e, secure, clean, known, validate_post_url) at valid)
        ]
      ]
    ]

IsPost-target_of :
    (lib : UrlParts) (parsed : SplitUrl) (t : ValidatedExtractionTarget) (platform : Platform)
    → platform_for_host (hostname_of parsed) ≡ some platform
    → target_of lib platform (match_target lib platform parsed (hostname_of parsed)) ≡ ok t
    → t.platform ≡ x
    → IsPost lib parsed t
unfolding match_target
IsPost-target_of lib parsed t instagram known m on =
    let (p, _, _, _) =
      target_of_parts lib instagram (match_target lib instagram parsed (hostname_of parsed)) t m in
    absurd (cc (p, on))
IsPost-target_of lib parsed t x known m on =
    let (_, kind, canonical, found) =
      target_of_parts lib x (match_target lib x parsed (hostname_of parsed)) t m in
    record { platform = known; found = found; kind = kind; on = on; canonical = canonical }

accepted-IsPost :
    (lib : UrlParts) (url : Text) (parsed : SplitUrl) (t : ValidatedExtractionTarget)
    → (lib.urlsplit) url ≡ some parsed
    → validate_post_url lib url ≡ ok t
    → t.platform ≡ x
    → IsPost lib parsed t
accepted-IsPost lib url parsed t e valid on =
    let (platform, known, m) = accepted-target_of lib url parsed t e valid in
    IsPost-target_of lib parsed t platform known m on

-- The query that a canonical URL keeps.
abbrev pub kept_query : UrlParts → SplitUrl → List (Text × Text)
kept_query lib parsed = untracked ((lib.parse_qsl) (parsed.query))

abbrev pub canonical_parts_of : UrlParts → SplitUrl → SplitUrl
canonical_parts_of lib parsed =
    https_parts (hostname_of parsed) (trim_slashes (parsed.path) ++ codes "/")
      ((lib.urlencode) (kept_query lib parsed))

canonical_accepted :
    (lib : UrlParts) (url hostname path query : Text)
    → (lib.urlsplit) url ≡ some (https_parts hostname path query)
    → has_fragment_mark url ≡ false
    → platform_for_host (hostname_of (https_parts hostname path query)) ≡ some x
    → validate_post_url lib url
      ≡ target_of lib x (
          match_target lib x
            (https_parts hostname path query)
            (hostname_of (https_parts hostname path query)))
unfolding validate_post_url text_eq to_lower
canonical_accepted lib url hostname path query e unmarked known =
    rw (e, unmarked, known, validate_post_url) refl

rebuilt :
    (t : ValidatedExtractionTarget)
    → t.platform ≡ x
    → t.kind ≡ post
    → ok (record t { platform = x; kind = post }) ≡ ok t
rebuilt t on kind =
    subst (λ (p : Platform). ok (record t { platform = p; kind = post }) ≡ ok t) on
      (subst (λ (k : TargetKind). ok (record t { platform = t.platform; kind = k }) ≡ ok t) kind
        refl)

-- Where the URL library reads back the canonical URL that it wrote for a post of X, and its query,
-- and there is no fragment mark in that URL: the canonical URL is accepted, as the same target.
pub validate_post_url-canonical :
    (lib : UrlParts) (url : Text) (parsed : SplitUrl) (t : ValidatedExtractionTarget)
    → (lib.urlsplit) url ≡ some parsed
    → validate_post_url lib url ≡ ok t
    → t.platform ≡ x
    → (lib.urlsplit) (t.canonical_url) ≡ some (canonical_parts_of lib parsed)
    → (lib.parse_qsl) ((lib.urlencode) (kept_query lib parsed)) ≡ kept_query lib parsed
    → has_fragment_mark (t.canonical_url) ≡ false
    → validate_post_url lib (t.canonical_url) ≡ ok t
unfolding validate_post_url match_target canonicalize
validate_post_url-canonical lib url parsed t e valid on splits reads unmarked =
    let h = accepted-IsPost lib url parsed t e valid on in
    let parts = canonical_parts_of lib parsed in
    let hostname = hostname_of parsed in
    let fixed : hostname_of parts ≡ hostname = x_host_fixed hostname (h.platform) in
    let known : platform_for_host (hostname_of parts) ≡ some x = rw fixed (h.platform) in
    let written : canonicalize lib parts hostname ≡ canonicalize lib parsed hostname =
      rw
        (
          trim_canonical (parsed.path),
          reads,
          untracked_twice ((lib.parse_qsl) (parsed.query)),
          canonicalize,
        )
        refl in
    let found : match_x_post lib (filled (split b'/' (parts.path))) ≡ some (t.target_id) =
      rw (canonical_parts (parsed.path)) (h.found) in
    let m : match_target lib x parts (hostname_of parts)
        ≡ (post, t.canonical_url, some (t.target_id)) =
      rw (fixed, written, found, h.canonical, match_target) refl in
    let steps =
      canonical_accepted lib (t.canonical_url) hostname (trim_slashes (parsed.path) ++ codes "/")
        ((lib.urlencode) (kept_query lib parsed)) splits unmarked known in
    steps ∙ ap (target_of lib x) m ∙ rebuilt t on (h.kind)
