-- ===== src/Urls.antt =====
-- src/sns_media_list/url_validation.py: the URLs of posts and stories, and their redirects.
pub mod Paths
pub mod Targets
mod Examples
use sns_media_list.Errors.{AppError, Result, err, ok, app_error, unsupported_url}
use sns_media_list.Media.Policy.{SplitUrl, or_empty}
use sns_media_list.Models.{Platform, instagram, x}
use sns_media_list.Prelude.{
  ℕ, Bool, true, false, ◌&&◌, ◌||◌, not, Option, none, some, List, [], ◌∷◌, ◌++◌, any, all, length,
  if◌then◌else◌, ltb, leb, ◌==◌,
}
use sns_media_list.Text.{
  Text, codes, text_eq, one_of, contains, starts_with, ends_with, lower, split, rstrip, is_digit,
  is_upper, is_lower,
}

-- The URL library and `str.isdigit`: `none` where `urlsplit` or `port` raises a `ValueError`.
-- `urlunsplit` is of parts without credentials and port.
pub record UrlParts : Type 0 where
  pub urlsplit : Text → Option SplitUrl
  pub parse_qsl : Text → List (Text × Text)
  pub urlencode : List (Text × Text) → Text
  pub urlunsplit : SplitUrl → Text
  pub isdigit : Text → Bool

pub data TargetKind : Type 0 where
  post story : TargetKind

pub record ValidatedExtractionTarget : Type 0 where
  pub platform : Platform
  pub kind : TargetKind
  pub canonical_url : Text
  pub target_id : Text

-- _INSTAGRAM_HOSTS and _X_HOSTS
unfoldable pub hosts_of : Platform → List Text
hosts_of instagram = codes "instagram.com" ∷ codes "www.instagram.com" ∷ []
hosts_of x = codes "x.com" ∷ codes "www.x.com" ∷ codes "twitter.com" ∷ codes "www.twitter.com" ∷ []

-- _platform_for_host
unfoldable pub platform_for_host : Text → Option Platform
unfolding hosts_of one_of
platform_for_host hostname =
    if one_of (hosts_of instagram) hostname
    then some instagram
    else if one_of (hosts_of x) hostname
    then some x
    else none

-- _TRACKING_KEYS, and the prefix
unfoldable pub is_tracking_key : Text → Bool
unfolding one_of starts_with
is_tracking_key key =
    one_of (codes "ref" ∷ codes "s" ∷ codes "t" ∷ codes "cxt" ∷ codes "src" ∷ []) (lower key)
    || starts_with (lower key) (codes "utm_")

-- The pairs of a query that are kept.
unfoldable pub untracked : List (Text × Text) → List (Text × Text)
unfolding is_tracking_key
untracked [] = []
untracked ((key, value) ∷ query) =
    let others = untracked query in if is_tracking_key key then others else (key, value) ∷ others

abbrev pub trim_slashes : Text → Text
trim_slashes path = rstrip (λ c. c == b'/') path

-- [part for part in path.split("/") if part]
unfoldable pub filled : List Text → List Text
filled [] = []
filled ([] ∷ parts) = filled parts
filled ((c ∷ part) ∷ parts) = (c ∷ part) ∷ filled parts

abbrev is_post_kind : Text → Bool
is_post_kind part = one_of (codes "p" ∷ codes "reel" ∷ codes "tv" ∷ []) part

-- _match_instagram_post, of the parts
unfoldable pub match_instagram_post : List Text → Option Text
unfolding one_of
match_instagram_post (a ∷ b ∷ []) = if is_post_kind a then some b else none
match_instagram_post (a ∷ b ∷ c ∷ []) = if is_post_kind b then some c else none
match_instagram_post _ = none

abbrev is_username_char : ℕ → Bool
is_username_char c = is_upper c || is_lower c || is_digit c || c == b'.' || c == b'_'

-- whether a user name matches the pattern of a story's, and is none of the refused ones
unfoldable pub is_story_username : Text → Bool
unfolding text_eq starts_with ends_with contains
is_story_username username =
    all is_username_char username
    && leb 1 (length username)
    && leb (length username) 30
    && not (text_eq (lower username) (codes "highlights"))
    && not (starts_with username (codes "."))
    && not (ends_with username (codes "."))
    && not (contains (codes "..") username)

-- _match_instagram_story, of the parts between the slashes
unfoldable pub match_instagram_story : List Text → Option Text
unfolding text_eq is_story_username
match_instagram_story ([] ∷ stories ∷ username ∷ target_id ∷ [] ∷ []) =
    if text_eq stories (codes "stories")
      && is_story_username username
      && all is_digit target_id
      && leb 1 (length target_id)
    then some target_id
    else none
match_instagram_story _ = none

abbrev pub unsupported_scheme : AppError
unsupported_scheme =
    app_error unsupported_url "Only supported HTTPS media target URLs are accepted."

abbrev pub unsupported : AppError
unsupported = app_error unsupported_url "The URL is not supported."

abbrev pub unsupported_target : AppError
unsupported_target =
    app_error unsupported_url "Only supported single media target URLs are accepted."

abbrev pub platform_changed : AppError
platform_changed = app_error unsupported_url "Platform redirects cannot change platform."

abbrev pub too_many_redirects : AppError
too_many_redirects = app_error unsupported_url "The URL redirected too many times."

abbrev pub unresolved : AppError
unresolved = app_error unsupported_url "The URL did not resolve to a supported media target."

abbrev pub is_there : Option Text → Bool
is_there none = false
is_there (some _) = true

abbrev pub is_default_port : Option ℕ → Bool
is_default_port none = true
is_default_port (some port) = port == 443

abbrev pub hostname_of : SplitUrl → Text
hostname_of parsed = rstrip (λ c. c == b'.') (lower (or_empty (parsed.hostname)))

abbrev pub has_fragment_mark : Text → Bool
has_fragment_mark url = any (λ c. c == b'#') url

abbrev pub same_platform : Platform → Platform → Bool
same_platform instagram instagram = true
same_platform x x = true
same_platform _ _ = false

-- The parts of a canonical URL.
abbrev pub https_parts : Text → Text → Text → SplitUrl
https_parts hostname path query = record {
  scheme = codes "https";
  username = none;
  password = none;
  hostname = some hostname;
  port = none;
  path = path;
  query = query;
  fragment = [];
}

module _ (lib : UrlParts) where
  -- _match_x_post, of the parts
  unfoldable pub match_x_post : List Text → Option Text
  unfolding text_eq
  match_x_post (a ∷ b ∷ c ∷ []) =
      if text_eq b (codes "status") && (lib.isdigit) c
      then some c
      else if text_eq a (codes "i") && text_eq b (codes "web") && (lib.isdigit) c
      then some c
      else none
  match_x_post _ = none

  -- _canonicalize
  unfoldable pub canonicalize : SplitUrl → Text → Text
  unfolding rstrip untracked
  canonicalize parsed hostname = (lib.urlunsplit) (
      https_parts hostname (trim_slashes (parsed.path) ++ codes "/")
        ((lib.urlencode) (untracked ((lib.parse_qsl) (parsed.query)))))

  -- The kind, the canonical URL and the identifier of a URL of a platform.
  unfoldable pub match_target : Platform → SplitUrl → Text → TargetKind × Text × Option Text
  unfolding starts_with split filled match_instagram_post match_instagram_story match_x_post
      canonicalize
  match_target x parsed hostname =
      (post, canonicalize parsed hostname, match_x_post (filled (split b'/' (parsed.path))))
  match_target instagram parsed hostname =
      if starts_with (parsed.path) (codes "/stories/")
      then (
        story,
        (lib.urlunsplit) (https_parts (codes "www.instagram.com") (parsed.path) []),
        match_instagram_story (split b'/' (parsed.path)),
      )
      else (
        post,
        canonicalize parsed hostname,
        match_instagram_post (filled (split b'/' (parsed.path))),
      )

  -- The result for what is matched.
  abbrev pub target_of :
      Platform → TargetKind × Text × Option Text → Result ValidatedExtractionTarget
  target_of platform (kind, canonical_url, found) = elim found [
    | none ↦ err unsupported_target
    | some target_id ↦ ok (record {
      platform = platform;
      kind = kind;
      canonical_url = canonical_url;
      target_id = target_id;
    })
  ]

  -- validate_post_url
  unfoldable pub validate_post_url : Text → Result ValidatedExtractionTarget
  unfolding text_eq rstrip platform_for_host match_target
  validate_post_url url = elim ((lib.urlsplit) url) [
    | none ↦ err unsupported
    | some parsed ↦
        if not (text_eq (lower (parsed.scheme)) (codes "https"))
          || is_there (parsed.username)
          || is_there (parsed.password)
        then err unsupported_scheme
        else if has_fragment_mark url || not (is_default_port (parsed.port))
        then err unsupported
        else elim (platform_for_host (hostname_of parsed)) [
          | none ↦ err unsupported
          | some platform ↦ target_of platform (match_target platform parsed (hostname_of parsed))
        ]
  ]

  -- platform_for_url
  unfoldable pub platform_for_url : Text → Option Platform
  unfolding text_eq rstrip platform_for_host
  platform_for_url url = elim ((lib.urlsplit) url) [
    | none ↦ none
    | some parsed ↦
        if not (text_eq (lower (parsed.scheme)) (codes "https"))
          || is_there (parsed.username)
          || is_there (parsed.password)
          || has_fragment_mark url
          || not (is_default_port (parsed.port))
        then none
        else platform_for_host (hostname_of parsed)
  ]

  -- validate_platform_redirect_target
  unfoldable pub validate_platform_redirect_target : Text → Text → Result ValidatedExtractionTarget
  unfolding contains validate_post_url
  validate_platform_redirect_target source_url target_url =
      if contains (codes "/status/") source_url
      then elim (validate_post_url source_url) [
        | err e ↦ err e
        | ok source ↦ elim (validate_post_url target_url) [
          | err e ↦ err e
          | ok target ↦
              if same_platform (source.platform) (target.platform)
              then ok target
              else err platform_changed
        ]
      ]
      else validate_post_url target_url

  -- whether a target is of the platform of the source, where that is known
  abbrev pub is_on : Option Platform → ValidatedExtractionTarget → Bool
  is_on none target = true
  is_on (some platform) target = same_platform (target.platform) platform

  -- The loop of `validate_redirect_chain`, with the last target.
  unfoldable pub follow_targets :
      Option Platform
      → Option ValidatedExtractionTarget
      → List Text
      → Result (Option ValidatedExtractionTarget)
  unfolding validate_post_url
  follow_targets source_platform final [] = ok final
  follow_targets source_platform final (target_url ∷ targets) =
      elim (validate_post_url target_url) [
        | err e ↦ err e
        | ok target ↦
            if not (is_on source_platform target)
            then err platform_changed
            else follow_targets source_platform (some target) targets
      ]

  -- validate_redirect_chain, of the parts of the source URL
  unfoldable pub validate_redirect_chain :
      SplitUrl → List Text → ℕ → Result ValidatedExtractionTarget
  unfolding follow_targets platform_for_host rstrip
  validate_redirect_chain source_parts targets max_redirects =
      if ltb max_redirects (length targets)
      then err too_many_redirects
      else elim (follow_targets (platform_for_host (hostname_of source_parts)) none targets) [
        | err e ↦ err e
        | ok none ↦ err unresolved
        | ok (some final) ↦ ok final
      ]
