-- ===== src/Urls/Examples.antt =====
-- The canonical URL of a small post.
use sns_media_list.Errors.{ok}
use sns_media_list.Media.Policy.{SplitUrl}
use sns_media_list.Models.{x}
use sns_media_list.Prelude.{◌≡◌, refl, none, some, true, [], ◌∷◌, if◌then◌else◌}
use sns_media_list.Text.{Text, codes, text_eq, to_lower, rstrip, split, one_of, starts_with}
use sns_media_list.Urls.{
  UrlParts, ValidatedExtractionTarget, post, validate_post_url, https_parts, platform_for_host,
  hosts_of, match_target, match_x_post, canonicalize, untracked, is_tracking_key, filled,
}
use sns_media_list.Urls.Targets.{validate_post_url-canonical}

abbrev shared_url : Text
shared_url = codes "https://Twitter.com./a/status/12?lang=en&s=20"

abbrev canonical_url : Text
canonical_url = codes "https://twitter.com/a/status/12/?lang=en"

abbrev shared_parts : SplitUrl
shared_parts = record {
  scheme = codes "https";
  username = none;
  password = none;
  hostname = some (codes "twitter.com.");
  port = none;
  path = codes "/a/status/12";
  query = codes "lang=en&s=20";
  fragment = [];
}

abbrev lang_pair : Text × Text
lang_pair = (codes "lang", codes "en")

-- A library that knows these two URLs.
abbrev two_urls : UrlParts
two_urls = record {
  urlsplit = λ url.
      if text_eq url canonical_url
      then some (https_parts (codes "twitter.com") (codes "/a/status/12/") (codes "lang=en"))
      else some shared_parts;
  parse_qsl = λ query.
      if text_eq query (codes "lang=en")
      then lang_pair ∷ []
      else lang_pair ∷ (codes "s", codes "20") ∷ [];
  urlencode = λ pairs. codes "lang=en";
  urlunsplit = λ parts. canonical_url;
  isdigit = λ text. true;
}

abbrev shared_target : ValidatedExtractionTarget
shared_target = record {
  platform = x;
  kind = post;
  canonical_url = canonical_url;
  target_id = codes "12";
}

shared_accepted : validate_post_url two_urls shared_url ≡ ok shared_target
unfolding validate_post_url text_eq to_lower rstrip platform_for_host hosts_of one_of match_target
    match_x_post canonicalize filled split
shared_accepted = refl

validate_post_url-canonical_example : validate_post_url two_urls canonical_url ≡ ok shared_target
unfolding text_eq to_lower rstrip untracked is_tracking_key one_of starts_with
validate_post_url-canonical_example =
    validate_post_url-canonical two_urls shared_url shared_parts shared_target refl shared_accepted
      refl refl refl refl
