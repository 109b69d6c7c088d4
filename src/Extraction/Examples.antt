-- ===== src/Extraction/Examples.antt =====
-- The extraction of a post of two media, with generated previews.
use sns_media_list.Errors.{Result, ok}
use sns_media_list.Extraction.{Settings, Extracted, validation_error, extract}
use sns_media_list.Extraction.Response.{Validation}
use sns_media_list.Int.{ℤ, pos, negsuc}
use sns_media_list.Media.Policy.{SplitUrl}
use sns_media_list.Models.{x, video}
use sns_media_list.Normalizer.Extraction.{UrlLibrary}
use sns_media_list.Normalizer.Variants.{GalleryItem}
use sns_media_list.Prelude.{
  ℕ, zero, suc, String, ◌≡◌, refl, map, Option, none, some, not, true, false, List, [], ◌∷◌,
}
use sns_media_list.Text.{codes, text_eq}
use sns_media_list.Tokens.{TokenStore}
use sns_media_list.Urls.{UrlParts, ValidatedExtractionTarget}

abbrev post_parts : SplitUrl
post_parts = record {
  scheme = codes "https";
  username = none;
  password = none;
  hostname = some (codes "x.com");
  port = none;
  path = codes "/a/status/12";
  query = [];
  fragment = [];
}

abbrev post_lib : UrlParts
post_lib = record {
  urlsplit = λ url. some post_parts;
  parse_qsl = λ query. [];
  urlencode = λ pairs. [];
  urlunsplit = λ parts. codes "https://x.com/a/status/12/";
  isdigit = λ text. true;
}

abbrev media_urls : UrlLibrary
media_urls = record {
  urlsplit = λ url. some post_parts;
  port_is_invalid = λ url. false;
  parse_qsl = λ query. some [];
  urlencode = λ pairs. [];
  urlunsplit = λ parts. parts.path;
}

abbrev post_item : ℕ → Option ℤ → GalleryItem
post_item index width = record {
  platform = x;
  post_url = codes "https://x.com/a/status/12";
  post_id = codes "12";
  index = index;
  media_type = video;
  source_url = some (codes "https://video.twimg.com/a.mp4");
  author = some (codes "a");
  description = none;
  preview_url = none;
  extension = codes "mp4";
  width = width;
  height = none;
  duration = none;
  progressive = true;
  bitrate = pos 0;
  extractor_type = pos 0;
}

abbrev two_items : ValidatedExtractionTarget → Result (List GalleryItem)
two_items target = ok (post_item 2 none ∷ post_item 1 (some (pos 640)) ∷ [])

abbrev four_tokens : ℕ → String
four_tokens zero = "a"
four_tokens (suc zero) = "b"
four_tokens (suc (suc zero)) = "c"
four_tokens (suc (suc (suc n))) = "d"

abbrev with_previews : Settings
with_previews = record { media_limit = 20; generated_previews_enabled = true }

abbrev empty_store : TokenStore
empty_store = record { capacity = 4; ttl = 600; records = [] }

-- Every text is accepted but the empty one as a URL.
abbrev lenient : Validation
lenient = record { is_str = λ text. true; is_http_url = λ text. not (text_eq text []) }

abbrev extracted : (ValidatedExtractionTarget → Result (List GalleryItem)) → TokenStore × Extracted
extracted extractor =
    extract post_lib media_urls lenient with_previews extractor four_tokens 0 0 (codes "u")
      empty_store

-- A negative width is refused when the tokens are stored.
abbrev negative_width : ValidatedExtractionTarget → Result (List GalleryItem)
negative_width target = ok (post_item 1 (some (negsuc 0)) ∷ [])

tokens_left :
    ((extracted negative_width).1 ≡ validation_error)
    × (map (λ r. r.0) ((extracted negative_width).0.records) ≡ "a" ∷ "b" ∷ [])
unfolding extract sns_media_list.Text.to_lower sns_media_list.Dict.set
    sns_media_list.Media.Forward.build_media_request_headers
tokens_left = (refl, refl)
