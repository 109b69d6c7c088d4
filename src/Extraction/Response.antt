-- ===== src/Extraction/Response.antt =====
-- src/sns_media_list/models.py: the response of an extraction, and its validation by pydantic.
use sns_media_list.Int.{ℤ, is_non_negative}
use sns_media_list.Models.{Platform, MediaType}
use sns_media_list.Normalizer.Extraction.{NormalizedExtraction}
use sns_media_list.Normalizer.Variants.{Duration}
use sns_media_list.Prelude.{ℕ, Bool, true, ◌&&◌, Option, none, some, List}
use sns_media_list.Text.{Text}

pub record MediaItem : Type 0 where
  pub media_type : MediaType
  pub filename : Text
  pub width : Option ℤ
  pub height : Option ℤ
  pub duration : Option Duration
  pub preview_url : Text
  pub download_url : Text

pub record ExtractionResponse : Type 0 where
  pub platform : Platform
  pub post_url : Text
  pub author : Option Text
  pub description : Option Text
  pub unavailable_media_count : ℕ
  pub media : List MediaItem

-- What pydantic accepts as a `str`, and as an `HttpUrl`.
pub record Validation : Type 0 where
  pub is_str : Text → Bool
  pub is_http_url : Text → Bool

-- whether an optional number that is to be ge=0 is accepted
abbrev pub is_size : Option ℤ → Bool
is_size none = true
is_size (some n) = is_non_negative n

abbrev pub is_length : Option Duration → Bool
is_length none = true
is_length (some d) = d.is_at_least_zero

abbrev pub is_optional_str : Validation → Option Text → Bool
is_optional_str valid none = true
is_optional_str valid (some text) = (valid.is_str) text

-- The validation of a `MediaItem`.
unfoldable pub is_valid_item : Validation → MediaItem → Bool
is_valid_item valid item =
    (valid.is_str) (item.filename)
    && is_size (item.width)
    && is_size (item.height)
    && is_length (item.duration)
    && (valid.is_str) (item.preview_url)
    && (valid.is_str) (item.download_url)

-- The validation of an `ExtractionResponse` of such items: its count is natural.
unfoldable pub is_valid_response : Validation → NormalizedExtraction → Bool
is_valid_response valid normalized =
    (valid.is_http_url) (normalized.post_url)
    && is_optional_str valid (normalized.author)
    && is_optional_str valid (normalized.description)
