-- ===== src/Media/Resume.antt =====
-- src/sns_media_list/network/media_client.py: the Content-Range of a resumed download.
use sns_media_list.Errors.{Result-cases, err, ok, AppError, app_error, upstream_media_invalid}
use sns_media_list.Media.Body.{content_length, max_str_digits}
use sns_media_list.Media.Fetch.{MediaResponse}
use sns_media_list.Media.Headers.{header}
use sns_media_list.Media.Policy.{or_empty}
use sns_media_list.Prelude.{
  ℕ, ◌+◌, ◌-◌, ◌≡◌, ◌<◌, ◌≤◌, refl, Bool, true, ◌&&◌, ◌||◌, not, Option, none, some, [], ◌⊎◌, inl,
  inr, length, all, if◌then◌else◌, ltb, leb, ◌==◌, arith, Option-cases,
}
use sns_media_list.Text.{
  Text, codes, text_eq, starts_with, partition, before, is_digit, decimal, strip, is_space, lower,
}

pub record ParsedContentRange : Type 0 where
  pub start : ℕ
  pub end : ℕ
  pub total : ℕ

abbrev pub range_error : AppError
range_error = app_error upstream_media_invalid "The media response Content-Range is invalid."

-- How reading a Content-Range fails: by an `AppError`, or by the `ValueError` of an `int` of too many digits.
pub data Parsed : Type 0 where
  invalid : AppError → Parsed
  value_error : Parsed
  parsed : ParsedContentRange → Parsed

-- ([0-9]+)
abbrev pub is_number : Text → Bool
is_number s = not (text_eq s []) && all is_digit s

-- token != "0" and token.startswith("0")
abbrev pub is_padded : Text → Bool
is_padded s = not (text_eq s (codes "0")) && starts_with s (codes "0")

-- The three groups of re.fullmatch(r"bytes ([0-9]+)-([0-9]+)/([0-9]+)", value)
unfoldable pub range_tokens : Text → Option (Text × (Text × Text))
range_tokens value =
    let (unit, ranges) = partition 0x20 value in
    let (start, more) = partition b'-' (or_empty ranges) in
    let (end, total) = partition b'/' (or_empty more) in
    if text_eq unit (codes "bytes")
      && is_number start
      && is_number end
      && is_number (or_empty total)
    then some (start, (end, or_empty total))
    else none

-- _parse_content_range; a value that is not ASCII does not match
unfoldable pub parse_content_range : Text → Parsed
unfolding range_tokens
parse_content_range value = elim (range_tokens value) [
  | none ↦ invalid range_error
  | some (first, (last, whole)) ↦
      let start = decimal 0 first in
      let end = decimal 0 last in
      let total = decimal 0 whole in
      if is_padded first || is_padded last || is_padded whole
      then invalid range_error
      else if ltb max_str_digits (length first)
          || ltb max_str_digits (length last)
          || ltb max_str_digits (length whole)
      then value_error
      else if ltb end start || leb total end
      then invalid range_error
      else parsed (record { start = start; end = end; total = total })
]

-- value.split(";", 1)[0].strip().lower()
unfoldable pub media_type : Text → Text
media_type value = lower (strip is_space (before b';' value))

abbrev pub not_partial : AppError
not_partial = app_error upstream_media_invalid "The resumed media response was not partial."

abbrev pub resumed_range_error : AppError
resumed_range_error = app_error upstream_media_invalid "The resumed media range is invalid."

abbrev pub resumed_type_error : AppError
resumed_type_error = app_error upstream_media_invalid "The resumed media content type is invalid."

abbrev pub resumed_length_error : AppError
resumed_length_error = app_error upstream_media_invalid "The resumed media length is invalid."

-- validate_resume_response, where the body may have at most `max_bytes`
unfoldable pub validate_resume_response : MediaResponse → ℕ → ℕ → ℕ → Text → Parsed
unfolding parse_content_range media_type content_length header
validate_resume_response response max_bytes requested_offset original_total_length
      original_content_type =
    if not (response.status_code == 206)
    then invalid not_partial
    else if original_total_length == 0
    then invalid resumed_range_error
    else elim (header (codes "content-range") (response.headers)) [
      | none ↦ invalid range_error
      | some value ↦ elim (parse_content_range value) [
        | invalid e ↦ invalid e
        | value_error ↦ value_error
        | parsed range ↦
            if not (range.start == requested_offset)
              || not (range.end == original_total_length - 1)
              || not (range.total == original_total_length)
            then invalid range_error
            else if text_eq (media_type original_content_type) []
                || not (
                    text_eq
                      (media_type (or_empty (header (codes "content-type") (response.headers))))
                      (media_type original_content_type))
            then invalid resumed_type_error
            else elim (content_length (response.headers) max_bytes) [
              | err e ↦ invalid e
              | ok none ↦ parsed range
              | ok (some n) ↦
                  if not (n == range.end - range.start + 1)
                  then invalid resumed_length_error
                  else parsed range
            ]
      ]
    ]

-- The part that a resumed response may carry: what is missing of the first download, whole.
pub record IsRest (response : MediaResponse) (max_bytes offset total : ℕ) (content_type : Text)
    (range : ParsedContentRange) : Type 0 where
  pub partial : response.status_code ≡ 206
  pub start : range.start ≡ offset
  pub end : range.end + 1 ≡ total
  pub within : offset < total
  pub same_type :
      text_eq
        (media_type (or_empty (header (codes "content-type") (response.headers))))
        (media_type content_type)
      ≡ true
  pub missing :
      (content_length (response.headers) max_bytes ≡ ok none)
      ⊎ (content_length (response.headers) max_bytes ≡ ok (some (total - offset)))

parse_content_range_bounds :
    (value : Text) (range : ParsedContentRange)
    → parse_content_range value ≡ parsed range
    → (range.start ≤ range.end) × (range.end < range.total)
unfolding parse_content_range
parse_content_range_bounds value range e = elim (Option-cases (range_tokens value)) [
  | inl unmatched ↦ absurd (ground arith)
  | inr ((first, (last, whole)), matched) ↦ ground arith
]

pub Parsed-cases :
    (p : Parsed)
    → ((range : ParsedContentRange) × (p ≡ parsed range))
      ⊎ (((e : AppError) × (p ≡ invalid e)) ⊎ (p ≡ value_error))
Parsed-cases (parsed range) = inl (range, refl)
Parsed-cases (invalid e) = inr (inl (e, refl))
Parsed-cases value_error = inr (inr refl)

-- A response accepted for a resumed download at an offset is partial, its range starts at that
-- offset and ends with the last byte of a download of the original length, its media type is the
-- original one, and a Content-Length that it has is the length of the range.
pub validate_resume_response-IsRest :
    (response : MediaResponse) (max_bytes offset total : ℕ) (content_type : Text)
    (range : ParsedContentRange)
    → validate_resume_response response max_bytes offset total content_type ≡ parsed range
    → IsRest response max_bytes offset total content_type range
unfolding validate_resume_response
validate_resume_response-IsRest response max_bytes offset total content_type range e =
    elim (Option-cases (header (codes "content-range") (response.headers))) [
      | inl missing ↦ absurd (ground arith)
      | inr (value, present) ↦ elim (Parsed-cases (parse_content_range value)) [
        | inr (inl (f, fails)) ↦ absurd (ground arith)
        | inr (inr fails) ↦ absurd (ground arith)
        | inl (found, is_parsed) ↦
            let bounds = parse_content_range_bounds value found is_parsed in
            elim (Result-cases (content_length (response.headers) max_bytes)) [
              | inl (f, fails) ↦ absurd (ground arith)
              | inr (none, known) ↦
                  let picked : range ≡ found = ground arith in
                  rw picked (record {
                    partial = ground arith;
                    start = ground arith;
                    end = ground (arith, bounds);
                    within = ground (arith, bounds);
                    same_type = ground arith;
                    missing = inl known;
                  })
              | inr (some n, known) ↦
                  let picked : range ≡ found = ground arith in
                  let left : n ≡ total - offset = ground (arith, bounds) in
                  rw picked (record {
                    partial = ground arith;
                    start = ground arith;
                    end = ground (arith, bounds);
                    within = ground (arith, bounds);
                    same_type = ground arith;
                    missing = inr (rw left at known);
                  })
            ]
      ]
    ]
