-- ===== src/Media/Headers.antt =====
-- src/sns_media_list/network/media_client.py: the status line and the headers of a response.
-- A `ValueError`, which the callers turn into an `AppError`, is `none`.

pub mod Safety
use sns_media_list.Errors.{AppError, Result, err, ok, ◌>>=◌, app_error, upstream_media_invalid}
use sns_media_list.Models.{Headers}
use sns_media_list.Prelude.{
  ℕ, ◌+◌, ◌++◌, ◌≡◌, refl, Bool, true, false, ◌&&◌, ◌||◌, not, Option, none, some, List, [], ◌∷◌,
  all, length, if◌then◌else◌, leb, ltb, ◌==◌,
}
use sns_media_list.Text.{
  Text, codes, text_eq, one_of, partition, before, strip, lower, is_digit, is_upper, is_lower,
  decimal, split,
}

-- headers.get(name)
unfoldable pub header : Text → Headers → Option Text
header name [] = none
header name ((n, value) ∷ hs) = if text_eq n name then some value else header name hs

-- headers[name] = value
unfoldable pub set_header : Text → Text → Headers → Headers
set_header name value [] = (name, value) ∷ []
set_header name value ((n, v) ∷ hs) =
    let rest = set_header name value hs in if text_eq n name then (n, value) ∷ hs else (n, v) ∷ rest

-- name in headers
abbrev pub has_header : Text → Headers → Bool
has_header name hs = elim (header name hs) [ none ↦ false | some _ ↦ true ]

-- _HEADER_TOKEN_EXTRA
unfoldable pub header_token_extra : Text
header_token_extra = codes "!#$%&'*+-.^_`|~"

unfoldable pub is_header_token_char : ℕ → Bool
unfolding header_token_extra
is_header_token_char c = is_digit c || is_upper c || is_lower c || any_eq c header_token_extra
  where
    any_eq : ℕ → Text → Bool
    any_eq c [] = false
    any_eq c (a ∷ s) = a == c || any_eq c s

unfoldable pub is_header_token : Text → Bool
unfolding is_header_token_char
is_header_token value = not (text_eq value []) && all is_header_token_char value

-- no control character but the tab
unfoldable pub is_safe_header_char : ℕ → Bool
is_safe_header_char c = c == 9 || leb 0x20 c && not (c == 0x7f)

abbrev pub is_safe_header_value : Text → Bool
is_safe_header_value value = all is_safe_header_char value

abbrev pub is_valid_content_length : Text → Bool
is_valid_content_length value = not (text_eq value []) && all is_digit value

-- the characters of strip(" \t")
abbrev pub is_blank : ℕ → Bool
is_blank c = c == 0x20 || c == 9

-- _add_normalized_header
unfoldable pub add_normalized_header : Headers → Text → Text → Option Headers
add_normalized_header headers name value =
    let header_name = lower name in
    let normalized_value = strip is_blank value in
    if not (is_header_token name)
    then none
    else if not (is_safe_header_value value)
    then none
    else if one_of framing_names header_name && has_header header_name headers
    then none
    else if text_eq header_name (codes "content-length")
        && not (is_valid_content_length normalized_value)
    then none
    else if text_eq header_name (codes "content-encoding")
    then if text_eq (lower normalized_value) (codes "identity")
      then some (set_header header_name (codes "identity") headers)
      else none
    else some (set_header header_name normalized_value headers)
  where
    framing_names : List Text
    framing_names =
        codes "content-length"
        ∷ codes "transfer-encoding"
        ∷ codes "content-encoding"
        ∷ codes "content-range"
        ∷ []

-- _validate_framing_headers: whether it raises nothing
unfoldable pub validate_framing_headers : Headers → Bool
validate_framing_headers headers =
    if has_header (codes "content-length") headers && has_header (codes "transfer-encoding") headers
    then false
    else elim (header (codes "transfer-encoding") headers) [
      | none ↦ true
      | some value ↦ elim (split b',' value) [
        | [] ↦ false
        | token ∷ [] ↦ text_eq (lower (strip is_blank token)) (codes "chunked")
        | _ ∷ _ ∷ _ ↦ false
      ]
    ]

unfoldable pub add_headers : Headers → Headers → Option Headers
unfolding add_normalized_header
add_headers normalized [] = some normalized
add_headers normalized ((name, value) ∷ hs) = elim (add_normalized_header normalized name value) [
  | none ↦ none
  | some more ↦ add_headers more hs
]

abbrev headers_error : AppError
headers_error = app_error upstream_media_invalid "The media response headers are invalid."

-- _normalize_response_headers
unfoldable pub normalize_response_headers : Headers → Result Headers
unfolding add_headers validate_framing_headers
normalize_response_headers headers = elim (add_headers [] headers) [
  | none ↦ err headers_error
  | some normalized ↦
      if validate_framing_headers normalized then ok normalized else err headers_error
]

-- _has_chunked_transfer_encoding
unfoldable pub has_chunked_transfer_encoding : Headers → Result Bool
unfolding normalize_response_headers
has_chunked_transfer_encoding headers = do
  normalized ← normalize_response_headers headers
  ok (has_header (codes "transfer-encoding") normalized)

-- s.split("\r\n")
unfoldable pub split_lines : Text → List Text
split_lines [] = [] ∷ []
split_lines (a ∷ []) = (a ∷ []) ∷ []
split_lines (a ∷ b ∷ s) = elim (a == 0x0d && b == 0x0a) [
  | true ↦ [] ∷ split_lines s
  | false ↦ elim (split_lines (b ∷ s)) [ [] ↦ (a ∷ []) ∷ [] | l ∷ ls ↦ (a ∷ l) ∷ ls ]
]

-- The status of a status line of three parts, of HTTP/1.1, with three digits from 100 to 599.
unfoldable pub status_of : Text → Option ℕ
status_of line =
    let (version, rest) = partition 0x20 line in
    elim rest [
      | none ↦ none
      | some text ↦
          let (status_text, reason) = partition 0x20 text in
          let status_code = decimal 0 status_text in
          elim reason [
            | none ↦ none
            | some _ ↦
                if not (text_eq version (codes "HTTP/1.1"))
                  || not (length status_text == 3)
                  || not (all is_digit status_text)
                then none
                else if not (leb 100 status_code && leb status_code 599)
                then none
                else some status_code
          ]
    ]

-- The lines that are not empty, with the name before the first colon and the value after it.
unfoldable pub header_lines : List Text → Option Headers
header_lines [] = some []
header_lines (line ∷ lines) =
    let rest = header_lines lines in
    if text_eq line []
    then rest
    else let (name, after) = partition b':' line in
      elim after [
        | none ↦ none
        | some value ↦ elim rest [ none ↦ none | some hs ↦ some ((name, value) ∷ hs) ]
      ]

-- _parse_response_headers, from the lines of the head: they are split at their colons before any is
-- added, since both raise the same error
unfoldable pub parse_lines : List Text → Result (ℕ × Headers)
unfolding status_of header_lines normalize_response_headers
parse_lines [] = err headers_error
parse_lines (first ∷ lines) = elim (status_of first) [
  | none ↦ err headers_error
  | some status_code ↦ elim (header_lines lines) [
    | none ↦ err headers_error
    | some hs ↦ elim (normalize_response_headers hs) [
      | err e ↦ err e
      | ok headers ↦ ok (status_code, headers)
    ]
  ]
]

abbrev pub parse_response_headers : Text → Result (ℕ × Headers)
parse_response_headers raw_headers = parse_lines (split_lines raw_headers)

abbrev pub sample : Text
sample =
    codes "HTTP/1.1 200 OK"
    ++ line
    ++ codes "Content-Length: 42 "
    ++ line
    ++ codes "Content-Type:image/png"
    ++ line
    ++ line
  where
    line : Text
    line = 13 ∷ 10 ∷ []

abbrev pub sample_headers : Headers
sample_headers =
    (codes "content-length", codes "42") ∷ (codes "content-type", codes "image/png") ∷ []

pub sample_parsed : parse_response_headers sample ≡ ok (200, sample_headers)
unfolding parse_lines split_lines partition text_eq decimal is_header_token is_safe_header_char
    one_of sns_media_list.Text.to_lower header strip set_header
sample_parsed = refl
