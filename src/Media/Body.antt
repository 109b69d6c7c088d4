-- ===== src/Media/Body.antt =====
-- src/sns_media_list/network/media_client.py: the body that `MediaResponse.iter_bytes` yields.

pub mod Plain
pub mod Ends
use sns_media_list.Errors.{AppError, Result, err, ok, app_error, upstream_media_invalid}
use sns_media_list.Media.Headers.{
  is_header_token, is_safe_header_value, header, has_chunked_transfer_encoding,
}
use sns_media_list.Media.Stream.{Stream, read, read_exactly, read_until}
use sns_media_list.Models.{Headers}
use sns_media_list.Prelude.{
  ℕ, zero, suc, ◌+◌, ◌-◌, ◌*◌, ◌≡◌, refl, Bool, true, false, ◌&&◌, ◌||◌, not, Option, none, some,
  List, [], ◌∷◌, ◌++◌, length, take, drop, min, all, if◌then◌else◌, ltb, leb, ◌==◌,
}
use sns_media_list.Text.{
  Text, codes, text_eq, partition, one_of, lower, is_digit, is_upper, is_lower, ends_with, decimal,
}

-- How a body ends: all of it was read, or an error is raised, a `MediaTruncatedError` apart.
pub data Ending : Type 0 where
  finished : Ending
  raised truncated : AppError → Ending

-- The chunks yielded, and the ending.
abbrev pub Body : Type 0
Body = List Text × Ending

abbrev pub yields : Text → Option Body → Option Body
yields chunk none = none
yields chunk (some (chunks, ending)) = some (chunk ∷ chunks, ending)

abbrev pub joined : List Text → Text
joined [] = []
joined (c ∷ cs) = c ++ joined cs

abbrev pub exceeds_limit : AppError
exceeds_limit = app_error upstream_media_invalid "The media response exceeds its size limit."

abbrev pub invalid_length : AppError
invalid_length = app_error upstream_media_invalid "The media response length is invalid."

abbrev pub body_truncated : AppError
body_truncated = app_error upstream_media_invalid "The media response body was truncated."

-- The digits past which `int` raises a `ValueError`.
abbrev pub max_str_digits : ℕ
max_str_digits = 4300

-- MediaResponse.content_length
unfoldable pub content_length : Headers → ℕ → Result (Option ℕ)
unfolding header
content_length headers max_bytes = elim (header (codes "content-length") headers) [
  | none ↦ ok none
  | some value ↦
      if text_eq value [] || not (all is_digit value)
      then err invalid_length
      else if ltb max_str_digits (length value)
      then err invalid_length
      else if ltb max_bytes (decimal 0 value)
      then err exceeds_limit
      else ok (some (decimal 0 value))
]

abbrev pub is_used_up : Option ℕ → Bool
is_used_up none = false
is_used_up (some n) = n == 0

abbrev pub read_size : ℕ → Option ℕ → ℕ
read_size chunk_size none = chunk_size
read_size chunk_size (some n) = min chunk_size n

abbrev pub less : ℕ → Option ℕ → Option ℕ
less n none = none
less n (some r) = some (r - n)

-- The loop of MediaResponse.iter_bytes: `bytes_read` and `remaining` are its variables,
-- `recorded` is `_bytes_read`. None where the fuel is used up.
unfoldable pub iter_plain : ℕ → ℕ → ℕ → ℕ → ℕ → ℕ → Option ℕ → Stream → Option Body
unfolding read
iter_plain zero chunk_size limit max_bytes recorded bytes_read remaining s = none
iter_plain (suc fuel) chunk_size limit max_bytes recorded bytes_read remaining s =
    if is_used_up remaining
    then some ([], finished)
    else elim (read (read_size chunk_size remaining) s) [
      | err e ↦ some ([], raised e)
      | ok (chunk, rest) ↦ elim chunk [
        | [] ↦ elim remaining [
          | none ↦ some ([], finished)
          | some _ ↦ some ([], truncated body_truncated)
        ]
        | c ∷ cs ↦
            let n = length (c ∷ cs) in
            let after =
              iter_plain fuel chunk_size limit max_bytes (recorded + n) (bytes_read + n)
                (less n remaining) rest in
            if ltb limit (bytes_read + n)
            then some ([], raised exceeds_limit)
            else if ltb max_bytes (recorded + n)
            then some ([], raised exceeds_limit)
            else yields (c ∷ cs) after
      ]
    ]
