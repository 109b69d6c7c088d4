-- ===== src/Media/Chunks/Loop.antt =====
-- src/sns_media_list/network/media_client.py: `MediaResponse._iter_chunked`, the loop over the
-- chunks of a framed body, and `iter_bytes` whole.
use sns_media_list.Errors.{AppError, Result, err, ok, app_error, upstream_media_invalid}
use sns_media_list.Media.Body.{finished, raised, Body, content_length, exceeds_limit, iter_plain}
use sns_media_list.Media.Chunks.{
  is_ascii_hex, validate_chunk_extensions, extensions_from, hexadecimal, validate_trailer_line,
}
use sns_media_list.Media.Headers.{has_chunked_transfer_encoding}
use sns_media_list.Media.Stream.{Stream, read_exactly, read_until}
use sns_media_list.Models.{Headers}
use sns_media_list.Prelude.{
  ℕ, zero, suc, ◌+◌, ◌-◌, false, not, Option, none, some, List, [], ◌∷◌, ◌++◌, length, take, min,
  if◌then◌else◌, ltb,
}
use sns_media_list.Text.{Text, text_eq, ends_with, partition}

abbrev pub chunks_error : AppError
chunks_error = app_error upstream_media_invalid "The media response chunks are invalid."

abbrev pub trailers_error : AppError
trailers_error = app_error upstream_media_invalid "The media response trailers are invalid."

abbrev pub crlf : Text
crlf = 0x0d ∷ 0x0a ∷ []

-- The size that the line before a chunk gives, or `none` where the line is refused.
unfoldable pub chunk_size_of : Text → Option ℕ
unfolding is_ascii_hex extensions_from hexadecimal
chunk_size_of line =
    if not (ends_with line crlf)
    then none
    else let (size_token, extensions) = partition b';' (take (length line - 2) line) in
      if not (is_ascii_hex size_token) then none else elim extensions [
        | none ↦ some (hexadecimal 0 size_token)
        | some more ↦
            if validate_chunk_extensions (b';' ∷ more)
            then some (hexadecimal 0 size_token)
            else none
      ]

abbrev pub max_chunk_trailer_bytes : ℕ
max_chunk_trailer_bytes = 8192

-- The trailers after the last chunk, to the empty line. None where the fuel is used up.
unfoldable pub read_trailers : ℕ → ℕ → Stream → Option (Result (Unit {0}))
unfolding read_until validate_trailer_line
read_trailers zero trailer_bytes s = none
read_trailers (suc fuel) trailer_bytes s = elim (read_until s) [
  | err e ↦ some (err e)
  | ok (trailer, rest) ↦
      let total = trailer_bytes + length trailer in
      let more = read_trailers fuel total rest in
      if ltb max_chunk_trailer_bytes total
      then some (err trailers_error)
      else if not (ends_with trailer crlf)
      then some (err chunks_error)
      else if text_eq trailer crlf
      then some (ok tt)
      else if not (validate_trailer_line trailer)
      then some (err trailers_error)
      else more
]

-- What reading a chunk leaves: `_bytes_read` of the response, `bytes_read` of the loop, and the
-- stream.
pub record Progress : Type 0 where
  pub recorded : ℕ
  pub bytes_read : ℕ
  pub stream : Stream

-- The pieces of a chunk that are yielded, and what reading it leaves or raises.
abbrev pub Pieces : Type 0
Pieces = List Text × Result Progress

abbrev pub yields_piece : Text → Option Pieces → Option Pieces
yields_piece piece none = none
yields_piece piece (some (pieces, left)) = some (piece ∷ pieces, left)

abbrev pub yields_all : List Text → Option Body → Option Body
yields_all pieces none = none
yields_all pieces (some (chunks, ending)) = some (pieces ++ chunks, ending)

-- What follows the pieces of a chunk: its CR LF, and then the other chunks, by `go_on`.
unfoldable pub after_pieces : Option Pieces → (Progress → Option Body) → Option Body
unfolding read_exactly
after_pieces none go_on = none
after_pieces (some (pieces, err e)) go_on = some (pieces, raised e)
after_pieces (some (pieces, ok q)) go_on = elim (read_exactly 2 (q.stream)) [
  | err e ↦ some (pieces, raised e)
  | ok (end, rest) ↦
      if not (text_eq end crlf)
      then some (pieces, raised chunks_error)
      else yields_all pieces (go_on (record q { stream = rest }))
]

module _ (limit max_bytes chunk_size : ℕ) where
  -- The loop over a chunk of which `remaining_chunk` bytes are unread. None where the fuel is used
  -- up.
  unfoldable pub read_pieces : ℕ → ℕ → Progress → Option Pieces
  unfolding read_exactly
  read_pieces fuel zero p = some ([], ok p)
  read_pieces zero (suc n) p = none
  read_pieces (suc fuel) (suc n) p = elim (read_exactly (min (suc n) chunk_size) (p.stream)) [
    | err e ↦ some ([], err e)
    | ok (piece, rest) ↦
        let after : Progress = record {
          recorded = p.recorded + length piece;
          bytes_read = p.bytes_read + length piece;
          stream = rest;
        } in
        let more = read_pieces fuel (suc n - length piece) after in
        if ltb limit (after.bytes_read)
        then some ([], err exceeds_limit)
        else if ltb max_bytes (after.recorded)
        then some ([], err exceeds_limit)
        else yields_piece piece more
  ]

  -- MediaResponse._iter_chunked. None where the fuel is used up.
  unfoldable pub iter_chunked : ℕ → Progress → Option Body
  unfolding chunk_size_of read_trailers read_pieces after_pieces
  iter_chunked zero p = none
  iter_chunked (suc fuel) p = elim (read_until (p.stream)) [
    | err e ↦ some ([], raised e)
    | ok (line, rest) ↦ elim (chunk_size_of line) [
      | none ↦ some ([], raised chunks_error)
      | some zero ↦ elim (read_trailers (suc (length (rest.bytes))) 0 rest) [
        | none ↦ none
        | some (err e) ↦ some ([], raised e)
        | some (ok _) ↦ some ([], finished)
      ]
      | some (suc n) ↦
          if ltb limit (p.bytes_read + suc n)
          then some ([], raised exceeds_limit)
          else after_pieces (read_pieces (suc n) (suc n) (record p { stream = rest }))
              (iter_chunked fuel)
    ]
  ]

-- The size limit of `iter_bytes`: the response's, or the caller's where that is less.
abbrev pub body_limit : ℕ → Option ℕ → ℕ
body_limit max_bytes none = max_bytes
body_limit max_bytes (some n) = min max_bytes n

-- MediaResponse.iter_bytes of a response of which nothing is read yet, with fuel for its reads
unfoldable pub iter_bytes : Headers → ℕ → ℕ → Option ℕ → Stream → Option Body
unfolding iter_chunked
iter_bytes headers self_max_bytes chunk_size max_bytes s =
    let limit = body_limit self_max_bytes max_bytes in
    let fuel = suc (length (s.bytes)) in
    elim (has_chunked_transfer_encoding headers) [
      | err e ↦ some ([], raised e)
      | ok is_chunked ↦ elim (content_length headers self_max_bytes) [
        | err e ↦ some ([], raised e)
        | ok length_given ↦
            if elim length_given [ none ↦ false | some n ↦ ltb limit n ]
            then some ([], raised exceeds_limit)
            else if is_chunked
            then iter_chunked limit self_max_bytes chunk_size fuel
                (record { recorded = 0; bytes_read = 0; stream = s })
            else iter_plain fuel chunk_size limit self_max_bytes 0 0 length_given s
      ]
    ]
