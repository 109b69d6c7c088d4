-- ===== src/Media/Chunks/Bytes.antt =====
-- src/sns_media_list/network/media_client.py: `iter_bytes`, with chunked framing or without.
use sns_media_list.Errors.{AppError, Result-cases}
use sns_media_list.Media.Body.{raised, content_length, exceeds_limit, iter_plain}
use sns_media_list.Media.Body.Ends.{iter_plain-ends}
use sns_media_list.Media.Chunks.Ends.{IsWithin, iter_chunked-IsWithin}
use sns_media_list.Media.Chunks.Loop.{Progress, iter_bytes, body_limit}
use sns_media_list.Media.Headers.{has_chunked_transfer_encoding}
use sns_media_list.Media.Stream.{Stream}
use sns_media_list.Models.{Headers}
use sns_media_list.Prelude.{
  ℕ, suc, ◌<◌, refl, inl, inr, Bool, false, Option, none, some, [], length, ltb, arith, Bool-cases,
}

refused-IsWithin : (limit : ℕ) (e : AppError) → IsWithin limit 0 (some ([], raised e))
refused-IsWithin limit e = record { body = ([], raised e); is = refl; bound = omega arith }

abbrev pub over_limit : ℕ → Option ℕ → Bool
over_limit limit none = false
over_limit limit (some n) = ltb limit n

plain-IsWithin :
    (limit max_bytes chunk_size : ℕ) (length_given : Option ℕ) (s : Stream)
    → 0 < chunk_size
    → IsWithin limit 0
        (iter_plain (suc (length (s.bytes))) chunk_size limit max_bytes 0 0 length_given s)
plain-IsWithin limit max_bytes chunk_size length_given s sized =
    let (body, (is, holds)) =
      iter_plain-ends chunk_size limit max_bytes (suc (length (s.bytes))) 0 0 length_given s sized
        (omega arith) (omega arith) in
    record { body = body; is = is; bound = holds.bound }

-- Whatever the headers and the connection are, iter_bytes ends, for chunks of a positive size: it
-- makes no more reads than the model has fuel for, and yields no more bytes than the response's
-- limit and the caller's.
pub iter_bytes-IsWithin :
    (headers : Headers) (self_max_bytes chunk_size : ℕ) (max_bytes : Option ℕ) (s : Stream)
    → 0 < chunk_size
    → IsWithin
        (body_limit self_max_bytes max_bytes)
        0
        (iter_bytes headers self_max_bytes chunk_size max_bytes s)
unfolding iter_bytes
iter_bytes-IsWithin headers self_max_bytes chunk_size max_bytes s sized =
    let limit = body_limit self_max_bytes max_bytes in
    let start : Progress = record { recorded = 0; bytes_read = 0; stream = s } in
    elim (Result-cases (has_chunked_transfer_encoding headers)) [
      | inl (f, e) ↦ rw (e, iter_bytes) (refused-IsWithin limit f)
      | inr (is_chunked, e) ↦ elim (Result-cases (content_length headers self_max_bytes)) [
        | inl (f, g) ↦ rw (e, g, iter_bytes) (refused-IsWithin limit f)
        | inr (length_given, g) ↦ elim (Bool-cases (over_limit limit length_given)) [
          | inl over ↦ rw (e, g, over, iter_bytes) (refused-IsWithin limit exceeds_limit)
          | inr fits ↦ elim (Bool-cases is_chunked) [
            | inl framed ↦
                rw (e, g, fits, framed, iter_bytes)
                  (iter_chunked-IsWithin limit self_max_bytes chunk_size sized
                    (suc (length (s.bytes))) start (omega arith) (omega arith))
            | inr plain ↦
                rw (e, g, fits, plain, iter_bytes)
                  (plain-IsWithin limit self_max_bytes chunk_size length_given s sized)
          ]
        ]
      ]
    ]
