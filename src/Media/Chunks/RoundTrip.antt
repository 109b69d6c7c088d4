-- ===== src/Media/Chunks/RoundTrip.antt =====
-- src/sns_media_list/network/media_client.py: `iter_bytes` of a body that is framed in chunks.
use sns_media_list.Media.Chunks.Framed.{
  Chunk, AreChunks, frame, contents, line_not_cr, read_pieces-AreRead,
}
use sns_media_list.Media.Chunks.Loop.{iter_bytes, body_limit}
use sns_media_list.Models.{Headers}
use sns_media_list.Media.Headers.{has_chunked_transfer_encoding}
use sns_media_list.Media.Body.{content_length}
use sns_media_list.Errors.{ok}
use sns_media_list.Media.Body.{finished, Body, joined}
use sns_media_list.Media.Chunks.{is_ascii_hex, hexadecimal}
use sns_media_list.Media.Chunks.Ends.{joined-append}
use sns_media_list.Media.Chunks.Frames.{chunk_size_of-line, read_until-line}
use sns_media_list.Media.Chunks.Loop.{
  Progress, crlf, chunk_size_of, read_trailers, yields_all, after_pieces, read_pieces, iter_chunked,
}
use sns_media_list.Media.Chunks.Reads.{AreRead}
use sns_media_list.Media.Stream.{Stream, skip, read_exactly, read_until}
use sns_media_list.Prelude.{
  ℕ, zero, suc, ◌+◌, ◌≡◌, ◌≤◌, ◌<◌, refl, true, false, Option, none, some, List, [], ◌∷◌, ◌++◌,
  length, take, ltb, ap, arith, length-drop, length-append, take-length-append, drop-length-append,
}
use sns_media_list.Text.{Text, codes, text_eq, text_eq_refl, ends_with}

-- The content is yielded, and the body ends without an error.
pub record IsWhole (content : Text) (o : Option Body) : Type 0 where
  pub pieces : List Text
  pub is : o ≡ some (pieces, finished)
  pub whole : joined pieces ≡ content

yields_all-IsWhole :
    (pieces : List Text) (a b : Text) (o : Option Body)
    → joined pieces ≡ a
    → IsWhole b o
    → IsWhole (a ++ b) (yields_all pieces o)
yields_all-IsWhole pieces a b o e w = record {
  pieces = pieces ++ w.pieces;
  is = ap (yields_all pieces) (w.is);
  whole = rw (joined-append pieces (w.pieces), e, w.whole) refl;
}

module _ (limit max_bytes chunk_size : ℕ) (sized : 0 < chunk_size) where
  last_chunk-IsWhole :
      (fuel : ℕ) (p : Progress) (rest : Text)
      → p.stream.bytes ≡ frame [] rest
      → IsWhole [] (iter_chunked limit max_bytes chunk_size (suc fuel) p)
  unfolding iter_chunked read_trailers
  last_chunk-IsWhole fuel p rest e =
      let (read, left) =
        read_until-line (p.stream) (codes "0") (crlf ++ rest) e refl (omega arith) in
      let after = skip 3 (p.stream) in
      let size : chunk_size_of (codes "0" ++ crlf) ≡ some 0 =
        unfold hexadecimal in
        chunk_size_of-line (codes "0") [] (unfold is_ascii_hex text_eq in refl) refl in
      let (end, _) = read_until-line after [] rest left refl (omega arith) in
      let ended : read_trailers (suc (length (after.bytes))) 0 after ≡ some (ok tt) =
        unfold ends_with text_eq in rw (end, read_trailers) refl in
      rw (read, size, ended, iter_chunked) (record { pieces = []; is = refl; whole = refl })

  after_pieces-IsWhole :
      (p : Progress) (go_on : Progress → Option Body) (a b more : Text) (pieces : List Text)
      (q : Progress)
      → p.stream.bytes ≡ a ++ (crlf ++ more)
      → AreRead (length a) p pieces (ok q)
      → ((next : Progress)
          → next.stream.bytes ≡ more
          → next.bytes_read ≡ p.bytes_read + length a
          → next.recorded ≡ p.recorded + length a
          → IsWhole b (go_on next))
      → IsWhole (a ++ b) (after_pieces (some (pieces, ok q)) go_on)
  unfolding after_pieces read_exactly
  after_pieces-IsWhole p go_on a b more pieces q e r others =
      let left : q.stream.bytes ≡ crlf ++ more =
        rw (r.1.1.0, e) (drop-length-append a (crlf ++ more)) in
      let content : joined pieces ≡ a = rw (r.1.0, e) (take-length-append a (crlf ++ more)) in
      let enough : ltb (length (q.stream.bytes)) 2 ≡ false = rw left (ground arith) in
      let ended : take 2 (q.stream.bytes) ≡ crlf = rw left refl in
      let read : read_exactly 2 (q.stream) ≡ ok (crlf, skip 2 (q.stream)) = ground arith in
      let next : Progress = record q { stream = skip 2 (q.stream) } in
      rw (read, text_eq_refl crlf, after_pieces)
        (yields_all-IsWhole pieces a b (go_on next) content
          (others next (rw left refl) (r.1.1.1.0) (r.1.1.1.1)))

  chunk-steps :
      (fuel : ℕ) (p : Progress) (line : Text) (rest : Stream) (n : ℕ) (pieces : List Text)
      (q : Progress)
      → 1 ≤ n
      → read_until (p.stream) ≡ ok (line, rest)
      → chunk_size_of line ≡ some n
      → ltb limit (p.bytes_read + n) ≡ false
      → read_pieces limit max_bytes chunk_size n n (record p { stream = rest })
        ≡ some (pieces, ok q)
      → iter_chunked limit max_bytes chunk_size (suc fuel) p
        ≡ after_pieces (some (pieces, ok q)) (iter_chunked limit max_bytes chunk_size fuel)
  unfolding iter_chunked
  chunk-steps fuel p line rest zero pieces q h read size fits is = absurd (omega arith)
  chunk-steps fuel p line rest (suc n) pieces q h read size fits is =
      rw (read, size, fits, is, iter_chunked) refl

  pub iter_chunked-frame :
      (fuel : ℕ) (p : Progress) (cs : List Chunk) (rest : Text)
      → length (p.stream.bytes) < fuel
      → AreChunks cs
      → p.stream.bytes ≡ frame cs rest
      → p.bytes_read + length (contents cs) ≤ limit
      → p.recorded + length (contents cs) ≤ max_bytes
      → IsWhole (contents cs) (iter_chunked limit max_bytes chunk_size fuel p)
  unfolding iter_chunked
  iter_chunked-frame zero p cs rest f h e l m = absurd (omega arith)
  iter_chunked-frame (suc fuel) p [] rest f h e l m = last_chunk-IsWhole fuel p rest e
  iter_chunked-frame (suc fuel) p (c ∷ cs) rest f h e l m =
      let line = c.size_token ++ c.extensions in
      let tail = crlf ++ frame cs rest in
      let (read, left) =
        read_until-line (p.stream) line (c.content ++ tail) e (line_not_cr c (h.0)) (h.0.short) in
      let after : Progress = record p { stream = skip (length line + 2) (p.stream) } in
      let n = length (c.content) in
      let filled = h.0.filled in
      let count = length-append (c.content) (contents cs) in
      let size : chunk_size_of (line ++ crlf) ≡ some n =
        rw (h.0.size) at (chunk_size_of-line (c.size_token) (c.extensions) (h.0.hex) (h.0.valid)) in
      let there = ap length left in
      let (pieces, q, is, r) =
        read_pieces-AreRead limit max_bytes chunk_size sized n after
          (omega (arith, there, length-append (c.content) tail)) (omega arith) (omega arith) in
      let fits : ltb limit (p.bytes_read + n) ≡ false = ground arith in
      let shorter : length (frame cs rest) < fuel = omega (
        arith,
        f,
        there,
        length-append (c.content) tail,
        length-drop (length line + 2) (p.stream.bytes),
      ) in
      let whole =
        after_pieces-IsWhole after (iter_chunked limit max_bytes chunk_size fuel) (c.content)
          (contents cs) (frame cs rest) pieces q left r
          (λ next b k j.
            iter_chunked-frame fuel next cs rest (omega (arith, ap length b)) (h.1) b (omega arith)
              (omega arith)) in
      rw (chunk-steps fuel p (line ++ crlf) (after.stream) n pieces q filled read size fits is)
        whole

body_limit_le : (max_bytes : ℕ) (given : Option ℕ) → body_limit max_bytes given ≤ max_bytes
body_limit_le max_bytes none = omega arith
body_limit_le max_bytes (some n) = omega arith

-- A response with chunked framing and no Content-Length, whose body is framed in chunks, with a
-- size in hex digits and valid extensions on a line that is not too long for each, and no
-- trailers: where the contents are within the limits, iter_bytes yields the contents of the chunks
-- in order and ends without an error, for chunks of a positive size, however the bytes arrive and
-- whatever follows them.
pub iter_bytes-frame :
    (headers : Headers) (self_max_bytes chunk_size : ℕ) (max_bytes : Option ℕ) (s : Stream)
    (cs : List Chunk) (rest : Text)
    → 0 < chunk_size
    → has_chunked_transfer_encoding headers ≡ ok true
    → content_length headers self_max_bytes ≡ ok none
    → AreChunks cs
    → s.bytes ≡ frame cs rest
    → length (contents cs) ≤ body_limit self_max_bytes max_bytes
    → IsWhole (contents cs) (iter_bytes headers self_max_bytes chunk_size max_bytes s)
unfolding iter_bytes
iter_bytes-frame headers self_max_bytes chunk_size max_bytes s cs rest sized framed unsized h e l =
    rw (framed, unsized, iter_bytes)
      (iter_chunked-frame (body_limit self_max_bytes max_bytes) self_max_bytes chunk_size sized
        (suc (length (s.bytes))) (record { recorded = 0; bytes_read = 0; stream = s }) cs rest
        (omega arith) h e (omega arith) (omega (arith, body_limit_le self_max_bytes max_bytes)))
