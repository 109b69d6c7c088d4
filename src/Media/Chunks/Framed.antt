-- ===== src/Media/Chunks/Framed.antt =====
-- src/sns_media_list/network/media_client.py: the chunks of a framed body, and the reads of one.
use sns_media_list.Errors.{ok}
use sns_media_list.Media.Chunks.{is_ascii_hex, validate_chunk_extensions, hexadecimal, at_separator}
use sns_media_list.Media.Chunks.Frames.{is_not, all-append, hex_digits, extensions_not_cr}
use sns_media_list.Media.Chunks.Loop.{Progress, Pieces, crlf, yields_piece, read_pieces}
use sns_media_list.Media.Chunks.Reads.{AreRead, read_pieces-HasRead}
use sns_media_list.Media.Stream.{skip, read_exactly, reader_limit}
use sns_media_list.Prelude.{
  ℕ, zero, suc, ◌+◌, ◌-◌, ◌≡◌, ◌≤◌, ◌<◌, refl, ◌||◌, true, false, Option, some, List, [], ◌∷◌, ◌++◌,
  length, take, all, min, ltb, ap, subst, arith, length-take, length-drop,
}
use sns_media_list.Text.{Text, codes}

-- A chunk as it is framed: its size in hex digits, its extensions, and its bytes.
pub record Chunk : Type 0 where
  pub size_token : Text
  pub extensions : Text
  pub content : Text

pub record IsChunk (c : Chunk) : Type 0 where
  pub hex : is_ascii_hex (c.size_token) ≡ true
  pub size : hexadecimal 0 (c.size_token) ≡ length (c.content)
  pub filled : 1 ≤ length (c.content)
  pub valid : validate_chunk_extensions (c.extensions) ≡ true
  pub short : length (c.size_token ++ c.extensions) ≤ reader_limit

abbrev pub AreChunks : List Chunk → Type 0
AreChunks [] = Unit {0}
AreChunks (c ∷ cs) = IsChunk c × AreChunks cs

-- The bytes of a framed body with no trailers, and whatever the connection delivers after it.
abbrev pub frame : List Chunk → Text → Text
frame [] rest = codes "0" ++ (crlf ++ (crlf ++ rest))
frame (c ∷ cs) rest =
    (c.size_token ++ c.extensions) ++ (crlf ++ (c.content ++ (crlf ++ frame cs rest)))

abbrev pub contents : List Chunk → Text
contents [] = []
contents (c ∷ cs) = c.content ++ contents cs

pub line_not_cr : (c : Chunk) → IsChunk c → all (is_not 0x0d) (c.size_token ++ c.extensions) ≡ true
line_not_cr c h =
    all-append (is_not 0x0d) (c.size_token) (c.extensions)
      (hex_digits 0x0d (c.size_token) refl (h.hex))
      (extensions_not_cr at_separator (c.extensions) (h.valid))

-- The chunk is read whole: what is yielded, and what is left.
pub record AreYielded (o : Option Pieces) : Type 0 where
  pub pieces : List Text
  pub after : Progress
  pub is : o ≡ some (pieces, ok after)

AreYielded-yields :
    (piece : Text) (o : Option Pieces) → AreYielded o → AreYielded (yields_piece piece o)
AreYielded-yields piece o a = record {
  pieces = piece ∷ a.pieces;
  after = a.after;
  is = ap (yields_piece piece) (a.is);
}

module _ (limit max_bytes chunk_size : ℕ) (sized : 0 < chunk_size) where
  read_pieces-AreYielded :
      (fuel n : ℕ) (p : Progress)
      → n ≤ fuel
      → n ≤ length (p.stream.bytes)
      → p.bytes_read + n ≤ limit
      → p.recorded + n ≤ max_bytes
      → AreYielded (read_pieces limit max_bytes chunk_size fuel n p)
  unfolding read_pieces read_exactly
  read_pieces-AreYielded fuel zero p f b l m = record { pieces = []; after = p; is = refl }
  read_pieces-AreYielded zero (suc n) p f b l m = absurd (omega arith)
  read_pieces-AreYielded (suc fuel) (suc n) p f b l m =
      let k = min (suc n) chunk_size in
      let piece = take k (p.stream.bytes) in
      let rest = skip k (p.stream) in
      let e : read_exactly k (p.stream) ≡ ok (piece, rest) = ground arith in
      let size : length piece ≡ k = omega (arith, length-take k (p.stream.bytes)) in
      let q : Progress = record {
        recorded = p.recorded + length piece;
        bytes_read = p.bytes_read + length piece;
        stream = rest;
      } in
      let rest_of = read_pieces limit max_bytes chunk_size fuel (suc n - length piece) q in
      let within : ltb limit (q.bytes_read) || ltb max_bytes (q.recorded) ≡ false = ground arith in
      let again : read_pieces limit max_bytes chunk_size (suc fuel) (suc n) p
          ≡ yields_piece piece rest_of =
        ground arith in
      rw again (
        AreYielded-yields piece rest_of (
          read_pieces-AreYielded fuel (suc n - length piece) q (omega arith)
            (omega (arith, length-drop k (p.stream.bytes))) (omega arith) (omega arith)))

  -- Reading a chunk that is there and within the limits yields it whole.
  pub read_pieces-AreRead :
      (n : ℕ) (p : Progress)
      → n ≤ length (p.stream.bytes)
      → p.bytes_read + n ≤ limit
      → p.recorded + n ≤ max_bytes
      → (pieces : List Text) × (q : Progress) × (read_pieces limit max_bytes chunk_size n n p
          ≡ some (pieces, ok q))
        × AreRead n p pieces (ok q)
  read_pieces-AreRead n p b l m =
      let a = read_pieces-AreYielded n n p (omega arith) b l m in
      let held = read_pieces-HasRead limit max_bytes chunk_size sized n n p (omega arith) in
      let same : (held.pieces, held.after) ≡ (a.pieces, ok (a.after)) =
        ground (arith, held.is, a.is) in
      (a.pieces, a.after, a.is, subst (λ (r : Pieces). AreRead n p (r.0) (r.1)) same (held.holds))
