-- ===== src/Media/Chunks/Examples.antt =====
-- Runs of `iter_bytes` on a body of two chunks.
use sns_media_list.Errors.{ok}
use sns_media_list.Media.Body.{content_length}
use sns_media_list.Media.Chunks.{
  is_ascii_hex, extensions_from, next_place, is_ascii_token_byte, hexadecimal,
}
use sns_media_list.Media.Chunks.Bytes.{iter_bytes-IsWithin}
use sns_media_list.Media.Chunks.Ends.{IsWithin}
use sns_media_list.Media.Chunks.Framed.{Chunk, IsChunk, frame}
use sns_media_list.Media.Chunks.Loop.{iter_bytes}
use sns_media_list.Media.Chunks.RoundTrip.{IsWhole, iter_bytes-frame}
use sns_media_list.Media.Headers.{
  has_chunked_transfer_encoding, is_header_token, is_safe_header_char, header, set_header,
}
use sns_media_list.Media.Stream.{Stream}
use sns_media_list.Models.{Headers}
use sns_media_list.Prelude.{◌≡◌, refl, true, none, some, List, [], ◌∷◌, arith}
use sns_media_list.Text.{codes, text_eq, to_lower, is_space, rstrip, one_of, split, strip}

abbrev framed_headers : Headers
framed_headers = (codes "transfer-encoding", codes "chunked") ∷ []

abbrev framed_chunks : List Chunk
framed_chunks =
    record { size_token = codes "3"; extensions = codes ";a=b"; content = codes "abc" }
    ∷ record { size_token = codes "0A"; extensions = []; content = codes "defghijklm" }
    ∷ []

abbrev framed_stream : Stream
framed_stream = record {
  bytes = frame framed_chunks (codes "next");
  ready = 0 ∷ [];
  failure = none;
}

framed_is_chunked : has_chunked_transfer_encoding framed_headers ≡ ok true
unfolding has_chunked_transfer_encoding text_eq is_header_token is_safe_header_char to_lower
    is_space rstrip one_of header set_header split strip
framed_is_chunked = refl

framed_is_unsized : content_length framed_headers 100 ≡ ok none
unfolding content_length text_eq
framed_is_unsized = refl

first_IsChunk :
    IsChunk (record { size_token = codes "3"; extensions = codes ";a=b"; content = codes "abc" })
unfolding is_ascii_hex extensions_from hexadecimal text_eq next_place is_ascii_token_byte
first_IsChunk = record {
  hex = refl;
  size = refl;
  filled = omega arith;
  valid = refl;
  short = omega arith;
}

second_IsChunk :
    IsChunk (record { size_token = codes "0A"; extensions = []; content = codes "defghijklm" })
unfolding is_ascii_hex extensions_from hexadecimal text_eq
second_IsChunk = record {
  hex = refl;
  size = refl;
  filled = omega arith;
  valid = refl;
  short = omega arith;
}

iter_bytes-frame_example :
    IsWhole (codes "abcdefghijklm") (iter_bytes framed_headers 100 4 (some 13) framed_stream)
iter_bytes-frame_example =
    iter_bytes-frame framed_headers 100 4 (some 13) framed_stream framed_chunks (codes "next")
      (omega arith) framed_is_chunked framed_is_unsized (first_IsChunk, (second_IsChunk, tt)) refl
      (omega arith)

iter_bytes-IsWithin_example :
    IsWithin 12 0 (iter_bytes framed_headers 100 4 (some 12) framed_stream)
iter_bytes-IsWithin_example =
    iter_bytes-IsWithin framed_headers 100 4 (some 12) framed_stream (omega arith)
