-- ===== src/Media/Chunks.antt =====
-- src/sns_media_list/network/media_client.py: the tokens of chunked framing and its trailers.
pub mod Loop
pub mod Reads
pub mod Ends
pub mod Bytes
pub mod Unframed
pub mod Frames
pub mod Framed
pub mod RoundTrip
mod Examples
use sns_media_list.Media.Headers.{is_header_token, is_safe_header_value, is_safe_header_char}
use sns_media_list.Prelude.{
  ℕ, ◌+◌, ◌*◌, ◌-◌, ◌++◌, Option, if◌then◌else◌, ◌==◌, ◌≡◌, refl, Bool, true, false, ◌&&◌, ◌||◌,
  not, none, some, List, [], ◌∷◌, length, take, all, leb,
}
use sns_media_list.Text.{
  Text, codes, text_eq, one_of, partition, lower, to_lower, is_digit, is_upper, is_lower,
}

-- _is_ascii_hex
unfoldable pub is_ascii_hex : Text → Bool
unfolding text_eq
is_ascii_hex value =
    not (text_eq value [])
    && all (λ b. leb 0x30 b && leb b 0x39 || leb 0x41 b && leb b 0x46 || leb 0x61 b && leb b 0x66)
        value

-- _is_ascii_token_byte
unfoldable pub is_ascii_token_byte : ℕ → Bool
unfolding one_of
is_ascii_token_byte value =
    is_digit value || is_upper value || is_lower value || one_of token_extra (value ∷ [])
  where
    token_extra : List Text
    token_extra =
        codes "!"
        ∷ codes "#"
        ∷ codes "$"
        ∷ codes "%"
        ∷ codes "&"
        ∷ codes "'"
        ∷ codes "*"
        ∷ codes "+"
        ∷ codes "-"
        ∷ codes "."
        ∷ codes "^"
        ∷ codes "_"
        ∷ codes "`"
        ∷ codes "|"
        ∷ codes "~"
        ∷ []

-- The places of the index in `_validate_chunk_extensions`: before a `;`, where a name or a value
-- starts, and within one.
pub data Place : Type 0 where
  at_separator at_name in_name at_value in_value : Place

-- Where the index stands after a byte, or `none` where the byte is refused.
unfoldable pub next_place : Place → ℕ → Option Place
next_place at_separator c = if c == b';' then some at_name else none
next_place at_name c = if is_ascii_token_byte c then some in_name else none
next_place in_name c =
    if is_ascii_token_byte c
    then some in_name
    else if c == b'='
    then some at_value
    else if c == b';'
    then some at_name
    else none
next_place at_value c = if is_ascii_token_byte c then some in_value else none
next_place in_value c =
    if is_ascii_token_byte c then some in_value else if c == b';' then some at_name else none

-- whether the bytes may end there
abbrev pub may_end : Place → Bool
may_end at_separator = true
may_end at_name = false
may_end in_name = true
may_end at_value = false
may_end in_value = true

-- _validate_chunk_extensions from a place on: whether it raises nothing
unfoldable pub extensions_from : Place → Text → Bool
unfolding next_place
extensions_from p [] = may_end p
extensions_from p (c ∷ s) = elim (next_place p c) [ none ↦ false | some q ↦ extensions_from q s ]

abbrev pub validate_chunk_extensions : Text → Bool
validate_chunk_extensions = extensions_from at_separator

-- int(token, 16) of ASCII hex digits, from the value of those read before
unfoldable pub hexadecimal : ℕ → Text → ℕ
hexadecimal n [] = n
hexadecimal n (c ∷ s) =
    hexadecimal
      (n * 16 + (if leb c 0x39 then c - 0x30 else if leb c 0x46 then c - 0x37 else c - 0x57)) s

-- _FORBIDDEN_TRAILER_FIELDS
unfoldable pub forbidden_trailer_fields : List Text
forbidden_trailer_fields =
    codes "content-length"
    ∷ codes "transfer-encoding"
    ∷ codes "host"
    ∷ codes "connection"
    ∷ codes "te"
    ∷ codes "trailer"
    ∷ codes "upgrade"
    ∷ codes "proxy-authenticate"
    ∷ codes "proxy-authorization"
    ∷ codes "keep-alive"
    ∷ codes "authorization"
    ∷ codes "cache-control"
    ∷ codes "content-type"
    ∷ codes "content-encoding"
    ∷ codes "content-range"
    ∷ []

-- _validate_trailer_line: whether it raises nothing, on a line with its CR LF
unfoldable pub validate_trailer_line : Text → Bool
unfolding partition one_of forbidden_trailer_fields is_header_token
validate_trailer_line line =
    let (name, after) = partition b':' (take (length line - 2) line) in
    elim after [
      | none ↦ false
      | some value ↦
          is_header_token name
          && not (one_of forbidden_trailer_fields (lower name))
          && is_safe_header_value value
    ]

trailer_accepted : validate_trailer_line (codes "X-Sum: 1" ++ 13 ∷ 10 ∷ []) ≡ true
unfolding validate_trailer_line to_lower is_safe_header_char
trailer_accepted = refl

trailer_refused : validate_trailer_line (codes "Host: 1" ++ 13 ∷ 10 ∷ []) ≡ false
unfolding validate_trailer_line to_lower is_safe_header_char
trailer_refused = refl
