-- ===== src/Media/Chunks/Frames.antt =====
-- src/sns_media_list/network/media_client.py: the lines that precede the chunks of a framed body.
use sns_media_list.Errors.{ok}
use sns_media_list.Media.Chunks.Loop.{chunk_size_of, crlf}
use sns_media_list.Media.Chunks.{
  is_ascii_hex, is_ascii_token_byte, Place, next_place, extensions_from, validate_chunk_extensions,
  hexadecimal,
}
use sns_media_list.Media.Stream.{Stream, skip, find_crlf, read_until, reader_limit}
use sns_media_list.Prelude.{
  ℕ, ◌+◌, ◌-◌, ◌≡◌, ◌≤◌, refl, inl, inr, Bool, true, false, ◌||◌, not, none, some, [], ◌∷◌, ◌++◌,
  length, take, drop, all, leb, ◌==◌, arith, Option-cases, length-append, append_assoc, append_nil,
  take-length-append, drop-length-append,
}
use sns_media_list.Text.{Text, text_eq, text_eq_refl, ends_with, partition, one_of}

abbrev pub is_not : ℕ → ℕ → Bool
is_not c b = not (b == c)

pub all-append :
    (p : ℕ → Bool) (s t : Text) → all p s ≡ true → all p t ≡ true → all p (s ++ t) ≡ true
all-append p [] t h k = k
all-append p (c ∷ s) t h k = ground (arith, all-append p s t)

pub hex_digits :
    (c : ℕ) (s : Text)
    → leb c 0x2f || c == 0x3b ≡ true
    → is_ascii_hex s ≡ true
    → all (is_not c) s ≡ true
unfolding is_ascii_hex text_eq
hex_digits c [] l h = refl
hex_digits c (b ∷ []) l h = ground arith
hex_digits c (b ∷ d ∷ s) l h = ground (arith, hex_digits c (d ∷ s))

token_not_cr : (c : ℕ) → is_ascii_token_byte c ≡ true → c == 0x0d ≡ false
unfolding is_ascii_token_byte one_of text_eq
token_not_cr c h = ground arith

place_not_cr : (p : Place) (c : ℕ) (q : Place) → next_place p c ≡ some q → c == 0x0d ≡ false
unfolding next_place
place_not_cr _ c q e = ground (arith, token_not_cr c)

pub extensions_not_cr :
    (p : Place) (s : Text) → extensions_from p s ≡ true → all (is_not 0x0d) s ≡ true
unfolding extensions_from
extensions_not_cr p [] h = refl
extensions_not_cr p (c ∷ s) h = elim (Option-cases (next_place p c)) [
  | inl refused ↦ absurd (ground arith)
  | inr (q, next) ↦ ground (arith, extensions_not_cr q s, place_not_cr p c q next)
]

-- The parts of a line, by a separator that stands nowhere before.
partition-append :
    (c : ℕ) (s t : Text) → all (is_not c) s ≡ true → partition c (s ++ (c ∷ t)) ≡ (s, some t)
unfolding partition
partition-append c [] t h = ground arith
partition-append c (a ∷ s) t h = let ih = partition-append c s t in ground (arith, ih)

partition_absent : (c : ℕ) (s : Text) → all (is_not c) s ≡ true → partition c s ≡ (s, none)
unfolding partition
partition_absent c [] h = refl
partition_absent c (a ∷ s) h = ground (arith, partition_absent c s)

find_crlf-append :
    (s t : Text) → all (is_not 0x0d) s ≡ true → find_crlf (s ++ (0x0d ∷ 0x0a ∷ t)) ≡ some (length s)
unfolding find_crlf
find_crlf-append [] t h = refl
find_crlf-append (a ∷ []) t h = ground arith
find_crlf-append (a ∷ b ∷ s) t h = ground (arith, find_crlf-append (b ∷ s) t)

ends_with_refl : (p : Text) → ends_with p p ≡ true
unfolding ends_with
ends_with_refl [] = text_eq_refl []
ends_with_refl (a ∷ p) = rw (text_eq_refl (a ∷ p)) refl

ends_with-append : (s p : Text) → ends_with (s ++ p) p ≡ true
unfolding ends_with
ends_with-append [] p = ends_with_refl p
ends_with-append (a ∷ s) p = ground (arith, ends_with-append s p)

take_line : (s : Text) → take (length (s ++ crlf) - 2) (s ++ crlf) ≡ s
take_line s =
    let count : length (s ++ crlf) - 2 ≡ length s = omega (arith, length-append s crlf) in
    rw count (take-length-append s crlf)

-- The line of a chunk gives its size.
pub chunk_size_of-line :
    (size_token extensions : Text)
    → is_ascii_hex size_token ≡ true
    → validate_chunk_extensions extensions ≡ true
    → chunk_size_of ((size_token ++ extensions) ++ crlf) ≡ some (hexadecimal 0 size_token)
unfolding chunk_size_of
chunk_size_of-line size_token [] h v =
    let line = size_token ++ [] in
    let ends = ends_with-append line crlf in
    let absent = partition_absent b';' size_token (hex_digits b';' size_token refl h) in
    let same = take_line line in
    let parts : partition b';' (take (length (line ++ crlf) - 2) (line ++ crlf))
        ≡ (size_token, none) =
      rw (same, append_nil size_token) absent in
    ground (arith, ends, parts, h)
chunk_size_of-line size_token (d ∷ t) h v =
    let semicolon : d ≡ b';' = unfold extensions_from next_place in ground arith in
    let line = size_token ++ (d ∷ t) in
    let ends = ends_with-append line crlf in
    let found = partition-append b';' size_token t (hex_digits b';' size_token refl h) in
    let same = take_line line in
    let parts : partition b';' (take (length (line ++ crlf) - 2) (line ++ crlf))
        ≡ (size_token, some t) =
      rw (same, semicolon) found in
    let valid : validate_chunk_extensions (b';' ∷ t) ≡ true = rw semicolon at v in
    ground (arith, ends, parts, h, valid)

-- A line that is not too long is read up to its CR LF, with whatever follows left.
pub read_until-line :
    (s : Stream) (line rest : Text)
    → s.bytes ≡ line ++ (crlf ++ rest)
    → all (is_not 0x0d) line ≡ true
    → length line ≤ reader_limit
    → (read_until s ≡ ok (line ++ crlf, skip (length line + 2) s))
      × (drop (length line + 2) (s.bytes) ≡ rest)
unfolding read_until
read_until-line s line rest e h l =
    let found : find_crlf (s.bytes) ≡ some (length line) = rw e (find_crlf-append line rest h) in
    let whole : s.bytes ≡ (line ++ crlf) ++ rest = rw (append_assoc line crlf rest) e in
    let count : length line + 2 ≡ length (line ++ crlf) = omega (arith, length-append line crlf) in
    let taken : take (length line + 2) (s.bytes) ≡ line ++ crlf =
      rw (whole, count) (take-length-append (line ++ crlf) rest) in
    (ground (arith, found, taken), rw (whole, count) (drop-length-append (line ++ crlf) rest))
