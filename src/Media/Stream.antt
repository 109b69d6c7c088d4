-- ===== src/Media/Stream.antt =====
-- src/sns_media_list/network/media_client.py: what `MediaResponse` reads from its connection.
use sns_media_list.Errors.{AppError, Result, err, ok, app_error, upstream_media_invalid}
use sns_media_list.Prelude.{
  ℕ, suc, ◌+◌, ◌&&◌, Option, none, some, List, [], ◌∷◌, length, take, drop, min, if◌then◌else◌, ltb,
  ◌==◌,
}
use sns_media_list.Text.{Text}

-- The bytes that the connection still delivers; how many beyond the first lie ready at each read
-- (all, once the list is used up); and what a read raises when the bytes are used up: a timeout,
-- the deadline of the response included, or another failure. With none the connection ends there.
pub record Stream : Type 0 where
  pub bytes : Text
  pub ready : List ℕ
  pub failure : Option AppError

abbrev pub timed_out : AppError
timed_out = app_error upstream_media_invalid "The media response timed out."

abbrev pub unreadable : AppError
unreadable = app_error upstream_media_invalid "The media response could not be read."

abbrev pub was_truncated : AppError
was_truncated = app_error upstream_media_invalid "The media response was truncated."

-- How many bytes `StreamReader.read(size)` returns, and what lies ready afterwards.
abbrev pub ready_count : ℕ → Stream → ℕ
ready_count size s = elim (s.ready) [
  | [] ↦ min size (length (s.bytes))
  | more ∷ _ ↦ min size (min (suc more) (length (s.bytes)))
]

abbrev pub skip : ℕ → Stream → Stream
skip n s = record { bytes = drop n (s.bytes); ready = drop 1 (s.ready); failure = s.failure }

-- MediaResponse._read
unfoldable pub read : ℕ → Stream → Result (Text × Stream)
read size s =
    if length (s.bytes) == 0
    then elim (s.failure) [ none ↦ ok ([], s) | some e ↦ err e ]
    else ok (take (ready_count size s) (s.bytes), skip (ready_count size s) s)

-- MediaResponse._read_exactly
unfoldable pub read_exactly : ℕ → Stream → Result (Text × Stream)
read_exactly size s =
    if ltb (length (s.bytes)) size
    then elim (s.failure) [ none ↦ err was_truncated | some e ↦ err e ]
    else ok (take size (s.bytes), skip size s)

-- How many bytes stand before the first CR LF.
unfoldable pub find_crlf : Text → Option ℕ
find_crlf [] = none
find_crlf (a ∷ []) = none
find_crlf (a ∷ b ∷ s) =
    let rest = find_crlf (b ∷ s) in
    if a == 0x0d && b == 0x0a then some 0 else elim rest [ none ↦ none | some n ↦ some (suc n) ]

-- The limit of an `asyncio.StreamReader`, past which `readuntil` raises `LimitOverrunError`.
abbrev pub reader_limit : ℕ
reader_limit = 65_536

-- MediaResponse._read_until, for CR LF
unfoldable pub read_until : Stream → Result (Text × Stream)
unfolding find_crlf
read_until s = elim (find_crlf (s.bytes)) [
  | some n ↦
      if ltb reader_limit n then err unreadable else ok (take (n + 2) (s.bytes), skip (n + 2) s)
  | none ↦
      if ltb (reader_limit + 1) (length (s.bytes))
      then err unreadable
      else elim (s.failure) [ none ↦ err was_truncated | some e ↦ err e ]
]
