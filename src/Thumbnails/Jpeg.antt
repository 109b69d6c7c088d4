-- ===== src/Thumbnails/Jpeg.antt =====
-- src/sns_media_list/services/thumbnail.py: the checks of what goes into FFmpeg and comes out of it.
use sns_media_list.Errors.{AppError, Result, err, ok, app_error, upstream_media_invalid, raise_if}
use sns_media_list.Models.{MediaType, image, video}
use sns_media_list.Prelude.{
  ℕ, zero, suc, ◌+◌, ◌-◌, ◌*◌, ◌%◌, ◌≡◌, ◌≤◌, ◌<◌, ◌⊎◌, inl, inr, refl, Bool, true, false, ◌&&◌,
  ◌||◌, not, Option, none, some, List, [], ◌∷◌, ◌++◌, length, get_elem?, take, drop, any, all, min,
  max, if◌then◌else◌, ltb, leb, ◌==◌, arith, Option-cases, Bool-cases,
}
use sns_media_list.Text.{
  Text, codes, text_eq, starts_with, ends_with, before, strip, is_space, lower, is_digit, is_upper,
  is_lower,
}

-- int.from_bytes(data[i:i + n], "big"), of the bytes that are there
unfoldable pub big_endian : ℕ → Text → ℕ
big_endian n [] = n
big_endian n (b ∷ bs) = big_endian (n * 256 + b) bs

abbrev pub slice : ℕ → ℕ → Text → Text
slice i j bytes = take (j - i) (drop i bytes)

-- _signature_matches
unfoldable pub signature_matches : Text → List Text → Text → Bool
unfolding text_eq starts_with big_endian
signature_matches content_type signatures prefix =
    if text_eq content_type (codes "image/webp")
    then leb 12 (length prefix)
      && starts_with prefix (codes "RIFF")
      && text_eq (slice 8 12 prefix) (codes "WEBP")
    else if text_eq content_type (codes "video/mp4")
    then (let size = big_endian 0 (slice 0 4 prefix) in
        let major_brand = slice 8 12 prefix in
        leb 16 (length prefix)
        && leb 16 size
        && leb size (length prefix)
        && size % 4 == 0
        && text_eq (slice 4 8 prefix) (codes "ftyp")
        && length major_brand == 4
        && all (λ c. is_upper c || is_lower c || is_digit c) major_brand)
    else any (starts_with prefix) signatures

-- _SUPPORTED_INPUTS
unfoldable pub supported_inputs : Text → Option (List Text)
unfolding text_eq
supported_inputs content_type =
    if text_eq content_type (codes "image/jpeg")
    then some ((0xff ∷ 0xd8 ∷ 0xff ∷ []) ∷ [])
    else if text_eq content_type (codes "image/png")
    then some ((0x89 ∷ codes "PNG" ++ 13 ∷ 10 ∷ 0x1a ∷ 10 ∷ []) ∷ [])
    else if text_eq content_type (codes "image/gif")
    then some (codes "GIF87a" ∷ codes "GIF89a" ∷ [])
    else if text_eq content_type (codes "image/webp")
    then some (codes "RIFF" ∷ [])
    else if text_eq content_type (codes "video/mp4")
    then some (codes "ftyp" ∷ [])
    else if text_eq content_type (codes "video/webm")
    then some ((0x1a ∷ 0x45 ∷ 0xdf ∷ 0xa3 ∷ []) ∷ [])
    else none

-- content_type.split(";", 1)[0].strip().lower()
abbrev pub normalized_type : Text → Text
normalized_type content_type = lower (strip is_space (before b';' content_type))

-- validate_thumbnail_input
unfoldable pub validate_thumbnail_input : Text → Text → Result Text
unfolding supported_inputs signature_matches
validate_thumbnail_input content_type prefix =
    let unsupported = app_error upstream_media_invalid "The thumbnail input is not supported." in
    elim (supported_inputs (normalized_type content_type)) [
      | none ↦ err unsupported
      | some signatures ↦
          if signature_matches (normalized_type content_type) signatures prefix
          then ok (normalized_type content_type)
          else err unsupported
    ]

-- validate_thumbnail_media_class
unfoldable pub validate_thumbnail_media_class : Text → MediaType → Result (Unit {0})
unfolding starts_with
validate_thumbnail_media_class content_type media_class =
    raise_if
      (not (
        starts_with (normalized_type content_type)
          (elim media_class [ image ↦ codes "image/" | video ↦ codes "video/" ])))
      (app_error upstream_media_invalid "The thumbnail media class is invalid.")

-- data[i], or 0 past the end, where the code does not look
abbrev pub byte_at : ℕ → Text → ℕ
byte_at i bytes = elim (get_elem? bytes i) [ none ↦ 0 | some b ↦ b ]

-- The index after the 0xff bytes from `index` on. Fuel: the length of the data.
unfoldable pub skip_fill : ℕ → Text → ℕ → ℕ
skip_fill zero bytes index = index
skip_fill (suc fuel) bytes index =
    let next = skip_fill fuel bytes (index + 1) in
    if ltb index (length bytes) && byte_at index bytes == 0xff then next else index

-- marker in sof_markers
abbrev pub is_sof : ℕ → Bool
is_sof m =
    leb 0xc0 m && leb m 0xc3
    || leb 0xc5 m && leb m 0xc7
    || leb 0xc9 m && leb m 0xcb
    || leb 0xcd m && leb m 0xcf

-- What one round of `_jpeg_dimensions` does: go on at an index, or return.
pub data Round : Type 0 where
  goes_on : ℕ → Round
  returns : Option (ℕ × ℕ) → Round

-- a round at an 0xff byte, from the marker on
unfoldable pub read_segment : Text → ℕ → Round
unfolding big_endian
read_segment bytes index =
    if leb (length bytes) index
    then returns none
    else let marker = byte_at index bytes in
      let segment = index + 1 in
      let size = big_endian 0 (slice segment (segment + 2) bytes) in
      if marker == 0xd8 || marker == 0xd9
      then goes_on segment
      else if ltb (length bytes) (segment + 2)
      then returns none
      else if ltb size 2 || ltb (length bytes) (segment + size)
      then returns none
      else if is_sof marker && leb 7 size
      then returns (
          some (
            big_endian 0 (slice (segment + 5) (segment + 7) bytes),
            big_endian 0 (slice (segment + 3) (segment + 5) bytes),
          ))
      else goes_on (segment + size)

unfoldable pub round : Text → ℕ → Round
unfolding skip_fill read_segment
round bytes index =
    if not (byte_at index bytes == 0xff)
    then goes_on (index + 1)
    else read_segment bytes (skip_fill (length bytes) bytes index)

-- _jpeg_dimensions: the width and the height. The first option is none where the fuel is used up.
unfoldable pub jpeg_dimensions : ℕ → Text → ℕ → Option (Option (ℕ × ℕ))
unfolding round
jpeg_dimensions zero bytes index = none
jpeg_dimensions (suc fuel) bytes index =
    if leb (length bytes) (index + 3) then some none else elim (round bytes index) [
      | goes_on next ↦ jpeg_dimensions fuel bytes next
      | returns r ↦ some r
    ]

-- validate_generated_jpeg, with the length of the data as fuel
unfoldable pub validate_generated_jpeg : ℕ → ℕ → Text → Result (Unit {0})
unfolding starts_with ends_with jpeg_dimensions
validate_generated_jpeg max_bytes max_edge bytes =
    if ltb max_bytes (length bytes)
      || ltb (length bytes) 5
      || not (starts_with bytes (0xff ∷ 0xd8 ∷ 0xff ∷ []))
      || not (ends_with bytes (0xff ∷ 0xd9 ∷ []))
    then err (app_error upstream_media_invalid "The generated thumbnail is invalid.")
    else elim (jpeg_dimensions (length bytes) bytes 2) [
      | some (some (width, height)) ↦
          raise_if (min width height == 0 || ltb max_edge (max width height)) bad_dimensions
      | _ ↦ err bad_dimensions
    ]
  where
    bad_dimensions : AppError
    bad_dimensions =
        app_error upstream_media_invalid "The generated thumbnail dimensions are invalid."

skip_fill_bounds : (fuel : ℕ) (bytes : Text) (index : ℕ) → index ≤ skip_fill fuel bytes index
unfolding skip_fill
skip_fill_bounds zero bytes index = omega arith
skip_fill_bounds (suc fuel) bytes index = ground (arith, skip_fill_bounds fuel bytes (index + 1))

read_segment_progress :
    (bytes : Text) (index next : ℕ)
    → read_segment bytes index ≡ goes_on next
    → (index < next) × (next ≤ length bytes)
unfolding read_segment
read_segment_progress bytes index next e = ground arith

round_progress :
    (bytes : Text) (index next : ℕ)
    → index + 3 < length bytes
    → round bytes index ≡ goes_on next
    → (index < next) × (next ≤ length bytes)
unfolding round
round_progress bytes index next h e = ground (
  arith,
  skip_fill_bounds (length bytes) bytes index,
  read_segment_progress bytes (skip_fill (length bytes) bytes index) next,
)

Round-cases :
    (r : Round)
    → ((next : ℕ) × (r ≡ goes_on next)) ⊎ ((found : Option (ℕ × ℕ)) × (r ≡ returns found))
Round-cases (goes_on next) = inl (next, refl)
Round-cases (returns found) = inr (found, refl)

-- Reading the frame header of a JPEG ends, from any index within it, with fuel for each byte from
-- that index on and one more.
pub jpeg_dimensions_total :
    (fuel : ℕ) (bytes : Text) (index : ℕ)
    → index ≤ length bytes
    → length bytes < fuel + index
    → (found : Option (ℕ × ℕ)) × (jpeg_dimensions fuel bytes index ≡ some found)
unfolding jpeg_dimensions
jpeg_dimensions_total zero bytes index h f = absurd (omega arith)
jpeg_dimensions_total (suc fuel) bytes index h f =
    elim (Bool-cases (leb (length bytes) (index + 3))) [
      | inl at_end ↦ (none, ground arith)
      | inr more ↦ elim (Round-cases (round bytes index)) [
        | inl (next, e) ↦
            let progress = round_progress bytes index next (ground arith) e in
            let (found, rest) =
              jpeg_dimensions_total fuel bytes next (progress.1) (omega (arith, progress)) in
            (found, ground arith)
        | inr (found, e) ↦ (found, ground arith)
      ]
    ]

-- What the cache and the browser get is framed as a JPEG, within the byte limit, and its frame
-- header gives edges from 1 to the limit.
pub record IsJpeg (max_bytes max_edge : ℕ) (bytes : Text) : Type 0 where
  pub bound : length bytes ≤ max_bytes
  pub opens : starts_with bytes (0xff ∷ 0xd8 ∷ 0xff ∷ []) ≡ true
  pub ends : ends_with bytes (0xff ∷ 0xd9 ∷ []) ≡ true
  pub width : ℕ
  pub height : ℕ
  pub found : jpeg_dimensions (length bytes) bytes 2 ≡ some (some (width, height))
  pub width_bounds : (1 ≤ width) × (width ≤ max_edge)
  pub height_bounds : (1 ≤ height) × (height ≤ max_edge)

edge_bounds :
    (width height max_edge : ℕ)
    → min width height == 0 || ltb max_edge (max width height) ≡ false
    → ((1 ≤ width) × (width ≤ max_edge)) × ((1 ≤ height) × (height ≤ max_edge))
edge_bounds width height max_edge h = ground arith

-- Bytes that are accepted as a generated thumbnail are within the byte limit, framed as a JPEG, and
-- their frame header gives a width and a height from 1 to the limit on edges.
pub validate_generated_jpeg-IsJpeg :
    (max_bytes max_edge : ℕ) (bytes : Text)
    → validate_generated_jpeg max_bytes max_edge bytes ≡ ok tt
    → IsJpeg max_bytes max_edge bytes
unfolding validate_generated_jpeg
validate_generated_jpeg-IsJpeg max_bytes max_edge bytes e =
    elim (Option-cases (jpeg_dimensions (length bytes) bytes 2)) [
      | inl exhausted ↦ absurd (ground arith)
      | inr (none, unknown) ↦ absurd (ground arith)
      | inr (some (width, height), known) ↦
          let sized : min width height == 0 || ltb max_edge (max width height) ≡ false =
            ground arith in
          record {
            bound = ground arith;
            opens = ground arith;
            ends = ground arith;
            width = width;
            height = height;
            found = known;
            width_bounds = (edge_bounds width height max_edge sized).0;
            height_bounds = (edge_bounds width height max_edge sized).1;
          }
    ]
