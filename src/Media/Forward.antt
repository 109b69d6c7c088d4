-- ===== src/Media/Forward.antt =====
-- src/sns_media_list/network/media_client.py: the bodies and headers that are forwarded to the
-- browser; `build_media_request_headers` of src/sns_media_list/extractor/normalizer.py.
pub mod Previews
use sns_media_list.Errors.{AppError, Result, err, ok, ◌>>=◌, app_error, upstream_media_invalid}
use sns_media_list.Media.Body.{Ending, finished, raised, Body, content_length}
use sns_media_list.Media.Fetch.{MediaResponse, normalize_request_headers, digits}
use sns_media_list.Media.Headers.{header, has_chunked_transfer_encoding}
use sns_media_list.Media.Policy.{Address, ValidatedMediaTarget, or_empty}
use sns_media_list.Models.{Headers, MediaType, image, video, Platform, instagram, x}
use sns_media_list.Normalizer.Filenames.{sanitize_filename}
use sns_media_list.Prelude.{
  ℕ, suc, ◌+◌, ◌-◌, Bool, true, false, ◌&&◌, ◌||◌, not, Option, none, some, List, [], ◌∷◌, ◌++◌,
  length, take, drop, any, if◌then◌else◌, ltb, leb, ◌==◌,
}
use sns_media_list.Text.{Text, codes, text_eq, before, starts_with, lower}

-- _PREVIEW_SIGNATURES
unfoldable pub preview_signatures : Text → Option (List Text)
unfolding text_eq
preview_signatures content_type =
    if text_eq content_type (codes "image/jpeg")
    then some ((0xff ∷ 0xd8 ∷ 0xff ∷ []) ∷ [])
    else if text_eq content_type (codes "image/png")
    then some ((0x89 ∷ codes "PNG" ++ 13 ∷ 10 ∷ 0x1a ∷ 10 ∷ []) ∷ [])
    else if text_eq content_type (codes "image/gif")
    then some (codes "GIF87a" ∷ codes "GIF89a" ∷ [])
    else if text_eq content_type (codes "image/webp")
    then some (codes "RIFF" ∷ [])
    else none

-- validate_preview_signature
unfoldable pub validate_preview_signature : Text → Text → Bool
unfolding preview_signatures starts_with
validate_preview_signature content_type prefix = elim (preview_signatures (lower content_type)) [
  | none ↦ false
  | some signatures ↦
      if text_eq (lower content_type) (codes "image/webp")
      then leb 12 (length prefix)
        && text_eq (take 4 prefix) (codes "RIFF")
        && text_eq (take 4 (drop 8 prefix)) (codes "WEBP")
      else any (starts_with prefix) signatures
]

abbrev pub unsupported : AppError
unsupported = app_error upstream_media_invalid "The media content type is not supported."

abbrev pub bad_signature : AppError
bad_signature = app_error upstream_media_invalid "The preview signature is invalid."

-- content_type.split(";", 1)[0].lower() of the response
abbrev pub content_type_of : MediaResponse → Text
content_type_of response =
    lower (before b';' (or_empty (header (codes "content-type") (response.headers))))

-- The type of a response whose status and type `iter_validated_body` accepts.
unfoldable pub accepted_type : MediaResponse → Bool → Option MediaType → Result Text
unfolding preview_signatures starts_with
accepted_type response preview expected =
    let content_type = content_type_of response in
    let is_image = starts_with content_type (codes "image/") in
    let is_video = starts_with content_type (codes "video/") in
    if ltb (response.status_code) 200 || leb 300 (response.status_code)
    then err (app_error upstream_media_invalid "The upstream media response was not successful.")
    else if elim expected [ none ↦ false | some image ↦ not is_image | some video ↦ not is_video ]
    then err unsupported
    else if preview
    then elim (preview_signatures content_type) [
      | none ↦ err (app_error upstream_media_invalid "The preview content type is not supported.")
      | some _ ↦ ok content_type
    ]
    else if is_image || is_video
    then ok content_type
    else err unsupported

-- The chunks of a preview: those of the first 512 bytes, or of all, are yielded as one, once their
-- signature is valid.
unfoldable pub preview_chunks : Text → Text → List Text → Ending → Body
preview_chunks content_type buffered [] finished =
    if validate_preview_signature content_type buffered
    then (buffered ∷ [], finished)
    else ([], raised bad_signature)
preview_chunks content_type buffered [] ending = ([], ending)
preview_chunks content_type buffered (chunk ∷ chunks) ending =
    let more = preview_chunks content_type (buffered ++ chunk) chunks ending in
    if ltb (length (buffered ++ chunk)) 512
    then more
    else if validate_preview_signature content_type (take 512 (buffered ++ chunk))
    then ((buffered ++ chunk) ∷ chunks, ending)
    else ([], raised bad_signature)

-- iter_validated_body, over the body that `iter_bytes` yields
unfoldable pub iter_validated_body : MediaResponse → Bool → Option MediaType → Body → Body
unfolding accepted_type preview_chunks
iter_validated_body response preview expected (chunks, ending) =
    elim (accepted_type response preview expected) [
      | err e ↦ ([], raised e)
      | ok content_type ↦
          if preview then preview_chunks content_type [] chunks ending else (chunks, ending)
    ]

-- build_media_request_headers
unfoldable pub build_media_request_headers : Platform → Result Headers
unfolding normalize_request_headers
build_media_request_headers platform = normalize_request_headers (
    (
      codes "User-Agent",
      codes "Mozilla/5.0 (X11; Linux x86_64) AppleWebKit/537.36 Chrome/131 Safari/537.36",
    )
    ∷ (
      codes "Referer",
      elim platform [ instagram ↦ codes "https://www.instagram.com/" | x ↦ codes "https://x.com/" ],
    )
    ∷ [])

-- `quote` is `urllib.parse.quote` with `safe=""`.
module _ (quote : Text → Text) where
  -- The headers of both kinds of response, after the disposition.
  abbrev passive_headers : Headers
  passive_headers =
      (codes "X-Content-Type-Options", codes "nosniff")
      ∷ (codes "Cache-Control", codes "no-store")
      ∷ (codes "Referrer-Policy", codes "no-referrer")
      ∷ []

  unfoldable pub build_download_headers : Text → Headers
  build_download_headers filename =
      (
        codes "Content-Disposition",
        codes "attachment; filename*=UTF-8''" ++ quote (sanitize_filename filename),
      )
      ∷ passive_headers

  unfoldable pub build_preview_headers : Text → Headers
  build_preview_headers filename =
      (
        codes "Content-Disposition",
        codes "inline; filename*=UTF-8''" ++ quote (sanitize_filename filename),
      )
        ∷ passive_headers
      ++ ((
        codes "Content-Security-Policy",
        codes "default-src 'none'; img-src 'self'; style-src 'none'; script-src 'none'",
      )
          ∷ [])

  -- build_forward_response_headers
  unfoldable pub build_forward_response_headers : MediaResponse → ℕ → Text → Bool → Result Headers
  unfolding build_download_headers build_preview_headers digits
  build_forward_response_headers response max_bytes filename preview =
      let typed = (codes "Content-Type", content_type_of response) ∷ [] in
      elim (has_chunked_transfer_encoding (response.headers)) [
        | err e ↦ err e
        | ok is_chunked ↦
            if preview
            then ok (build_preview_headers filename ++ typed)
            else if is_chunked
            then ok (build_download_headers filename ++ typed)
            else elim (content_length (response.headers) max_bytes) [
              | err e ↦ err e
              | ok none ↦ ok (build_download_headers filename ++ typed)
              | ok (some n) ↦ ok (
                  build_download_headers filename
                  ++ typed
                  ++ ((codes "Content-Length", digits (suc n) n) ∷ []))
            ]
      ]
