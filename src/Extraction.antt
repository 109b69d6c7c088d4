-- ===== src/Extraction.antt =====
-- src/sns_media_list/services/extraction_service.py: `ExtractionService.extract`.
pub mod Response
pub mod Links
pub mod Stored
mod Examples
use sns_media_list.Errors.{AppError, Result, err, ok, ◌>>=◌}
use sns_media_list.Media.Forward.{build_media_request_headers}
use sns_media_list.Media.Policy.{or_empty}
use sns_media_list.Extraction.Response.{
  MediaItem, ExtractionResponse, Validation, is_valid_item, is_valid_response,
}
use sns_media_list.Models.{
  Platform, MediaType, image, Headers, MediaTokenDraft, PrivateMediaRecord, preview, download,
  PreviewMode, proxy, generated,
}
use sns_media_list.Normalizer.Extraction.{
  UrlLibrary, NormalizedMedia, NormalizedExtraction, is_set, normalize_gallery_output,
  ensure_downloadable_media,
}
use sns_media_list.Normalizer.Variants.{GalleryItem}
use sns_media_list.Prelude.{
  ℕ, String, Bool, true, false, ◌&&◌, Option, none, some, List, [], ◌∷◌, ◌++◌, if◌then◌else◌,
}
use sns_media_list.Text.{Text, codes}
use sns_media_list.Tokens.{TokenStore, reserve}
use sns_media_list.Urls.{UrlParts, ValidatedExtractionTarget, validate_post_url}

pub record Settings : Type 0 where
  pub media_limit : ℕ
  pub generated_previews_enabled : Bool

-- LOCAL_PREVIEW_URL
abbrev pub local_preview_url : Text
local_preview_url = codes "/placeholder.svg"

abbrev pub media_link : String → String → Text
media_link token action = codes "/api/media/" ++ codes token ++ codes "/" ++ codes action

abbrev pub preview_mode_of : Settings → NormalizedMedia → Option PreviewMode
preview_mode_of settings item =
    if is_set (item.preview_source_url)
    then some proxy
    else if settings.generated_previews_enabled
    then some generated
    else none

abbrev pub download_draft : Headers → NormalizedMedia → MediaTokenDraft
download_draft headers item = record {
  purpose = download;
  source_url = item.source_url;
  media_class = item.media_type;
  filename = item.filename;
  platform = item.platform;
  request_headers = headers;
  content_type = none;
  preview_mode = proxy;
}

abbrev pub preview_draft : Headers → NormalizedMedia → PreviewMode → MediaTokenDraft
preview_draft headers item mode = record {
  purpose = preview;
  source_url =
      if is_set (item.preview_source_url)
      then or_empty (item.preview_source_url)
      else item.source_url;
  media_class = elim mode [ proxy ↦ image | generated ↦ item.media_type ];
  filename = item.filename;
  platform = item.platform;
  request_headers = headers;
  content_type = none;
  preview_mode = mode;
}

abbrev pub item_drafts : Settings → Headers → NormalizedMedia → List MediaTokenDraft
item_drafts settings headers item =
    download_draft headers item ∷ elim (preview_mode_of settings item) [
      | none ↦ []
      | some mode ↦ preview_draft headers item mode ∷ []
    ]

-- The drafts of all items, or what building their headers raises.
unfoldable pub drafts_of : Settings → List NormalizedMedia → Result (List MediaTokenDraft)
drafts_of settings [] = ok []
drafts_of settings (item ∷ items) =
    let rest = drafts_of settings items in
    elim (build_media_request_headers (item.platform)) [
      | err e ↦ err e
      | ok headers ↦ elim rest [
        | err e ↦ err e
        | ok drafts ↦ ok (item_drafts settings headers item ++ drafts)
      ]
    ]

abbrev pub media_item : NormalizedMedia → Text → String → MediaItem
media_item item preview_url token = record {
  media_type = item.media_type;
  filename = item.filename;
  width = item.width;
  height = item.height;
  duration = item.duration;
  preview_url = preview_url;
  download_url = media_link token "download";
}

-- How the loop over the items ends: with the media, with an index out of range, or with an item
-- that pydantic refuses.
pub data Linked : Type 0 where
  linked : List MediaItem → Linked
  out_of_range invalid_item : Linked

-- media.append, and the rest of the loop
abbrev pub append_item : Validation → MediaItem → Linked → Linked
append_item valid item rest =
    if is_valid_item valid item
    then elim rest [
      | linked media ↦ linked (item ∷ media)
      | out_of_range ↦ out_of_range
      | invalid_item ↦ invalid_item
    ]
    else invalid_item

-- The loop over the items and the records from `record_index` on.
unfoldable pub link_items :
    Validation → Settings → List NormalizedMedia → List PrivateMediaRecord → Linked
unfolding is_valid_item
link_items valid settings [] records = linked []
link_items valid settings (item ∷ items) [] = out_of_range
link_items valid settings (item ∷ items) (r ∷ []) =
    let rest = link_items valid settings items [] in
    elim (preview_mode_of settings item) [
      | some mode ↦ out_of_range
      | none ↦ append_item valid (media_item item local_preview_url (r.token)) rest
    ]
link_items valid settings (item ∷ items) (r ∷ p ∷ records) =
    let one = link_items valid settings items (p ∷ records) in
    let two = link_items valid settings items records in
    elim (preview_mode_of settings item) [
      | none ↦ append_item valid (media_item item local_preview_url (r.token)) one
      | some mode ↦
          append_item valid (media_item item (media_link (p.token) "preview") (r.token)) two
    ]

-- What `extract` returns, the `AppError` that it raises, or another exception: of an index, or the
-- ValidationError of pydantic.
pub data Extracted : Type 0 where
  returned : ExtractionResponse → Extracted
  refused : AppError → Extracted
  index_error validation_error : Extracted

abbrev pub respond : Validation → NormalizedExtraction → Linked → Extracted
respond valid normalized out_of_range = index_error
respond valid normalized invalid_item = validation_error
respond valid normalized (linked media) =
    if is_valid_response valid normalized
    then returned (record {
      platform = normalized.platform;
      post_url = normalized.post_url;
      author = normalized.author;
      description = normalized.description;
      unavailable_media_count = normalized.unavailable_media_count;
      media = media;
    })
    else validation_error

-- The response for what is reserved.
unfoldable pub answer :
    Validation
    → Settings
    → NormalizedExtraction
    → TokenStore × Result (List PrivateMediaRecord)
    → TokenStore × Extracted
unfolding link_items is_valid_response
answer valid settings normalized (after, err e) = (after, refused e)
answer valid settings normalized (after, ok records) =
    (after, respond valid normalized (link_items valid settings (normalized.items) records))

-- From the normalized extraction on: the tokens, the readings of the clock, and the store.
unfoldable pub issue_media :
    Validation
    → Settings
    → NormalizedExtraction
    → (ℕ → String)
    → ℕ
    → ℕ
    → TokenStore
    → TokenStore × Extracted
unfolding drafts_of reserve answer
issue_media valid settings normalized tokens purged now s =
    elim (drafts_of settings (normalized.items)) [
      | err e ↦ (s, refused e)
      | ok drafts ↦ answer valid settings normalized (reserve tokens drafts purged now s)
    ]

-- What `extract` normalizes; `extractor` gives the parsed records of a target.
unfoldable pub normalize_url :
    UrlParts
    → UrlLibrary
    → Settings
    → (ValidatedExtractionTarget → Result (List GalleryItem))
    → Text
    → Result NormalizedExtraction
unfolding validate_post_url normalize_gallery_output ensure_downloadable_media
normalize_url lib urls settings extractor url = do
  validated ← validate_post_url lib url
  raw_records ← extractor validated
  found ← normalize_gallery_output urls (settings.media_limit) raw_records
  ensure_downloadable_media found

-- ExtractionService.extract
unfoldable pub extract :
    UrlParts
    → UrlLibrary
    → Validation
    → Settings
    → (ValidatedExtractionTarget → Result (List GalleryItem))
    → (ℕ → String)
    → ℕ
    → ℕ
    → Text
    → TokenStore
    → TokenStore × Extracted
unfolding normalize_url issue_media
extract lib urls valid settings extractor tokens purged now url s =
    elim (normalize_url lib urls settings extractor url) [
      | err e ↦ (s, refused e)
      | ok found ↦ issue_media valid settings found tokens purged now s
    ]
