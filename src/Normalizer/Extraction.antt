-- ===== src/Normalizer/Extraction.antt =====
-- src/sns_media_list/extractor/normalizer.py: from the records of gallery-dl to the extraction.
pub mod Outcomes
use sns_media_list.Errors.{
  AppError, Result, err, ok, app_error, extraction_failed, extraction_limit_exceeded, no_media,
}
use sns_media_list.Int.{ℤ}
use sns_media_list.Media.Policy.{SplitUrl, or_empty, is_unsafe_char}
use sns_media_list.Models.{Platform, instagram, x, MediaType, video, image}
use sns_media_list.Normalizer.Filenames.{build_media_filename}
use sns_media_list.Normalizer.Variants.{GalleryItem, Duration, select_best_variants}
use sns_media_list.Prelude.{
  ℕ, suc, Bool, true, false, ◌&&◌, ◌||◌, not, Option, none, some, List, [], ◌∷◌, ◌++◌, map, any,
  all, length, if◌then◌else◌, ltb, ◌==◌,
}
use sns_media_list.Text.{Text, codes, text_eq, one_of, contains, lower, ends_with}

-- The URL library: `none` where `urlsplit` or `parse_qsl` raises a `ValueError`, and whether `port`
-- raises one.
pub record UrlLibrary : Type 0 where
  pub urlsplit : Text → Option SplitUrl
  pub port_is_invalid : Text → Bool
  pub parse_qsl : Text → Option (List (Text × Text))
  pub urlencode : List (Text × Text) → Text
  pub urlunsplit : SplitUrl → Text

pub record NormalizedMedia : Type 0 where
  pub platform : Platform
  pub post_id : Text
  pub index : ℕ
  pub media_type : MediaType
  pub source_url : Text
  pub preview_source_url : Option Text
  pub filename : Text
  pub width : Option ℤ
  pub height : Option ℤ
  pub duration : Option Duration

pub record NormalizedExtraction : Type 0 where
  pub platform : Platform
  pub post_url : Text
  pub post_id : Text
  pub author : Option Text
  pub description : Option Text
  pub unavailable_media_count : ℕ
  pub items : List NormalizedMedia

abbrev pub no_metadata : AppError
no_metadata = app_error extraction_failed "The extractor returned no metadata."

abbrev pub unsafe_url : AppError
unsafe_url = app_error extraction_failed "The extractor returned an unsafe media URL."

abbrev pub too_many_items : AppError
too_many_items = app_error extraction_limit_exceeded "The post contains too many media items."

abbrev pub no_media_error : AppError
no_media_error = app_error no_media "No directly downloadable media was found."

-- whether a text is there and is not empty
abbrev pub is_set : Option Text → Bool
is_set none = false
is_set (some []) = false
is_set (some (_ ∷ _)) = true

abbrev pub is_default_https_port : Option ℕ → Bool
is_default_https_port none = true
is_default_https_port (some port) = port == 443

-- _optional_text_value, of text
abbrev pub optional_text_value : Option Text → Option Text
optional_text_value value = if is_set value then value else none

-- whether `parsed` has another scheme than https, credentials or a fragment
abbrev pub is_unclean : SplitUrl → Bool
is_unclean parsed =
    not (text_eq (parsed.scheme) (codes "https"))
    || is_set (parsed.username)
    || is_set (parsed.password)
    || not (text_eq (parsed.fragment) [])

abbrev pub platform_text : Platform → Text
platform_text instagram = codes "instagram"
platform_text x = codes "x"

-- The values of a key of a query.
unfoldable pub values_of : Text → List (Text × Text) → List Text
unfolding text_eq
values_of key [] = []
values_of key ((name, value) ∷ query) =
    let others = values_of key query in if text_eq name key then value ∷ others else others

-- The query with `small` for the value of `name`.
unfoldable pub rewrite_query : List (Text × Text) → List (Text × Text)
unfolding text_eq
rewrite_query [] = []
rewrite_query ((key, value) ∷ query) =
    (key, if text_eq key (codes "name") then codes "small" else value) ∷ rewrite_query query

-- whether a query is one of an original image
unfoldable pub is_original_query : List (Text × Text) → Bool
unfolding text_eq one_of values_of
is_original_query query =
    not (length query == 0)
    && all (λ pair. one_of (codes "format" ∷ codes "name" ∷ []) (pair.0)) query
    && length (values_of (codes "name") query) == 1
    && any (λ value. text_eq value (codes "orig")) (values_of (codes "name") query)
    && elim (values_of (codes "format") query) [
      | [] ↦ true
      | format ∷ [] ↦
          one_of (codes "jpg" ∷ codes "jpeg" ∷ codes "png" ∷ codes "webp" ∷ []) (lower format)
      | _ ∷ _ ∷ _ ↦ false
    ]

module _ (urls : UrlLibrary) where
  -- _validate_source_url: whether it raises nothing
  unfoldable pub validate_source_url : Text → Bool
  unfolding text_eq
  validate_source_url value =
      if any is_unsafe_char value
      then false
      else elim ((urls.urlsplit) value) [ none ↦ false | some parsed ↦ not (is_unclean parsed) ]

  -- _is_trusted_cdn_url
  unfoldable pub is_trusted_cdn_url : Text → Platform → Bool
  unfolding text_eq one_of ends_with
  is_trusted_cdn_url value platform =
      if any is_unsafe_char value then false else elim ((urls.urlsplit) value) [
        | none ↦ false
        | some parsed ↦
            let host = lower (or_empty (parsed.hostname)) in
            if (urls.port_is_invalid) value
            then false
            else if is_unclean parsed || not (is_default_https_port (parsed.port))
            then false
            else elim platform [
              | x ↦ one_of (codes "pbs.twimg.com" ∷ codes "video.twimg.com" ∷ []) host
              | instagram ↦
                  ends_with host (codes ".cdninstagram.com") || ends_with host (codes ".fbcdn.net")
            ]
      ]

  -- _x_small_variant
  unfoldable pub x_small_variant : Text → Option Text
  unfolding text_eq is_original_query rewrite_query
  x_small_variant value = if any is_unsafe_char value then none else elim ((urls.urlsplit) value) [
    | none ↦ none
    | some parsed ↦
        if (urls.port_is_invalid) value then none else elim ((urls.parse_qsl) (parsed.query)) [
          | none ↦ none
          | some query ↦
              if is_unclean parsed
                || not (text_eq (or_empty (parsed.hostname)) (codes "pbs.twimg.com"))
                || not (is_default_https_port (parsed.port))
              then none
              else if not (is_original_query query)
              then none
              else some (
                  (urls.urlunsplit)
                    (record parsed { query = (urls.urlencode) (rewrite_query query) }))
        ]
  ]

  -- _select_preview_source
  unfoldable pub select_preview_source : GalleryItem → Option Text
  unfolding is_trusted_cdn_url x_small_variant
  select_preview_source item =
      if is_set (item.preview_url)
        && is_trusted_cdn_url (or_empty (item.preview_url)) (item.platform)
      then item.preview_url
      else elim (item.platform) [
        | instagram ↦ none
        | x ↦ elim (item.media_type) [
          | video ↦ none
          | image ↦ x_small_variant (or_empty (item.source_url))
        ]
      ]

  -- _to_normalized_media
  unfoldable pub to_normalized_media : GalleryItem → NormalizedMedia
  unfolding select_preview_source build_media_filename contains
  to_normalized_media item =
      let extension : Text = elim (item.extension) [
        | [] ↦ elim (item.media_type) [ video ↦ codes "mp4" | image ↦ codes "jpg" ]
        | c ∷ s ↦ c ∷ s
      ] in
      record {
        platform = item.platform;
        post_id = item.post_id;
        index = item.index;
        media_type = item.media_type;
        source_url = or_empty (item.source_url);
        preview_source_url = select_preview_source item;
        filename =
            build_media_filename (platform_text (item.platform)) (item.author) (item.post_id)
              (item.index) extension (contains (codes "/stories/") (item.post_url));
        width = item.width;
        height = item.height;
        duration = item.duration;
      }

  -- The loop of `normalize_gallery_output`: the unavailable items, and the others.
  unfoldable pub collect : List GalleryItem → Result (ℕ × List GalleryItem)
  unfolding validate_source_url
  collect [] = ok (0, [])
  collect (item ∷ items) =
      let rest = collect items in
      if not (is_set (item.source_url)) || not (item.progressive)
      then elim rest [ err e ↦ err e | ok (n, candidates) ↦ ok (suc n, candidates) ]
      else if not (validate_source_url (or_empty (item.source_url)))
      then err unsafe_url
      else elim rest [ err e ↦ err e | ok (n, candidates) ↦ ok (n, item ∷ candidates) ]

  -- normalize_gallery_output, of records that are parsed
  unfoldable pub normalize_gallery_output : ℕ → List GalleryItem → Result NormalizedExtraction
  unfolding collect select_best_variants to_normalized_media
  normalize_gallery_output media_limit [] = err no_metadata
  normalize_gallery_output media_limit (first ∷ others) = elim (collect (first ∷ others)) [
    | err e ↦ err e
    | ok (unavailable, candidates) ↦
        let selected = select_best_variants candidates in
        if ltb media_limit (length selected)
        then err too_many_items
        else ok (record {
          platform = first.platform;
          post_url = first.post_url;
          post_id = first.post_id;
          author = optional_text_value (first.author);
          description = optional_text_value (first.description);
          unavailable_media_count = unavailable;
          items = map to_normalized_media selected;
        })
  ]

-- ensure_downloadable_media
unfoldable pub ensure_downloadable_media : NormalizedExtraction → Result NormalizedExtraction
ensure_downloadable_media result = elim (result.items) [
  | [] ↦ err no_media_error
  | item ∷ items ↦ ok result
]
