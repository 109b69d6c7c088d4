-- ===== src/Normalizer/Extraction/Outcomes.antt =====
-- src/sns_media_list/extractor/normalizer.py: what `normalize_gallery_output` returns and raises.
use sns_media_list.Errors.{Result, err, ok}
use sns_media_list.Media.Policy.{or_empty}
use sns_media_list.Normalizer.Extraction.{
  UrlLibrary, NormalizedExtraction, no_metadata, unsafe_url, too_many_items, is_set,
  validate_source_url, to_normalized_media,
}
use sns_media_list.Normalizer.Variants.{GalleryItem, select_best_variants}
use sns_media_list.Prelude.{
  ℕ, ◌+◌, ◌≡◌, ◌≤◌, ◌<◌, ◌⊎◌, Bool, true, false, ◌&&◌, not, List, [], ◌∷◌, map, any, length,
  if◌then◌else◌,
}

-- A record whose media can be downloaded directly.
abbrev pub is_available : GalleryItem → Bool
is_available item = is_set (item.source_url) && item.progressive

unfoldable pub available : List GalleryItem → List GalleryItem
available [] = []
available (item ∷ items) = if is_available item then item ∷ available items else available items

module _ (urls : UrlLibrary) where
  abbrev pub has_unsafe_url : GalleryItem → Bool
  has_unsafe_url item = not (validate_source_url urls (or_empty (item.source_url)))

  -- What is collected of the records, or the error that an unsafe URL raises.
  abbrev pub IsCollected : List GalleryItem → Result (ℕ × List GalleryItem) → Type 0
  IsCollected items (err e) = (any has_unsafe_url (available items) ≡ true) × (e ≡ unsafe_url)
  IsCollected items (ok (n, candidates)) =
      (any has_unsafe_url (available items) ≡ false)
      × ((candidates ≡ available items) × (n + length candidates ≡ length items))

  -- The result of each case: an error where there are no records, where an available record has an
  -- unsafe URL, or where more media are selected than the limit; and else the media that are
  -- selected of the available records, and the number of the others.
  abbrev pub IsOutcome : ℕ → List GalleryItem → Result NormalizedExtraction → Type 0
  IsOutcome media_limit items (err e) =
      ((items ≡ []) × (e ≡ no_metadata))
      ⊎ (((any has_unsafe_url (available items) ≡ true) × (e ≡ unsafe_url))
          ⊎ ((media_limit < length (select_best_variants (available items)))
              × (e ≡ too_many_items)))
  IsOutcome media_limit items (ok r) =
      (any has_unsafe_url (available items) ≡ false)
      × ((r.items ≡ map (to_normalized_media urls) (select_best_variants (available items)))
          × ((length (r.items) ≤ media_limit)
              × (r.unavailable_media_count + length (available items) ≡ length items)))
