-- ===== src/Extraction/Stored.antt =====
-- src/sns_media_list/services/extraction_service.py: what an extraction stores and returns.
use sns_media_list.Errors.{AppError, Result, err, ok, app_error, capacity_exceeded}
use sns_media_list.Extraction.{
  Settings, drafts_of, Extracted, returned, refused, index_error, validation_error, answer,
}
use sns_media_list.Extraction.Response.{MediaItem, Validation, is_valid_item, is_valid_response}
use sns_media_list.Extraction.Links.{AreLinked}
use sns_media_list.Models.{MediaTokenDraft, PrivateMediaRecord}
use sns_media_list.Normalizer.Extraction.{NormalizedExtraction}
use sns_media_list.Prelude.{
  ℕ, ◌+◌, ◌<◌, ◌≡◌, ◌⊎◌, String, not, Bool, true, false, List, length, ltb, all, ◌&&◌,
}
use sns_media_list.Text.{Text}
use sns_media_list.Tokens.{TokenStore, live_records, issue, store_all}

-- One batch of drafts is stored on top of the live records, and is that of the links of the media.
abbrev pub IsBatch :
    (ℕ → String) → ℕ → ℕ → TokenStore → TokenStore → NormalizedExtraction → List MediaItem → Type 0
IsBatch tokens purged now s after normalized media =
    (drafts : List MediaTokenDraft) × AreLinked (normalized.items)
      (issue tokens 0 (now + s.ttl) drafts) media
    × (after.records
        ≡ store_all (issue tokens 0 (now + s.ttl) drafts) (live_records purged (s.records)))

abbrev pub full_capacity : AppError
full_capacity = app_error capacity_exceeded "Temporary media capacity is full."

-- No new record is stored: the drafts cannot be built, or do not fit beside the live records.
abbrev pub IsRefused :
    Settings → ℕ → TokenStore → TokenStore → NormalizedExtraction → AppError → Type 0
IsRefused settings purged s after normalized e =
    ((drafts_of settings (normalized.items) ≡ err e) × (after.records ≡ s.records))
    ⊎ ((drafts : List MediaTokenDraft) × (drafts_of settings (normalized.items) ≡ ok drafts)
        × (s.capacity < length (live_records purged (s.records)) + length drafts)
        × (e ≡ full_capacity)
        × (after.records ≡ live_records purged (s.records)))

-- What is stored, by what is returned: with a response, the records of its links, all valid; with a
-- ValidationError, the records of the links of media that, with the rest of the response, are not
-- all valid; with an `AppError`, which is that of the normalization where that fails, no new record.
-- No index is out of range.
abbrev pub IsStored :
    Validation
    → Settings
    → (ℕ → String)
    → ℕ
    → ℕ
    → TokenStore
    → TokenStore
    → Result NormalizedExtraction
    → Extracted
    → Type 0
IsStored valid settings tokens purged now s after (ok normalized) (returned response) =
    IsBatch tokens purged now s after normalized (response.media)
    × (all (is_valid_item valid) (response.media) && is_valid_response valid normalized ≡ true)
IsStored valid settings tokens purged now s after (ok normalized) validation_error =
    (media : List MediaItem) × IsBatch tokens purged now s after normalized media
    × (all (is_valid_item valid) media && is_valid_response valid normalized ≡ false)
IsStored valid settings tokens purged now s after (err e) (returned response) = true ≡ false
IsStored valid settings tokens purged now s after (err e) validation_error = true ≡ false
IsStored valid settings tokens purged now s after (err f) (refused e) =
    (e ≡ f) × (after.records ≡ s.records)
IsStored valid settings tokens purged now s after (ok normalized) (refused e) =
    IsRefused settings purged s after normalized e
IsStored valid settings tokens purged now s after normalized index_error = true ≡ false

module _ (tokens : ℕ → String) (drafts : List MediaTokenDraft) (purged now : ℕ)
    (s : TokenStore) where
  abbrev fits : Bool
  fits = not (ltb (s.capacity) (length (live_records purged (s.records)) + length drafts))

abbrev AnswersStored :
    Validation
    → Settings
    → NormalizedExtraction
    → (ℕ → String)
    → ℕ
    → ℕ
    → TokenStore
    → TokenStore × Result (List PrivateMediaRecord)
    → Type 0
AnswersStored valid settings normalized tokens purged now s reserved =
    IsStored valid settings tokens purged now s ((answer valid settings normalized reserved).0)
      (ok normalized) ((answer valid settings normalized reserved).1)
