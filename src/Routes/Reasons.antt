-- ===== src/Routes/Reasons.antt =====
-- src/sns_media_list/api/routes.py: what a download raises, and the reason that is logged for it.
use sns_media_list.Errors.{AppError, app_error, upstream_media_invalid}
use sns_media_list.Prelude.{
  ℕ, Bool, ◌||◌, ◌&&◌, not, Option, none, some, ◌≡◌, refl, if◌then◌else◌, length, leb, ltb, all,
  ◌==◌,
}
use sns_media_list.Text.{
  contains, Text, codes, lower, to_lower, text_eq, is_digit, is_upper, is_lower,
}

-- The exceptions that the routes tell apart; `app` is an `AppError` that is no
-- `MediaTruncatedError`, and `unexpected` is any other exception.
pub data DownloadError : Type 0 where
  app media_truncated : AppError → DownloadError
  cancelled client_disconnected generator_exit timeout_error incomplete_read unexpected :
      DownloadError

-- _DOWNLOAD_REASON_CODES
pub data ReasonCode : Type 0 where
  idle_timeout size_limit client_disconnect upstream_truncation upstream_validation
        unexpected_upstream_failure :
      ReasonCode

-- The reason of an `AppError`, by its message. Messages are ASCII, which `casefold` lowers.
unfoldable pub reason_of_message : Text → ReasonCode
unfolding contains
reason_of_message message =
    if contains (codes "timed out") message || contains (codes "deadline") message
    then idle_timeout
    else if contains (codes "size limit") message
    then size_limit
    else if contains (codes "truncated") message
    then upstream_truncation
    else if contains (codes "could not be read") message
        || contains (codes "request failed") message
    then unexpected_upstream_failure
    else upstream_validation

-- _download_reason_code
unfoldable pub download_reason_code : DownloadError → ReasonCode
unfolding reason_of_message
download_reason_code (app e) = reason_of_message (lower (codes (e.message)))
download_reason_code (media_truncated e) = reason_of_message (lower (codes (e.message)))
download_reason_code cancelled = client_disconnect
download_reason_code client_disconnected = client_disconnect
download_reason_code generator_exit = client_disconnect
download_reason_code timeout_error = idle_timeout
download_reason_code incomplete_read = upstream_truncation
download_reason_code unexpected = unexpected_upstream_failure

-- _safe_request_id, of text: what is not a string is `none`
unfoldable pub safe_request_id : Option Text → Text
safe_request_id none = codes "unknown"
safe_request_id (some value) =
    if not (leb 1 (length value) && leb (length value) 128) || not (all (λ c. ltb c 0x80) value)
    then codes "unknown"
    else if not (all is_id_char value)
    then codes "unknown"
    else value
  where
    is_id_char : ℕ → Bool
    is_id_char c = is_digit c || is_upper c || is_lower c || c == b'-' || c == b'_'

truncation_reason :
    download_reason_code
      (media_truncated (app_error upstream_media_invalid "The media response body was truncated."))
    ≡ upstream_truncation
unfolding download_reason_code text_eq to_lower
truncation_reason = refl
