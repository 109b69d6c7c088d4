-- ===== src/Errors.antt =====
-- src/sns_media_list/errors.py: the stable error codes, their HTTP status and `AppError`.
pub mod Diagnostics
pub mod Statuses
mod Examples
use Diagnostics.{FailureStage, ExtractorDiagnostics}
use sns_media_list.Prelude.{
  ◌⊎◌, inl, inr, ℕ, String, ◌≡◌, refl, Bool, false, Option, none, some, true,
}

pub data Code : Type 0 where
  invalid_request invalid_url unsupported_url post_unavailable story_unavailable : Code
  story_auth_required token_not_found no_media extraction_limit_exceeded : Code
  request_too_large unsupported_media_type local_rate_limited upstream_rate_limited : Code
  upstream_media_invalid extraction_failed capacity_exceeded : Code
  platform_authentication_failed extraction_timeout token_expired unsafe_destination : Code

-- ERROR_STATUS
unfoldable pub error_status : Code → ℕ
error_status invalid_request = 422
error_status invalid_url = 400
error_status unsupported_url = 400
error_status post_unavailable = 404
error_status story_unavailable = 404
error_status story_auth_required = 403
error_status token_not_found = 404
error_status no_media = 422
error_status extraction_limit_exceeded = 422
error_status request_too_large = 413
error_status unsupported_media_type = 415
error_status local_rate_limited = 429
error_status upstream_rate_limited = 429
error_status upstream_media_invalid = 502
error_status extraction_failed = 502
error_status capacity_exceeded = 503
error_status platform_authentication_failed = 503
error_status extraction_timeout = 504
error_status token_expired = 410
error_status unsafe_destination = 502

pub record AppError : Type 0 where
  pub code : Code
  pub message : String
  pub status_code : ℕ
  pub retry_after : Option ℕ
  pub deterministic : Bool
  pub failure_stage : Option FailureStage
  pub extractor_diagnostics : Option ExtractorDiagnostics

-- `AppError(code, message)`: the status is the one that `__post_init__` fills in.
abbrev pub app_error : Code → String → AppError
app_error code message = record {
  code = code;
  message = message;
  status_code = error_status code;
  retry_after = none;
  deterministic = false;
  failure_stage = none;
  extractor_diagnostics = none;
}

-- What a function returns, or the `AppError` that it raises.
pub data Result {ℓ} (Value : Type ℓ) : Type ℓ where
  err : AppError → Result Value
  ok : Value → Result Value

-- `do` blocks over results: what is raised ends the block.
infixl 5 ◌>>=◌ ◌>>◌
abbrev pub ◌>>=◌ {ℓ ℓ'} :
    {Before : Type ℓ} {After : Type ℓ'} → Result Before → (Before → Result After) → Result After
err raised >>= next = err raised
ok value >>= next = next value

abbrev pub ◌>>◌ {ℓ} : {After : Type ℓ} → Result (Unit {0}) → Result After → Result After
checked >> next = checked >>= (λ _. next)

-- `if bad: raise error`
abbrev pub raise_if : Bool → AppError → Result (Unit {0})
raise_if bad e = elim bad [ true ↦ err e | false ↦ ok tt ]

pub Result-cases {ℓ} :
    {Value : Type ℓ} (r : Result Value)
    → ((e : AppError) × (r ≡ err e)) ⊎ ((v : Value) × (r ≡ ok v))
Result-cases (err e) = inl (e, refl)
Result-cases (ok v) = inr (v, refl)
