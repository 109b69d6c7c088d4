-- ===== src/Errors/Diagnostics.antt =====
-- src/sns_media_list/errors.py: failure stages and extractor diagnostics, and the normalizers that
-- keep any value within fixed enumerations and bounds.
use sns_media_list.Prelude.{
  ℕ, suc, String, ◌&&◌, ◌||◌, Option, none, some, List, [], ◌∷◌, str_eq, if◌then◌else◌, ltb, leb,
  ◌==◌,
}
use sns_media_list.Python.{
  ℤ, pos, negsuc, Value, null, integer, text, array, fixed, Values, nil, cons,
}

-- Each enumeration is spelled as the source spells it: `FailureStage`, with "unknown", and the two
-- literals of the extractor diagnostics.
pub data FailureStage : Type 0 where
  extractor_start extractor_timeout extractor_output_limit extractor_io : FailureStage
  extractor_process_unclassified extractor_invalid_output : FailureStage
  extractor_empty_output extractor_no_media extractor_platform_error : FailureStage
  unknown_stage : FailureStage

abbrev pub stage_name : FailureStage → String
stage_name extractor_start = "extractor_start"
stage_name extractor_timeout = "extractor_timeout"
stage_name extractor_output_limit = "extractor_output_limit"
stage_name extractor_io = "extractor_io"
stage_name extractor_process_unclassified = "extractor_process_unclassified"
stage_name extractor_invalid_output = "extractor_invalid_output"
stage_name extractor_empty_output = "extractor_empty_output"
stage_name extractor_no_media = "extractor_no_media"
stage_name extractor_platform_error = "extractor_platform_error"
stage_name unknown_stage = "unknown"

-- FAILURE_STAGES
abbrev pub failure_stages : List FailureStage
failure_stages =
    extractor_start ∷ extractor_timeout ∷ extractor_output_limit ∷ extractor_io
    ∷ extractor_process_unclassified ∷ extractor_invalid_output ∷ extractor_empty_output
    ∷ extractor_no_media ∷ extractor_platform_error ∷ unknown_stage ∷ []

-- The member of an enumeration that has the given name.
unfoldable pub member {ℓ} : {A : Type ℓ} → (A → String) → List A → String → Option A
member name [] s = none
member name (a ∷ l) s = if str_eq (name a) s then some a else member name l s

-- An enumeration member as it stands, and `fallback` for any other value but None.
unfoldable pub normalize_enum {ℓ} : {A : Type ℓ} → (A → String) → List A → A → Value → Option A
unfolding member
normalize_enum name allowed fallback null = none
normalize_enum name allowed fallback (text s) = elim (member name allowed s) [
  | some a ↦ some a
  | none ↦ some fallback
]
normalize_enum name allowed fallback v = some fallback

unfoldable pub normalize_failure_stage : Value → Option FailureStage
unfolding normalize_enum
normalize_failure_stage = normalize_enum stage_name failure_stages unknown_stage

pub data DiagnosticSource : Type 0 where
  stderr datajob_error unknown_source : DiagnosticSource

abbrev pub source_name : DiagnosticSource → String
source_name stderr = "stderr"
source_name datajob_error = "datajob_error"
source_name unknown_source = "unknown"

abbrev pub diagnostic_sources : List DiagnosticSource
diagnostic_sources = stderr ∷ datajob_error ∷ unknown_source ∷ []

pub data ErrorType : Type 0 where
  auth_required authentication_error authorization_error not_found http_error : ErrorType
  challenge_error extraction_error no_extractor unknown_type : ErrorType

abbrev pub type_name : ErrorType → String
type_name auth_required = "auth_required"
type_name authentication_error = "authentication_error"
type_name authorization_error = "authorization_error"
type_name not_found = "not_found"
type_name http_error = "http_error"
type_name challenge_error = "challenge_error"
type_name extraction_error = "extraction_error"
type_name no_extractor = "no_extractor"
type_name unknown_type = "unknown"

abbrev pub error_types : List ErrorType
error_types =
    auth_required ∷ authentication_error ∷ authorization_error ∷ not_found ∷ http_error
    ∷ challenge_error ∷ extraction_error ∷ no_extractor ∷ unknown_type ∷ []

-- `_normalize_extractor_exit_code`: an int that is no bool, from -255 to 255.
unfoldable pub normalize_exit_code : Value → Option ℤ
normalize_exit_code (integer (pos n)) = if leb n 255 then some (pos n) else none
normalize_exit_code (integer (negsuc n)) = if leb (suc n) 255 then some (negsuc n) else none
normalize_exit_code v = none

-- The items of a list as statuses, if each is an int from 100 to 599.
unfoldable pub status_items : Values → Option (List ℕ)
status_items nil = some []
status_items (cons (integer (pos n)) vs) =
    let rest = status_items vs in
    if leb 100 n && leb n 599 then (elim rest [ none ↦ none | some l ↦ some (n ∷ l) ]) else none
status_items (cons v vs) = none

abbrev pub values_length : Values → ℕ
values_length nil = 0
values_length (cons v vs) = suc (values_length vs)

-- Insertion into a list that rises strictly: one step of `sorted(set(…))`.
unfoldable pub insert_status : ℕ → List ℕ → List ℕ
insert_status n [] = n ∷ []
insert_status n (m ∷ l) =
    let rest = insert_status n l in
    if n == m then m ∷ l else if ltb n m then n ∷ m ∷ l else m ∷ rest

unfoldable pub sorted_set : List ℕ → List ℕ
unfolding insert_status
sorted_set [] = []
sorted_set (n ∷ l) = insert_status n (sorted_set l)

unfoldable pub normalize_statuses : Values → Option (List ℕ)
normalize_statuses vs =
    if values_length vs == 0 || ltb 8 (values_length vs)
    then none
    else elim (status_items vs) [ none ↦ none | some l ↦ some (sorted_set l) ]

unfoldable pub normalize_http_statuses : Value → Option (List ℕ)
unfolding normalize_statuses status_items sorted_set
normalize_http_statuses (array vs) = normalize_statuses vs
normalize_http_statuses (fixed vs) = normalize_statuses vs
normalize_http_statuses v = none

pub record ExtractorDiagnostics : Type 0 where
  pub diagnostic_source : Option DiagnosticSource
  pub error_type : Option ErrorType
  pub exit_code : Option ℤ
  pub http_statuses : Option (List ℕ)

unfoldable pub normalize_extractor_diagnostics :
    Value → Value → Value → Value → ExtractorDiagnostics
unfolding normalize_enum normalize_exit_code normalize_http_statuses
normalize_extractor_diagnostics source type exit statuses = record {
  diagnostic_source = normalize_enum source_name diagnostic_sources unknown_source source;
  error_type = normalize_enum type_name error_types unknown_type type;
  exit_code = normalize_exit_code exit;
  http_statuses = normalize_http_statuses statuses;
}
