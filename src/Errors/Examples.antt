-- ===== src/Errors/Examples.antt =====
-- Tests of the diagnostics of src/sns_media_list/errors.py, and their theorems at concrete inputs.
use sns_media_list.Prelude.{◌≡◌, refl, none, some, [], ◌∷◌}
use sns_media_list.Python.{pos, Value, integer, text, array, fixed, nil, cons}
use sns_media_list.Errors.Diagnostics.{
  normalize_http_statuses, normalize_failure_stage, extractor_io, unknown_stage,
}
use sns_media_list.Errors.Statuses.{
  IsStatusList, normalize_http_statuses-IsStatusList, normalize_http_statuses_idem, status_values,
}

abbrev two_statuses : Value
two_statuses =
    array (cons (integer (pos 429)) (cons (integer (pos 403)) (cons (integer (pos 429)) nil)))

sorted_once : normalize_http_statuses two_statuses ≡ some (403 ∷ 429 ∷ [])
unfolding normalize_http_statuses
sorted_once = refl

bad_status : normalize_http_statuses (array (cons (integer (pos 99)) nil)) ≡ none
unfolding normalize_http_statuses
bad_status = refl

stages :
    (normalize_failure_stage (text "extractor_io") ≡ some extractor_io)
    × (normalize_failure_stage (text "other") ≡ some unknown_stage)
unfolding normalize_failure_stage
stages = (refl, refl)

normalize_http_statuses-IsStatusList_example : IsStatusList (403 ∷ 429 ∷ [])
normalize_http_statuses-IsStatusList_example =
    normalize_http_statuses-IsStatusList two_statuses (403 ∷ 429 ∷ []) sorted_once

normalize_http_statuses_idem_example :
    normalize_http_statuses (fixed (status_values (403 ∷ 429 ∷ []))) ≡ some (403 ∷ 429 ∷ [])
normalize_http_statuses_idem_example =
    normalize_http_statuses_idem two_statuses (403 ∷ 429 ∷ []) sorted_once
