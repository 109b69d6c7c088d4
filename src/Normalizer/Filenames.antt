-- ===== src/Normalizer/Filenames.antt =====
-- src/sns_media_list/extractor/normalizer.py: the names under which media are downloaded.
pub mod Safety
use sns_media_list.Media.Fetch.{digits}
use sns_media_list.Prelude.{
  ℕ, suc, ◌+◌, Bool, true, false, ◌&&◌, ◌||◌, not, Option, none, some, List, [], ◌∷◌, ◌++◌, take,
  if◌then◌else◌, ltb, leb, ◌==◌,
}
use sns_media_list.Text.{Text, codes, text_eq, lower, strip, is_digit, is_upper, is_lower}

-- "".join(c for c in s if p(c)), which is re.sub of the other characters by ""
unfoldable pub keep : (ℕ → Bool) → Text → Text
keep p [] = []
keep p (c ∷ s) = let rest = keep p s in if p c then c ∷ rest else rest

-- re.sub(r"[…]+", "-", s): a run of characters of the class, and of those after one such if
-- `in_run`, becomes one dash
unfoldable pub dash_runs : (ℕ → Bool) → Bool → Text → Text
dash_runs p in_run [] = []
dash_runs p in_run (c ∷ s) =
    let inside = dash_runs p true s in
    let outside = dash_runs p false s in
    if p c then (if in_run then inside else b'-' ∷ inside) else c ∷ outside

-- s or default
abbrev pub or_default : Text → Text → Text
or_default default [] = default
or_default default (c ∷ s) = c ∷ s

-- the class [\x00-\x1f\x7f\\/:\"<>|?*\r\n]
unfoldable pub is_unsafe : ℕ → Bool
is_unsafe c =
    ltb c 0x20
    || c == 0x7f
    || c == 0x5c
    || c == b'/'
    || c == b':'
    || c == 0x22
    || c == b'<'
    || c == b'>'
    || c == b'|'
    || c == b'?'
    || c == b'*'

-- sanitize_filename
unfoldable pub sanitize_filename : Text → Text
unfolding dash_runs is_unsafe strip
sanitize_filename value =
    or_default (codes "media.bin")
      (strip (λ c. c == 0x20 || c == b'.') (dash_runs is_unsafe false value))

abbrev pub is_component_char : ℕ → Bool
is_component_char c = is_upper c || is_lower c || is_digit c || c == b'_' || c == b'.' || c == b'-'

-- _safe_filename_component
unfoldable pub safe_filename_component : Text → Text
unfolding keep strip
safe_filename_component value =
    take 48 (strip (λ c. c == b'.' || c == b'_' || c == b'-') (keep is_component_char value))

-- _safe_extension
unfoldable pub safe_extension : Text → Text
unfolding keep
safe_extension value =
    or_default (codes "bin")
      (take 10 (lower (keep (λ c. is_lower c || is_upper c || is_digit c) value)))

-- f"{index:02d}"
abbrev pub two_digits : ℕ → Text
two_digits index =
    if ltb index 10 then b'0' ∷ digits (suc index) index else digits (suc index) index

-- the author's component with its dash, if the author is set and leaves anything
abbrev pub author_part : Option Text → Text
author_part none = []
author_part (some author) = elim (safe_filename_component author) [ [] ↦ [] | c ∷ s ↦ b'-' ∷ c ∷ s ]

-- build_media_filename
unfoldable pub build_media_filename : Text → Option Text → Text → ℕ → Text → Bool → Text
unfolding sanitize_filename safe_filename_component safe_extension digits
build_media_filename platform author post_id index extension is_exact_story =
    let suffix = b'.' ∷ safe_extension extension in
    let safe_platform = or_default (codes "media") (safe_filename_component platform) in
    let safe_post_id = or_default (codes "post") (safe_filename_component post_id) in
    if is_exact_story
    then sanitize_filename (safe_platform ++ b'-' ∷ safe_post_id ++ codes "-1" ++ suffix)
    else sanitize_filename (
        take 160 (
          safe_platform
          ++ author_part author
          ++ b'-' ∷ safe_post_id
          ++ b'-' ∷ two_digits index
          ++ suffix))
