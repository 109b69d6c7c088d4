-- ===== src/Normalizer/Filenames/Safety.antt =====
-- src/sns_media_list/extractor/normalizer.py: the bounds of the names of media files.
use sns_media_list.Media.Headers.Safety.{all-strip}
use sns_media_list.Normalizer.Filenames.{
  author_part, two_digits, dash_runs, or_default, is_unsafe, sanitize_filename,
  safe_filename_component, safe_extension, build_media_filename,
}
use sns_media_list.Prelude.{
  ℕ, ◌≤◌, ◌≡◌, refl, Bool, true, false, ◌||◌, not, Option, [], ◌∷◌, ◌++◌, length, all, take, ◌==◌,
  arith, length-take, length-append,
}
use sns_media_list.Text.{Text, codes, lstrip, rstrip, strip}

-- Not empty, within a bound, and with no path separator, control character or quote.
pub record IsSafeName (bound : ℕ) (name : Text) : Type 0 where
  pub present : 1 ≤ length name
  pub bounded : length name ≤ bound
  pub safe : all (λ c. not (is_unsafe c)) name ≡ true

dash_runs-IsSafe :
    (in_run : Bool) (s : Text) → all (λ c. not (is_unsafe c)) (dash_runs is_unsafe in_run s) ≡ true
unfolding dash_runs is_unsafe
dash_runs-IsSafe in_run [] = refl
dash_runs-IsSafe in_run (c ∷ s) = ground (arith, dash_runs-IsSafe true s, dash_runs-IsSafe false s)

length-dash_runs :
    (p : ℕ → Bool) (in_run : Bool) (s : Text) → length (dash_runs p in_run s) ≤ length s
unfolding dash_runs
length-dash_runs p in_run [] = omega arith
length-dash_runs p in_run (c ∷ s) =
    ground (arith, length-dash_runs p true s, length-dash_runs p false s)

length-lstrip : (p : ℕ → Bool) (s : Text) → length (lstrip p s) ≤ length s
unfolding lstrip
length-lstrip p [] = omega arith
length-lstrip p (c ∷ s) = ground (arith, length-lstrip p s)

length-rstrip : (p : ℕ → Bool) (s : Text) → length (rstrip p s) ≤ length s
unfolding rstrip
length-rstrip p [] = omega arith
length-rstrip p (c ∷ s) = ground (arith, length-rstrip p s)

length-strip : (p : ℕ → Bool) (s : Text) → length (strip p s) ≤ length s
unfolding strip
length-strip p s = omega (arith, length-lstrip p s, length-rstrip p (lstrip p s))

or_default-IsSafeName :
    (bound : ℕ) (s : Text)
    → 9 ≤ bound
    → length s ≤ bound
    → all (λ c. not (is_unsafe c)) s ≡ true
    → IsSafeName bound (or_default (codes "media.bin") s)
unfolding is_unsafe
or_default-IsSafeName bound [] h b e = record { present = omega arith; bounded = h; safe = refl }
or_default-IsSafeName bound (c ∷ s) h b e = record { present = omega arith; bounded = b; safe = e }

sanitize_filename-IsSafeName :
    (bound : ℕ) (value : Text)
    → 9 ≤ bound
    → length value ≤ bound
    → IsSafeName bound (sanitize_filename value)
unfolding sanitize_filename
sanitize_filename-IsSafeName bound value h b =
    let edge : ℕ → Bool = λ c. c == 0x20 || c == b'.' in
    let dashed = dash_runs is_unsafe false value in
    or_default-IsSafeName bound (strip edge dashed) h
      (omega (arith, length-strip edge dashed, length-dash_runs is_unsafe false value))
      (all-strip (λ c. not (is_unsafe c)) edge dashed (dash_runs-IsSafe false value))

length-take_le : (n : ℕ) (s : Text) → length (take n s) ≤ n
length-take_le n s = omega (arith, length-take n s)

length-safe_filename_component : (value : Text) → length (safe_filename_component value) ≤ 48
unfolding safe_filename_component
length-safe_filename_component value = length-take_le 48 _

length-or_default :
    (bound : ℕ) (default s : Text)
    → length default ≤ bound
    → length s ≤ bound
    → length (or_default default s) ≤ bound
length-or_default bound default [] h b = h
length-or_default bound default (c ∷ s) h b = b

length-safe_extension : (value : Text) → length (safe_extension value) ≤ 10
unfolding safe_extension
length-safe_extension value =
    length-or_default 10 (codes "bin") _ (omega arith) (length-take_le 10 _)

story_name_length :
    (platform post extension : Text)
    → length platform ≤ 48
    → length post ≤ 48
    → length extension ≤ 10
    → length (platform ++ b'-' ∷ post ++ codes "-1" ++ b'.' ∷ extension) ≤ 160
story_name_length platform post extension p q r = grind (arith, length-append)

-- Whatever the extractor says of the platform, the author, the post and the extension, the filename
-- of a media is not empty, has at most 160 characters, and none of them is a control character, a
-- quote, a path separator or another character that file systems and headers reserve.
pub build_media_filename-IsSafeName :
    (platform : Text) (author : Option Text) (post_id : Text) (index : ℕ) (extension : Text)
    (is_exact_story : Bool)
    → IsSafeName 160 (build_media_filename platform author post_id index extension is_exact_story)
unfolding build_media_filename
build_media_filename-IsSafeName platform author post_id index extension true =
    sanitize_filename-IsSafeName 160 _ (omega arith) (
      story_name_length (or_default (codes "media") (safe_filename_component platform))
        (or_default (codes "post") (safe_filename_component post_id)) (safe_extension extension)
        (length-or_default 48 (codes "media") (safe_filename_component platform) (omega arith)
          (length-safe_filename_component platform))
        (length-or_default 48 (codes "post") (safe_filename_component post_id) (omega arith)
          (length-safe_filename_component post_id))
        (length-safe_extension extension))
build_media_filename-IsSafeName platform author post_id index extension false =
    let joined =
      or_default (codes "media") (safe_filename_component platform)
      ++ author_part author
      ++ b'-' ∷ or_default (codes "post") (safe_filename_component post_id)
      ++ b'-' ∷ two_digits index
      ++ b'.' ∷ safe_extension extension in
    sanitize_filename-IsSafeName 160 (take 160 joined) (omega arith) (length-take_le 160 joined)
