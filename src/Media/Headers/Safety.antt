-- ===== src/Media/Headers/Safety.antt =====
-- src/sns_media_list/network/media_client.py: the headers that `_parse_response_headers` lets
-- through.
use sns_media_list.Media.Headers.{
  set_header, header_token_extra, is_header_token_char, is_header_token, is_safe_header_char,
  is_safe_header_value, is_valid_content_length, is_blank, add_normalized_header,
  validate_framing_headers, add_headers, normalize_response_headers, status_of, header_lines,
  parse_lines, split_lines, parse_response_headers,
}
use sns_media_list.Models.{Headers}
use sns_media_list.Errors.{ok}
use sns_media_list.Prelude.{
  ℕ, ◌≤◌, ◌≡◌, refl, Bool, true, false, ◌&&◌, ◌||◌, not, some, List, [], ◌∷◌, all, inl, inr, arith,
  Option-cases, Bool-cases,
}
use sns_media_list.Text.{
  Text, codes, text_eq, text_eq→≡, text_eq_refl, strip, lstrip, rstrip, lower, to_lower,
}

-- The name is a lowercase token, the value has no character below 0x20 but the tab and no DEL,
-- and the fields that frame the body have values that can be relied on.
unfoldable pub is_header_ok : Text → Text → Bool
is_header_ok name value =
    is_header_token name
    && text_eq (lower name) name
    && is_safe_header_value value
    && (not (text_eq name (codes "content-length")) || is_valid_content_length value)
    && (not (text_eq name (codes "content-encoding")) || text_eq value (codes "identity"))

unfoldable pub are_ok : Headers → Bool
are_ok [] = true
are_ok ((name, value) ∷ hs) = is_header_ok name value && are_ok hs

all-lstrip : (p q : ℕ → Bool) (s : Text) → all p s ≡ true → all p (lstrip q s) ≡ true
unfolding lstrip
all-lstrip p q [] h = refl
all-lstrip p q (c ∷ s) h = ground (arith, all-lstrip p q s)

all-rstrip : (p q : ℕ → Bool) (s : Text) → all p s ≡ true → all p (rstrip q s) ≡ true
unfolding rstrip
all-rstrip p q [] h = refl
all-rstrip p q (c ∷ s) h = ground (arith, all-rstrip p q s)

pub all-strip : (p q : ℕ → Bool) (s : Text) → all p s ≡ true → all p (strip q s) ≡ true
unfolding strip
all-strip p q s h = all-rstrip p q (lstrip q s) (all-lstrip p q s h)

to_lower-is_header_token_char :
    (c : ℕ) → is_header_token_char c ≡ true → is_header_token_char (to_lower c) ≡ true
unfolding is_header_token_char header_token_extra to_lower
to_lower-is_header_token_char c h = ground arith

to_lower_idem : (c : ℕ) → to_lower (to_lower c) ≡ to_lower c
unfolding to_lower
to_lower_idem c = ground arith

all-lower :
    (s : Text) → all is_header_token_char s ≡ true → all is_header_token_char (lower s) ≡ true
all-lower [] h = refl
all-lower (c ∷ s) h = ground (arith, all-lower s, to_lower-is_header_token_char c)

lower-is_header_token : (s : Text) → is_header_token s ≡ true → is_header_token (lower s) ≡ true
unfolding is_header_token text_eq
lower-is_header_token [] h = h
lower-is_header_token (c ∷ s) h = all-lower (c ∷ s) h

lower_idem : (s : Text) → lower (lower s) ≡ lower s
lower_idem [] = refl
lower_idem (c ∷ s) = rw (to_lower_idem c, lower_idem s) refl

set_header-ok :
    (name value : Text) (hs : Headers)
    → is_header_ok name value ≡ true
    → are_ok hs ≡ true
    → are_ok (set_header name value hs) ≡ true
unfolding set_header are_ok
set_header-ok name value [] h g = ground arith
set_header-ok name value ((n, v) ∷ hs) h g = elim (Bool-cases (text_eq n name)) [
  | inl e ↦ let same : n ≡ name = text_eq→≡ n name e in ground (arith, set_header-ok name value hs)
  | inr e ↦ ground (arith, set_header-ok name value hs)
]

length_not_encoding :
    (name : Text)
    → text_eq name (codes "content-encoding") ≡ true
    → text_eq name (codes "content-length") ≡ false
unfolding text_eq
length_not_encoding name e =
    let same : name ≡ codes "content-encoding" = text_eq→≡ name (codes "content-encoding") e in
    rw same refl

identity-is_header_ok :
    (name : Text)
    → is_header_token name ≡ true
    → text_eq (lower name) name ≡ true
    → text_eq name (codes "content-encoding") ≡ true
    → is_header_ok name (codes "identity") ≡ true
unfolding is_header_ok text_eq is_safe_header_char
identity-is_header_ok name t l e = ground (arith, length_not_encoding name e)

plain-is_header_ok :
    (name value : Text)
    → is_header_token name ≡ true
    → text_eq (lower name) name ≡ true
    → is_safe_header_value value ≡ true
    → text_eq name (codes "content-encoding") ≡ false
    → text_eq name (codes "content-length") && not (is_valid_content_length value) ≡ false
    → is_header_ok name value ≡ true
unfolding is_header_ok
plain-is_header_ok name value t l s e v = ground arith

add_normalized_header-ok :
    (hs : Headers) (name value : Text) (more : Headers)
    → are_ok hs ≡ true
    → add_normalized_header hs name value ≡ some more
    → are_ok more ≡ true
unfolding add_normalized_header is_header_ok
add_normalized_header-ok hs name value more h e =
    let token = lower-is_header_token name in
    let idem : text_eq (lower (lower name)) (lower name) ≡ true =
      rw (lower_idem name) (text_eq_refl (lower name)) in
    let safe = all-strip is_safe_header_char is_blank value in
    let plain = plain-is_header_ok (lower name) (strip is_blank value) in
    ground (
      arith,
      token,
      idem,
      safe,
      plain,
      identity-is_header_ok (lower name),
      set_header-ok (lower name) (strip is_blank value) hs,
      set_header-ok (lower name) (codes "identity") hs,
    )

add_headers-ok :
    (hs new more : Headers) → are_ok hs ≡ true → add_headers hs new ≡ some more → are_ok more ≡ true
unfolding add_headers
add_headers-ok hs [] more h e = ground arith
add_headers-ok hs ((name, value) ∷ new) more h e =
    elim (Option-cases (add_normalized_header hs name value)) [
      | inl none_added ↦ ground arith
      | inr (next, added) ↦
          add_headers-ok next new more (add_normalized_header-ok hs name value next h added)
            (ground arith)
    ]

pub normalize_response_headers-ok :
    (raw headers : Headers)
    → normalize_response_headers raw ≡ ok headers
    → (are_ok headers ≡ true) × (validate_framing_headers headers ≡ true)
unfolding normalize_response_headers are_ok
normalize_response_headers-ok raw headers e = elim (Option-cases (add_headers [] raw)) [
  | inl refused ↦ ground arith
  | inr (more, added) ↦
      let good : are_ok more ≡ true = add_headers-ok [] raw more refl added in ground arith
]

status_of-range :
    (line : Text) (status_code : ℕ)
    → status_of line ≡ some status_code
    → (100 ≤ status_code) × (status_code ≤ 599)
unfolding status_of
status_of-range line status_code e = ground arith

parse_lines-AreSafe :
    (lines : List Text) (status_code : ℕ) (headers : Headers)
    → parse_lines lines ≡ ok (status_code, headers)
    → (100 ≤ status_code)
      × (status_code ≤ 599)
      × (are_ok headers ≡ true)
      × (validate_framing_headers headers ≡ true)
unfolding parse_lines
parse_lines-AreSafe [] status_code headers e = ground arith
parse_lines-AreSafe (first ∷ lines) status_code headers e = elim (Option-cases (status_of first)) [
  | inl refused ↦ ground arith
  | inr (n, known) ↦ elim (Option-cases (header_lines lines)) [
    | inl refused ↦ ground arith
    | inr (raw, read) ↦
        let range = status_of-range first n known in
        let good = normalize_response_headers-ok raw headers in ground (arith, range, good)
  ]
]

-- A response whose head is accepted has a status from 100 to 599, lowercase header names that are
-- tokens, values with no character below 0x20 but the tab and no DEL, a Content-Length of decimal
-- digits and a Content-Encoding of identity where there is one, and its framing is valid.
pub parse_response_headers-AreSafe :
    (raw_headers : Text) (status_code : ℕ) (headers : Headers)
    → parse_response_headers raw_headers ≡ ok (status_code, headers)
    → (100 ≤ status_code)
      × (status_code ≤ 599)
      × (are_ok headers ≡ true)
      × (validate_framing_headers headers ≡ true)
parse_response_headers-AreSafe raw_headers status_code headers =
    parse_lines-AreSafe (split_lines raw_headers) status_code headers
