-- ===== src/Routes/Examples.antt =====
-- Runs of a download that is truncated and resumed.
use sns_media_list.Errors.{ok}
use sns_media_list.Media.Body.{Body, joined, content_length}
use sns_media_list.Media.Headers.{
  has_chunked_transfer_encoding, is_header_token, is_safe_header_char, header, set_header,
}
use sns_media_list.Models.{PrivateMediaRecord, video, instagram, download, proxy}
use sns_media_list.Prelude.{
  ℕ, ◌-◌, ◌≡◌, ◌++◌, refl, sym, inl, inr, ◌⊎◌, false, none, some, [], ◌∷◌, length, drop, ◌==◌,
  if◌then◌else◌, arith, subst,
}
use sns_media_list.Routes.Download.{Upstream, validated_body}
use sns_media_list.Routes.Download.Bodies.{validated_body-IsValidated}
use sns_media_list.Routes.Download.Loop.{Session, stream_media}
use sns_media_list.Routes.Download.Sends.{IsStreamed, stream_media-IsStreamed}
use sns_media_list.Routes.Download.Outcomes.{IsReleased, stream_media-IsReleased}
use sns_media_list.Routes.Reasons.{DownloadError, timeout_error}
use sns_media_list.Text.{
  Text, codes, text_eq, to_lower, is_space, rstrip, one_of, split, strip, decimal,
}

abbrev clip : PrivateMediaRecord
clip = record {
  token = "t";
  purpose = download;
  source_url = codes "https://video.twimg.com/a.mp4";
  media_class = video;
  filename = codes "a.mp4";
  platform = instagram;
  expires_at = 900;
  request_headers = [];
  content_type = some (codes "video/mp4");
  preview_mode = proxy;
}

abbrev file : Text
file = codes "abcdefghij"

abbrev cut_upstream : Upstream
cut_upstream = record {
  response = record {
    status_code = 200;
    headers = (codes "content-type", codes "video/mp4") ∷ (codes "content-length", codes "10") ∷ [];
  };
  max_bytes = 100;
  stream = record { bytes = codes "abcd"; ready = 0 ∷ []; failure = none };
}

abbrev rest_upstream : Upstream
rest_upstream = record {
  response = record {
    status_code = 206;
    headers =
        (codes "content-type", codes "video/mp4")
        ∷ (codes "content-range", codes "bytes 4-9/10")
        ∷ (codes "content-length", codes "6")
        ∷ [];
  };
  max_bytes = 100;
  stream = record { bytes = codes "efghij"; ready = 2 ∷ []; failure = none };
}

abbrev fetch_rest : ℕ → DownloadError ⊎ Upstream
fetch_rest offset = if offset == 4 then inr rest_upstream else inl timeout_error

abbrev clip_session : Session
clip_session = record {
  media = clip;
  preview = false;
  fetch_from = fetch_rest;
  close_error = λ id. none;
  release_error = none;
  interrupts = λ waits. none;
}

cut_unframed : has_chunked_transfer_encoding (cut_upstream.response.headers) ≡ ok false
unfolding has_chunked_transfer_encoding text_eq is_header_token is_safe_header_char to_lower
    is_space rstrip one_of header set_header split strip
cut_unframed = refl

rest_unframed : has_chunked_transfer_encoding (rest_upstream.response.headers) ≡ ok false
unfolding has_chunked_transfer_encoding text_eq is_header_token is_safe_header_char to_lower
    is_space rstrip one_of header set_header split strip
rest_unframed = refl

cut_length : content_length (cut_upstream.response.headers) 100 ≡ ok (some 10)
unfolding content_length text_eq decimal
cut_length = refl

rest_length : content_length (rest_upstream.response.headers) 100 ≡ ok (some 6)
unfolding content_length text_eq decimal
rest_length = refl

fetched_rest :
    (offset : ℕ) (v : Upstream) → fetch_rest offset ≡ inr v → (offset ≡ 4) × (v ≡ rest_upstream)
fetched_rest offset v e = ground arith

rest_resumes :
    (offset : ℕ) (v : Upstream) (b : Body)
    → fetch_rest offset ≡ inr v
    → validated_body v false video (some (length file - offset)) ≡ some b
    → (rest : Text) × (joined (b.0) ++ rest ≡ drop offset file)
rest_resumes offset v b e is =
    let (at, same) = fetched_rest offset v e in
    let h =
      validated_body-IsValidated rest_upstream video (some (10 - offset)) (some 6) rest_unframed
        rest_length in
    let body : h.body ≡ b = ground (arith, h.is, is, same) in
    let part = subst (λ (c : Body). joined (c.0) ++ h.unread ≡ codes "efghij") body (h.whole) in
    (h.unread, subst (λ (n : ℕ). joined (b.0) ++ h.unread ≡ drop n file) (sym at) part)

stream_media-IsStreamed_example :
    IsStreamed file (stream_media clip_session (λ name. name) (inr cut_upstream))
stream_media-IsStreamed_example =
    stream_media-IsStreamed clip_session (λ name. name) cut_upstream file (codes "efghij") refl
      cut_unframed cut_length refl rest_resumes

-- The second fetch is refused, and closing the first response fails.
abbrev failing_session : Session
failing_session = record clip_session {
  fetch_from = λ offset. inl timeout_error;
  close_error = λ id. some timeout_error;
}

stream_media-IsReleased_example :
    IsReleased (stream_media failing_session (λ name. name) (inr cut_upstream))
stream_media-IsReleased_example =
    stream_media-IsReleased failing_session (λ name. name) (inr cut_upstream)
