-- ===== src/Media/Examples.antt =====
-- Runs of the media client on small networks and streams.
use sns_media_list.Errors.{ok}
use sns_media_list.Media.Body.{joined, Body, finished, iter_plain}
use sns_media_list.Media.Body.Ends.{iter_plain-ends}
use sns_media_list.Media.Body.Plain.{IsBody}
use sns_media_list.Media.Forward.{validate_preview_signature, iter_validated_body, content_type_of}
use sns_media_list.Media.Forward.Previews.{IsChecked, iter_validated_body-IsChecked}
use sns_media_list.Media.Fetch.{MediaResponse, Hop, MediaClient, fetch}
use sns_media_list.Media.Fetch.Redirects.{IsFetched, fetch-IsFetched}
use sns_media_list.Media.Headers.{
  parse_lines, split_lines, is_header_token, is_safe_header_char, header, sample, sample_headers,
  sample_parsed, validate_framing_headers,
}
use sns_media_list.Media.Headers.Safety.{are_ok, parse_response_headers-AreSafe}
use sns_media_list.Media.Policy.{validate_url, Network}
use sns_media_list.Media.Stream.{Stream}
use sns_media_list.Media.Resume.{
  parsed, validate_resume_response, IsRest, validate_resume_response-IsRest,
}
use sns_media_list.Prelude.{
  List, ℕ, zero, suc, ◌≤◌, ◌≡◌, refl, true, none, some, [], ◌∷◌, ◌++◌, inr, arith,
}
use sns_media_list.Text.{
  text_eq, starts_with, is_space, to_lower, rstrip, ends_with, partition, decimal, strip, Text,
  codes,
}

abbrev answer : Text
answer = codes "HTTP/1.1 200 OK" ++ 13 ∷ 10 ∷ 13 ∷ 10 ∷ []

abbrev redirect : Text
redirect = codes "HTTP/1.1 302 Found" ++ 13 ∷ 10 ∷ codes "location:/b" ++ 13 ∷ 10 ∷ 13 ∷ 10 ∷ []

abbrev network : Network
network = record {
  urlsplit = λ url. some (record {
    scheme = codes "https";
    username = none;
    password = none;
    hostname = some (codes "cdn.example");
    port = none;
    path = url;
    query = [];
    fragment = [];
  });
  resolver = λ host port. ok (record { text = codes "8.8.8.8"; is_global = true } ∷ []);
}

abbrev hop : Text → Hop
hop head = record {
  network = network;
  validated = λ t. none;
  connected = λ t. none;
  drained = λ t. none;
  head = λ t. inr head;
  before_validate = 1;
  before_connect = 2;
  before_drain = 3;
  before_head = 4;
  before_return = 5;
}

abbrev hops : ℕ → Hop
hops zero = hop redirect
hops (suc n) = hop answer

abbrev client : MediaClient
client = record {
  policy = record { allowed_exact_hosts = []; allowed_suffixes = codes "example" ∷ [] };
  max_redirects = 1;
  connect_timeout = 10;
  read_timeout = 30;
  total_timeout = some 60;
}

fetch-IsFetched_example :
    IsFetched client hops 0 2 (fetch client hops (λ url location. location) 0 [] none (codes "/a"))
fetch-IsFetched_example =
    fetch-IsFetched client hops (λ url location. location) 0 [] none (codes "/a")

follows :
    (fetch client hops (λ url location. location) 0 [] none (codes "/a")).1
    ≡ inr (record { status_code = 200; headers = [] })
unfolding fetch validate_url to_lower rstrip ends_with parse_lines split_lines partition decimal
    is_header_token is_safe_header_char header strip
follows = refl

parse_response_headers-AreSafe_example :
    (100 ≤ 200)
    × (200 ≤ 599)
    × (are_ok sample_headers ≡ true)
    × (validate_framing_headers sample_headers ≡ true)
parse_response_headers-AreSafe_example =
    parse_response_headers-AreSafe sample 200 sample_headers sample_parsed

abbrev stream : Stream
stream = record { bytes = 1 ∷ 2 ∷ 3 ∷ 4 ∷ 5 ∷ []; ready = 0 ∷ []; failure = none }

stream_read :
    iter_plain 6 2 4 9 0 0 (some 4) stream
    ≡ some ((1 ∷ []) ∷ (2 ∷ 3 ∷ []) ∷ (4 ∷ []) ∷ [], finished)
unfolding iter_plain
stream_read = refl

iter_plain-ends_example :
    (body : Body) × ((iter_plain 6 2 4 9 0 0 (some 4) stream ≡ some body)
      × IsBody 4 0 (some 4) stream body)
iter_plain-ends_example =
    iter_plain-ends 2 4 9 6 0 0 (some 4) stream (omega arith) (omega arith) (omega arith)

abbrev resumed : MediaResponse
resumed = record {
  status_code = 206;
  headers =
      (codes "content-range", codes "bytes 4-9/10")
      ∷ (codes "content-type", codes "video/mp4")
      ∷ (codes "content-length", codes "6")
      ∷ [];
}

resumes :
    validate_resume_response resumed 100 4 10 (codes "video/mp4; x")
    ≡ parsed (record { start = 4; end = 9; total = 10 })
unfolding validate_resume_response text_eq partition starts_with decimal strip is_space to_lower
resumes = refl

validate_resume_response-IsRest_example :
    IsRest resumed 100 4 10 (codes "video/mp4; x") (record { start = 4; end = 9; total = 10 })
validate_resume_response-IsRest_example =
    validate_resume_response-IsRest resumed 100 4 10 (codes "video/mp4; x")
      (record { start = 4; end = 9; total = 10 }) resumes

abbrev pictured : MediaResponse
pictured = record { status_code = 200; headers = (codes "content-type", codes "image/gif") ∷ [] }

abbrev picture : List Text
picture = codes "GIF8" ∷ codes "9a.." ∷ []

previewed :
    iter_validated_body pictured true none (picture, finished) ≡ (codes "GIF89a.." ∷ [], finished)
unfolding iter_validated_body partition header to_lower validate_preview_signature
previewed = refl

iter_validated_body-IsChecked_example :
    IsChecked
      (content_type_of pictured)
      (joined picture)
      ((iter_validated_body pictured true none (picture, finished)).0)
iter_validated_body-IsChecked_example = iter_validated_body-IsChecked pictured none picture finished
