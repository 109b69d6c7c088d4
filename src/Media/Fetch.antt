-- ===== src/Media/Fetch.antt =====
-- src/sns_media_list/network/media_client.py: `MediaClient`, which fetches a media URL and follows
-- its redirects; `normalize_request_headers` of src/sns_media_list/extractor/normalizer.py.
-- What the network does at each redirect is a parameter.

pub mod Redirects
use sns_media_list.Errors.{
  AppError, Result, err, ok, app_error, unsafe_destination, upstream_media_invalid,
  extraction_failed,
}
use sns_media_list.Media.Headers.{
  header, set_header, parse_response_headers, normalize_response_headers,
}
use sns_media_list.Media.Policy.{
  Network, MediaDestinationPolicy, ValidatedMediaTarget, validate_url,
}
use sns_media_list.Models.{Headers}
use sns_media_list.Prelude.{
  ℕ, zero, suc, ◌+◌, ◌-◌, ◌/◌, ◌%◌, ◌⊎◌, inl, inr, Bool, true, false, ◌&&◌, ◌||◌, not, Option, none,
  some, List, [], ◌∷◌, ◌++◌, length, any, all, min, if◌then◌else◌, leb, ltb, ◌==◌,
}
use sns_media_list.Text.{Text, codes, text_eq, one_of}

-- The exceptions other than `AppError` that the code tells apart.
pub data Failure : Type 0 where
  timeout_error os_error runtime_error incomplete_read limit_overrun encode_error : Failure

-- How an awaited operation fails: `_await_bounded` gives it up, or it raises.
pub data Interruption : Type 0 where
  bounded_timeout : Interruption
  fails : Failure → Interruption

pub data Raised : Type 0 where
  app : AppError → Raised
  other : Failure → Raised

pub record MediaResponse : Type 0 where
  pub status_code : ℕ
  pub headers : Headers

-- What happens on the way to one target, by the time that each operation is given, and what the
-- clock reads before each: `validated` interrupts the policy, `head` is what comes before the body.
pub record Hop : Type 0 where
  pub network : Network
  pub validated : ℕ → Option Interruption
  pub connected : ℕ → Option Interruption
  pub drained : ℕ → Option Interruption
  pub head : ℕ → Interruption ⊎ Text
  pub before_validate : ℕ
  pub before_connect : ℕ
  pub before_drain : ℕ
  pub before_head : ℕ
  pub before_return : ℕ

pub record MediaClient : Type 0 where
  pub policy : MediaDestinationPolicy
  pub max_redirects : ℕ
  pub connect_timeout : ℕ
  pub read_timeout : ℕ
  pub total_timeout : Option ℕ

abbrev pub media_error : AppError
media_error = app_error upstream_media_invalid "The upstream media request failed."

abbrev pub media_timed_out : AppError
media_timed_out = app_error upstream_media_invalid "The upstream media request timed out."

abbrev pub head_error : AppError
head_error = app_error upstream_media_invalid "The upstream media headers were invalid."

abbrev pub too_many_redirects : AppError
too_many_redirects = app_error unsafe_destination "The media response redirected too many times."

-- MediaClient._remaining_timeout
unfoldable pub remaining_timeout : Option ℕ → ℕ → ℕ → Result ℕ
remaining_timeout none maximum now = ok maximum
remaining_timeout (some deadline) maximum now =
    if leb deadline now then err media_timed_out else ok (min maximum (deadline - now))

-- normalize_request_headers
unfoldable pub normalize_request_headers : Headers → Result Headers
unfolding one_of text_eq
normalize_request_headers [] = ok []
normalize_request_headers ((name, value) ∷ hs) =
    let rest = normalize_request_headers hs in
    if not (one_of (codes "User-Agent" ∷ codes "Referer" ∷ []) name)
      || any (λ c. c == 0x0d || c == 0x0a) value
    then err (app_error extraction_failed "The extractor returned unsafe request headers.")
    else elim rest [ err e ↦ err e | ok more ↦ ok ((name, value) ∷ more) ]

-- The except clauses of `_validate_target`, and those of `fetch` around `_fetch_target`.
abbrev pub as_media_error : Failure → Raised
as_media_error timeout_error = app media_error
as_media_error os_error = app media_error
as_media_error runtime_error = app media_error
as_media_error incomplete_read = other incomplete_read
as_media_error limit_overrun = other limit_overrun
as_media_error encode_error = other encode_error

-- MediaClient._validate_target
unfoldable pub validate_target : MediaClient → Option ℕ → Hop → Text → Raised ⊎ ValidatedMediaTarget
unfolding remaining_timeout
validate_target client deadline hop url =
    elim (remaining_timeout deadline (client.read_timeout) (hop.before_validate)) [
      | err e ↦ inl (app e)
      | ok timeout ↦ elim (hop.validated timeout) [
        | some bounded_timeout ↦ inl (app media_timed_out)
        | some (fails f) ↦ inl (as_media_error f)
        | none ↦ elim (validate_url (hop.network) (client.policy) url) [
          | err e ↦ inl (app e)
          | ok target ↦ inr target
        ]
      ]
    ]

-- The lines of the request, each ended, and the empty line.
abbrev pub crlf : Text
crlf = 0x0d ∷ 0x0a ∷ []

unfoldable pub header_text : Headers → Text
header_text [] = crlf
header_text ((name, value) ∷ hs) = name ++ codes ": " ++ value ++ crlf ++ header_text hs

unfoldable pub request_text : ValidatedMediaTarget → Headers → Text
unfolding header_text
request_text target headers =
    let query = if text_eq (target.query) [] then [] else b'?' ∷ target.query in
    codes "GET "
    ++ target.path
    ++ query
    ++ codes " HTTP/1.1"
    ++ crlf
    ++ codes "Host: "
    ++ target.hostname
    ++ crlf
    ++ codes "Connection: close"
    ++ crlf
    ++ header_text headers

-- What `_fetch_target` leaves: whether a connection was opened, whether its writer was closed
-- again, what was written to it, and the response or what is raised.
pub record Exchange : Type 0 where
  pub opened : Bool
  pub closed : Bool
  pub written : Text
  pub outcome : Raised ⊎ MediaResponse

abbrev pub not_opened : Raised → Exchange
not_opened r = record { opened = false; closed = false; written = []; outcome = inl r }

abbrev pub closes : Text → Raised → Exchange
closes written r = record { opened = true; closed = true; written = written; outcome = inl r }

-- The except clauses around `writer.drain`, and those around the head of the response.
abbrev pub drain_error : Failure → Raised
drain_error timeout_error = app media_error
drain_error os_error = app media_error
drain_error runtime_error = app media_error
drain_error incomplete_read = other incomplete_read
drain_error limit_overrun = other limit_overrun
drain_error encode_error = other encode_error

abbrev pub receive_error : Failure → Raised
receive_error timeout_error = app head_error
receive_error os_error = app head_error
receive_error runtime_error = app head_error
receive_error incomplete_read = app head_error
receive_error limit_overrun = app head_error
receive_error encode_error = other encode_error

-- `MediaResponse(…)`, which normalizes the headers once more
abbrev pub responds : Text → ℕ → Result Headers → Exchange
responds written status_code (err e) = record {
  opened = true;
  closed = false;
  written = written;
  outcome = inl (app e);
}
responds written status_code (ok headers) = record {
  opened = true;
  closed = false;
  written = written;
  outcome = inr (record { status_code = status_code; headers = headers });
}

-- _fetch_target, from the response's head on: the head is awaited and parsed
unfoldable pub receive : MediaClient → Option ℕ → Hop → Text → Exchange
unfolding remaining_timeout
receive client deadline hop written =
    elim (remaining_timeout deadline (client.read_timeout) (hop.before_head)) [
      | err e ↦ closes written (app e)
      | ok timeout ↦ elim (hop.head timeout) [
        | inl bounded_timeout ↦ closes written (app media_timed_out)
        | inl (fails f) ↦ closes written (receive_error f)
        | inr raw_headers ↦ elim (parse_response_headers raw_headers) [
          | err e ↦ closes written (app e)
          | ok (status_code, headers) ↦
              elim (remaining_timeout deadline (client.read_timeout) (hop.before_return)) [
                | err e ↦ closes written (app e)
                | ok _ ↦ responds written status_code (normalize_response_headers headers)
              ]
        ]
      ]
    ]

-- MediaClient._fetch_target
unfoldable pub fetch_target :
    MediaClient → Option ℕ → Hop → ValidatedMediaTarget → Headers → Exchange
unfolding remaining_timeout receive request_text
fetch_target client deadline hop target headers =
    elim (remaining_timeout deadline (client.connect_timeout) (hop.before_connect)) [
      | err e ↦ not_opened (app e)
      | ok timeout ↦ elim (hop.connected timeout) [
        | some bounded_timeout ↦ not_opened (app media_timed_out)
        | some (fails timeout_error) ↦ not_opened (app media_error)
        | some (fails f) ↦ not_opened (other f)
        | none ↦
            let request = request_text target headers in
            if any (λ c. ltb 0x7f c) request
            then closes [] (other encode_error)
            else elim (remaining_timeout deadline (client.connect_timeout) (hop.before_drain)) [
              | err e ↦ closes request (app e)
              | ok write_timeout ↦ elim (hop.drained write_timeout) [
                | some bounded_timeout ↦ closes request (app media_timed_out)
                | some (fails f) ↦ closes request (drain_error f)
                | none ↦ receive client deadline hop request
              ]
            ]
      ]
    ]

-- status_code in {301, 302, 303, 307, 308}
abbrev pub is_redirect : ℕ → Bool
is_redirect n = n == 301 || n == 302 || n == 303 || n == 307 || n == 308

-- The targets connected to, with the number of redirects before each, and what is returned.
abbrev pub Fetched : Type 0
Fetched = List (ℕ × ValidatedMediaTarget) × (Raised ⊎ MediaResponse)

abbrev pub visits : ℕ × ValidatedMediaTarget → Fetched → Fetched
visits v (targets, outcome) = (v ∷ targets, outcome)

abbrev pub raise_outer : Raised → Raised
raise_outer (app e) = app e
raise_outer (other f) = as_media_error f

-- The loop of `fetch`: `left` rounds from redirect `redirect_count` on. `hops` is what happens on
-- the way to each target, `urljoin` the URL library's.
unfoldable pub fetch_loop :
    MediaClient → Option ℕ → (ℕ → Hop) → (Text → Text → Text) → Headers → ℕ → ℕ → Text → Fetched
unfolding validate_target fetch_target
fetch_loop client deadline hops urljoin headers zero redirect_count url =
    ([], inl (app too_many_redirects))
fetch_loop client deadline hops urljoin headers (suc left) redirect_count url =
    elim (validate_target client deadline (hops redirect_count) url) [
      | inl r ↦ ([], inl r)
      | inr target ↦
          elim ((fetch_target client deadline (hops redirect_count) target headers).outcome) [
            | inl r ↦ ((redirect_count, target) ∷ [], inl (raise_outer r))
            | inr response ↦
                if not (is_redirect (response.status_code))
                then ((redirect_count, target) ∷ [], inr response)
                else elim (header (codes "location") (response.headers)) [
                  | none ↦ ((redirect_count, target) ∷ [], inl (app too_many_redirects))
                  | some location ↦
                      let rest =
                        fetch_loop client deadline hops urljoin headers left (redirect_count + 1)
                          (urljoin url location) in
                      if text_eq location [] || leb (client.max_redirects) redirect_count
                      then ((redirect_count, target) ∷ [], inl (app too_many_redirects))
                      else visits (redirect_count, target) rest
                ]
          ]
    ]

-- str(n)
unfoldable pub digits : ℕ → ℕ → Text
digits zero n = []
digits (suc fuel) n =
    let more = digits fuel (n / 10) in
    if ltb n 10 then (0x30 + n) ∷ [] else more ++ ((0x30 + n % 10) ∷ [])

-- {**request_headers, "Range": f"bytes={range_start}-"}
unfoldable pub with_range : Option ℕ → Headers → Headers
unfolding digits set_header
with_range none headers = headers
with_range (some start) headers =
    set_header (codes "Range") (codes "bytes=" ++ digits (suc start) start ++ codes "-") headers

-- MediaClient.fetch at `now`, with an offset that is not negative where there is one
unfoldable pub fetch :
    MediaClient → (ℕ → Hop) → (Text → Text → Text) → ℕ → Headers → Option ℕ → Text → Fetched
unfolding normalize_request_headers fetch_loop with_range
fetch client hops urljoin now headers range_start url = elim (normalize_request_headers headers) [
  | err e ↦ ([], inl (app e))
  | ok request_headers ↦
      fetch_loop client (deadline (client.total_timeout)) hops urljoin
        (with_range range_start request_headers) (client.max_redirects + 1) 0 url
]
  where
    deadline : Option ℕ → Option ℕ
    deadline none = none
    deadline (some total) = some (now + total)
