-- ===== src/Routes/Download.antt =====
-- src/sns_media_list/api/routes.py: `_stream_media`, which streams a media and resumes a download
-- that is truncated, once.
pub mod Loop
pub mod Passes
pub mod Resumes
pub mod Totals
pub mod Whole
pub mod Bodies
pub mod Sends
pub mod Attempts
pub mod Releases
pub mod Outcomes
use sns_media_list.Errors.{AppError, Result, err, ok, app_error, upstream_media_invalid}
use sns_media_list.Media.Body.{
  Ending, finished, raised, truncated, Body, content_length, body_truncated,
}
use sns_media_list.Media.Chunks.Loop.{iter_bytes}
use sns_media_list.Media.Fetch.{MediaResponse}
use sns_media_list.Media.Forward.{iter_validated_body, build_forward_response_headers}
use sns_media_list.Media.Headers.{header}
use sns_media_list.Media.Policy.{or_empty}
use sns_media_list.Media.Resume.{parsed, invalid, value_error, validate_resume_response}
use sns_media_list.Media.Stream.{Stream}
use sns_media_list.Models.{PrivateMediaRecord, MediaType, video, image, Headers}
use sns_media_list.Prelude.{
  ℕ, zero, suc, ◌+◌, ◌-◌, ◌++◌, Bool, true, false, ◌&&◌, not, Option, none, some, List, [], ◌∷◌,
  length, ltb, ◌==◌, if◌then◌else◌, ◌⊎◌, inl, inr,
}
use sns_media_list.Routes.Cleanup.{Cleanup, close_response_once, cleanup, cleanup_failed_response}
use sns_media_list.Routes.Reasons.{
  DownloadError, app, media_truncated, cancelled, client_disconnected, unexpected, ReasonCode,
  download_reason_code,
}
use sns_media_list.Text.{Text, codes}

-- A response, the size limit that the client gave it, and its connection.
pub record Upstream : Type 0 where
  pub response : MediaResponse
  pub max_bytes : ℕ
  pub stream : Stream

-- The chunk size of `iter_bytes`.
abbrev pub default_chunk_size : ℕ
default_chunk_size = 65_536

-- The chunk size with which `iter_validated_body` calls `iter_bytes`.
abbrev pub chunk_size_of : Bool → ℕ
chunk_size_of preview = if preview then 512 else default_chunk_size

-- iter_validated_body of the response
unfoldable pub validated_body : Upstream → Bool → MediaType → Option ℕ → Option Body
unfolding iter_bytes iter_validated_body
validated_body upstream preview media_class max_bytes =
    elim (iter_bytes (upstream.response.headers) (upstream.max_bytes) (chunk_size_of preview)
      max_bytes (upstream.stream)) [
        | none ↦ none
        | some body ↦ some (iter_validated_body (upstream.response) preview (some media_class) body)
      ]

-- Why the loop over the chunks of an iterator stops: the chunks are used up, a
-- `MediaTruncatedError` of the iterator, another exception where a chunk is awaited, or one where a
-- chunk is yielded.
pub data Stop : Type 0 where
  at_end : Stop
  at_truncation : AppError → Stop
  at_await at_yield : DownloadError → Stop

abbrev pub stop_of : Ending → Stop
stop_of finished = at_end
stop_of (raised e) = at_await (app e)
stop_of (truncated e) = at_truncation e

-- What is yielded of an iterator, `bytes_streamed` then, how many awaits and yields there were, and
-- why the loop stops.
pub record Pass : Type 0 where
  pub sent : List Text
  pub bytes_streamed : ℕ
  pub waits : ℕ
  pub stop : Stop

abbrev pub sends : Text → Pass → Pass
sends chunk p = record p { sent = chunk ∷ p.sent }

pub data ResumeEvent : Type 0 where
  resume_attempted resume_succeeded : ResumeEvent
  resume_failed : ReasonCode → ResumeEvent

-- What the `try` block of `body` yields and raises, and what it leaves.
pub record Streamed : Type 0 where
  pub sent : List Text
  pub bytes_streamed : ℕ
  pub events : List ResumeEvent
  pub state : Cleanup
  pub error : Option DownloadError

abbrev pub empty_body_error : AppError
empty_body_error = app_error upstream_media_invalid "The upstream media body was empty."

abbrev pub oversized_error : AppError
oversized_error = app_error upstream_media_invalid "The resumed media body is invalid."

abbrev pub failed : DownloadError → List ResumeEvent
failed e = resume_failed (download_reason_code e) ∷ []

-- The event of an exception where a chunk is awaited.
abbrev pub await_events : Bool → DownloadError → List ResumeEvent
await_events resumed cancelled = []
await_events resumed client_disconnected = []
await_events resumed e = if resumed then failed e else []

-- The checks after the loop: the events, and what they raise.
unfoldable pub check_total : Bool → Option ℕ → ℕ → List ResumeEvent × Option DownloadError
unfolding download_reason_code
check_total true (some total) bytes_streamed =
    if ltb bytes_streamed total
    then (failed (media_truncated body_truncated), some (media_truncated body_truncated))
    else if ltb total bytes_streamed
    then (failed (app oversized_error), some (app oversized_error))
    else (resume_succeeded ∷ [], none)
check_total resumed total bytes_streamed = ([], none)

abbrev pub last_error : List DownloadError → Option DownloadError
last_error [] = none
last_error (e ∷ []) = some e
last_error (_ ∷ e ∷ es) = last_error (e ∷ es)

abbrev pub is_cancelled : Option DownloadError → Bool
is_cancelled (some cancelled) = true
is_cancelled _ = false

-- What was yielded and logged before.
abbrev pub after_pass : List Text → List ResumeEvent → Option Streamed → Option Streamed
after_pass sent events none = none
after_pass sent events (some more) =
    some (record more { sent = sent ++ more.sent; events = events ++ more.events })

-- `interrupts` gives what is raised at an await or a yield, by the number of those before it.
module _ (interrupts : ℕ → Option DownloadError) where
  -- The inner loop, over the chunks of an iterator.
  unfoldable pub pass : ℕ → ℕ → List Text → Ending → Pass
  pass waits bytes_streamed [] ending = record {
    sent = [];
    bytes_streamed = bytes_streamed;
    waits = suc waits;
    stop = elim (interrupts waits) [ some e ↦ at_await e | none ↦ stop_of ending ];
  }
  pass waits bytes_streamed (chunk ∷ chunks) ending =
      let more = pass (suc (suc waits)) (bytes_streamed + length chunk) chunks ending in
      elim (interrupts waits) [
        | some e ↦ record {
          sent = [];
          bytes_streamed = bytes_streamed;
          waits = suc waits;
          stop = at_await e;
        }
        | none ↦ elim (interrupts (suc waits)) [
          | some e ↦ record {
            sent = chunk ∷ [];
            bytes_streamed = bytes_streamed;
            waits = suc (suc waits);
            stop = at_yield e;
          }
          | none ↦ sends chunk more
        ]
      ]
