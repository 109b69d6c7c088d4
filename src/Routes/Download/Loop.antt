-- ===== src/Routes/Download/Loop.antt =====
-- src/sns_media_list/api/routes.py: the body of `_stream_media`, with the resumed download, and
-- `_stream_media` whole.
use sns_media_list.Errors.{err, ok}
use sns_media_list.Media.Body.{Ending, finished, raised, truncated, Body, content_length}
use sns_media_list.Media.Fetch.{MediaResponse}
use sns_media_list.Media.Forward.{build_forward_response_headers}
use sns_media_list.Media.Headers.{header}
use sns_media_list.Media.Policy.{or_empty}
use sns_media_list.Media.Resume.{parsed, invalid, value_error, validate_resume_response}
use sns_media_list.Models.{PrivateMediaRecord, video, image, Headers, instagram, x}
use sns_media_list.Prelude.{
  ℕ, zero, suc, ◌-◌, ◌++◌, Bool, true, false, ◌&&◌, not, Option, none, some, List, [], ◌∷◌, length,
  ltb, ◌==◌, if◌then◌else◌, ◌⊎◌, inl, inr,
}
use sns_media_list.Routes.Cleanup.{Cleanup, close_response_once, cleanup, cleanup_failed_response}
use sns_media_list.Routes.Download.{
  Upstream, validated_body, at_end, at_truncation, at_await, at_yield, pass, ResumeEvent,
  resume_attempted, Streamed, empty_body_error, failed, await_events, check_total, last_error,
  is_cancelled, after_pass,
}
use sns_media_list.Routes.Reasons.{DownloadError, app, media_truncated, cancelled, unexpected}
use sns_media_list.Text.{Text, codes}

-- What the attempt to resume logs and leaves; what it raises, or the body that goes on.
pub record Resumption : Type 0 where
  pub events : List ResumeEvent
  pub state : Cleanup
  pub outcome : DownloadError ⊎ Option Body

abbrev pub start_error : Ending → DownloadError
start_error finished = app empty_body_error
start_error (raised e) = app e
start_error (truncated e) = media_truncated e

abbrev is_resumable_media : PrivateMediaRecord → Bool
is_resumable_media media =
    elim (media.platform) [ instagram ↦ true | x ↦ true ]
    && elim (media.media_class) [ video ↦ true | image ↦ false ]

-- The ids of the responses, the first and the resumed one.
abbrev pub first_id : ℕ
first_id = 0

abbrev pub resumed_id : ℕ
resumed_id = 1

-- What a download meets: the media and whether it is a preview; what `MediaClient.fetch` gives for a
-- `range_start`; what closing a response raises, by its id, and releasing the lease; and what is
-- raised at an await or a yield, by the number of those before it: a deadline that has passed, a
-- cancellation, a client that went away.
pub record Session : Type 0 where
  pub media : PrivateMediaRecord
  pub preview : Bool
  pub fetch_from : ℕ → DownloadError ⊎ Upstream
  pub close_error : ℕ → Option DownloadError
  pub release_error : Option DownloadError
  pub interrupts : ℕ → Option DownloadError

module _ (ses : Session) where
  module _ (response : MediaResponse) (original_total_length : Option ℕ) where
    -- The length that a truncated download is resumed for, where it can be.
    unfoldable pub resumable : Bool → ℕ → Option ℕ
    resumable resumed bytes_streamed =
        if not (ses.preview)
          && not resumed
          && is_resumable_media (ses.media)
          && response.status_code == 200
        then elim original_total_length [
          | none ↦ none
          | some total ↦
              if ltb 0 bytes_streamed && ltb bytes_streamed total then some total else none
        ]
        else none

    unfoldable pub resume : ℕ → ℕ → Cleanup → Resumption
    unfolding validated_body close_response_once
    resume offset total s =
        let closed = close_response_once (ses.close_error) (ses.release_error) first_id s in
        let opened : Cleanup = record closed {
          open_responses = closed.open_responses ++ (resumed_id ∷ []);
        } in
        let stops : Cleanup → DownloadError → Resumption = λ state e. record {
          events = resume_attempted ∷ failed e;
          state = state;
          outcome = inl e;
        } in
        if is_cancelled (last_error (closed.cleanup_errors))
        then record { events = []; state = closed; outcome = inl cancelled }
        else elim ((ses.fetch_from) offset) [
          | inl e ↦ stops closed e
          | inr upstream ↦
              elim (validate_resume_response (upstream.response) (upstream.max_bytes) offset total
                (or_empty (header (codes "content-type") (response.headers)))) [
                  | invalid e ↦ stops opened (app e)
                  | value_error ↦ stops opened unexpected
                  | parsed _ ↦ record {
                    events = resume_attempted ∷ [];
                    state = opened;
                    outcome = inr (validated_body upstream false video (some (total - offset)));
                  }
                ]
        ]

    -- The loop of `body`, by passes over an iterator. None where the fuel is used up.
    unfoldable pub body_loop : ℕ → Bool → ℕ → ℕ → List Text → Ending → Cleanup → Option Streamed
    unfolding pass check_total resumable resume
    body_loop zero resumed waits bytes_streamed chunks ending s = none
    body_loop (suc fuel) resumed waits bytes_streamed chunks ending s =
        let p = pass (ses.interrupts) waits bytes_streamed chunks ending in
        let stopped : List ResumeEvent → Cleanup → Option DownloadError → Option Streamed =
          λ events state error. some (record {
            sent = p.sent;
            bytes_streamed = p.bytes_streamed;
            events = events;
            state = state;
            error = error;
          }) in
        elim (p.stop) [
          | at_end ↦
              let checked = check_total resumed original_total_length (p.bytes_streamed) in
              stopped (checked.0) s (checked.1)
          | at_await e ↦ stopped (await_events resumed e) s (some e)
          | at_yield e ↦ stopped [] s (some e)
          | at_truncation e ↦ elim (resumable resumed (p.bytes_streamed)) [
            | none ↦
                stopped (if resumed then failed (media_truncated e) else []) s
                  (some (media_truncated e))
            | some total ↦
                let r = resume (p.bytes_streamed) total s in
                elim (r.outcome) [
                  | inl f ↦ stopped (r.events) (r.state) (some f)
                  | inr none ↦ none
                  | inr (some (more, end)) ↦
                      after_pass (p.sent) (r.events)
                        (body_loop fuel true (p.waits) (p.bytes_streamed) more end (r.state))
                ]
          ]
        ]

    -- body, once the first chunk is there
    unfoldable pub body : Text → List Text → Ending → Cleanup → Option Streamed
    unfolding body_loop
    body first_chunk chunks ending s = elim ((ses.interrupts) 1) [
      | some e ↦ some (record {
        sent = first_chunk ∷ [];
        bytes_streamed = 0;
        events = [];
        state = s;
        error = some e;
      })
      | none ↦
          after_pass (first_chunk ∷ []) []
            (body_loop 2 false 2 (length first_chunk) chunks ending s)
    ]

  -- The `finally` block of `body`.
  abbrev pub finish : Streamed → Streamed
  finish t =
      let cleaned = cleanup (ses.close_error) (ses.release_error) (t.state) in
      record t { state = cleaned.1; error = elim (t.error) [ none ↦ cleaned.0 | some e ↦ some e ] }

  abbrev pub opened_with : List ℕ → Cleanup
  opened_with ids = record {
    open_responses = ids;
    closed_response_ids = [];
    cleanup_errors = [];
    cleaned = false;
    releases = 0;
  }

  abbrev pub refuse : Option ℕ → List ℕ → DownloadError → Option (Option Headers × Streamed)
  refuse closes ids e = some (
    none,
    record {
      sent = [];
      bytes_streamed = 0;
      events = [];
      state = cleanup_failed_response closes (opened_with ids);
      error = some e;
    },
  )

  -- `quote` is `urllib.parse.quote` with `safe=""`, and the last argument what the first fetch
  -- gives. The result is the headers of the response, where there is one, and its body.
  unfoldable pub stream_media :
      (Text → Text) → DownloadError ⊎ Upstream → Option (Option Headers × Streamed)
  unfolding body validated_body
  stream_media quote (inl e) = refuse none [] e
  stream_media quote (inr upstream) =
      let response = upstream.response in
      let refuses = refuse (some first_id) (first_id ∷ []) in
      elim (content_length (response.headers) (upstream.max_bytes)) [
        | err e ↦ refuses (app e)
        | ok original_total_length ↦
            elim (validated_body upstream (ses.preview) (ses.media.media_class) none) [
              | none ↦ none
              | some (chunks, ending) ↦ elim ((ses.interrupts) 0) [
                | some e ↦ refuses e
                | none ↦ elim chunks [
                  | [] ↦ refuses (start_error ending)
                  | first_chunk ∷ more ↦
                      elim (build_forward_response_headers quote response (upstream.max_bytes)
                        (ses.media.filename) (ses.preview)) [
                          | err e ↦ refuses (app e)
                          | ok headers ↦
                              elim (body response original_total_length first_chunk more ending
                                (opened_with (first_id ∷ []))) [
                                  | none ↦ none
                                  | some t ↦ some (some headers, finish t)
                                ]
                        ]
                ]
              ]
            ]
      ]
