-- ===== src/Routes/Download/Resumes.antt =====
-- src/sns_media_list/api/routes.py: what resuming a download gives, and when it is tried.
use sns_media_list.Media.Fetch.{MediaResponse}
use sns_media_list.Media.Headers.{header}
use sns_media_list.Media.Policy.{or_empty}
use sns_media_list.Media.Resume.{ParsedContentRange, parsed, validate_resume_response, Parsed-cases}
use sns_media_list.Models.{video}
use sns_media_list.Prelude.{
  Bool, arith, ℕ, ◌-◌, ◌≡◌, ◌⊎◌, inl, inr, refl, false, Option, some, Bool-cases, Either-cases,
}
use sns_media_list.Routes.Cleanup.{Cleanup, close_response_once}
use sns_media_list.Routes.Download.{Upstream, validated_body, last_error, is_cancelled}
use sns_media_list.Routes.Download.Loop.{resumable, Session, Resumption, resume, first_id}
use sns_media_list.Routes.Reasons.{DownloadError, app, cancelled, unexpected}
use sns_media_list.Text.{codes}

module _ (ses : Session) (response : MediaResponse) (total_length : Option ℕ) where
  -- The response that a download goes on with.
  pub record IsResumed (offset total : ℕ) (r : Resumption) : Type 0 where
    pub upstream : Upstream
    pub range : ParsedContentRange
    pub fetched : (ses.fetch_from) offset ≡ inr upstream
    pub accepted :
        validate_resume_response
          (upstream.response)
          (upstream.max_bytes)
          offset
          total
          (or_empty (header (codes "content-type") (response.headers)))
        ≡ parsed range
    pub goes_on : r.outcome ≡ inr (validated_body upstream false video (some (total - offset)))

  pub resume-cases :
      (offset total : ℕ) (s : Cleanup)
      → ((e : DownloadError) × ((resume ses response total_length offset total s).outcome ≡ inl e))
        ⊎ IsResumed offset total (resume ses response total_length offset total s)
  unfolding resume
  resume-cases offset total s =
      let closed = close_response_once (ses.close_error) (ses.release_error) first_id s in
      elim (Bool-cases (is_cancelled (last_error (closed.cleanup_errors)))) [
        | inl stops ↦ inl (cancelled, rw (stops, resume) refl)
        | inr cleared ↦ elim (Either-cases ((ses.fetch_from) offset)) [
          | inl (e, fails) ↦ inl (e, rw (cleared, fails, resume) refl)
          | inr (upstream, fetched) ↦
              elim (Parsed-cases (
                validate_resume_response (upstream.response) (upstream.max_bytes) offset total
                  (or_empty (header (codes "content-type") (response.headers))))) [
                    | inl (range, accepted) ↦ inr (record {
                      upstream = upstream;
                      range = range;
                      fetched = fetched;
                      accepted = accepted;
                      goes_on = rw (cleared, fetched, accepted, resume) refl;
                    })
                    | inr (inl (e, refused)) ↦
                        inl (app e, rw (cleared, fetched, refused, resume) refl)
                    | inr (inr refused) ↦
                        inl (unexpected, rw (cleared, fetched, refused, resume) refl)
                  ]
        ]
      ]

  -- Only what was not resumed is.
  pub resumable_fresh :
      (resumed : Bool) (n total : ℕ)
      → resumable ses response total_length resumed n ≡ some total
      → resumed ≡ false
  unfolding resumable
  resumable_fresh resumed n total e = ground arith
