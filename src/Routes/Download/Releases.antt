-- ===== src/Routes/Download/Releases.antt =====
-- src/sns_media_list/api/routes.py: the responses that a stream closes, and its lease.
use sns_media_list.Media.Body.{Ending}
use sns_media_list.Media.Fetch.{MediaResponse}
use sns_media_list.Media.Headers.{header}
use sns_media_list.Media.Policy.{or_empty}
use sns_media_list.Media.Resume.{validate_resume_response, Parsed-cases}
use sns_media_list.Models.{video}
use sns_media_list.Prelude.{
  ℕ, zero, suc, ◌-◌, ◌≡◌, ◌≤◌, ◌++◌, refl, inl, inr, ◌⊎◌, Bool, true, false, Option, some, List, [],
  ◌∷◌, arith, ap, subst, Option-cases, Bool-cases, Either-cases, ◌+◌, if◌then◌else◌,
}
use sns_media_list.Routes.Cleanup.{Cleanup, cleanup, error_list}
use sns_media_list.Routes.Download.{
  Streamed, Pass, pass, ResumeEvent, is_cancelled, last_error, failed, await_events, check_total,
  after_pass,
}
use sns_media_list.Routes.Download.Loop.{
  Session, Resumption, resume, resumable, body_loop, first_id, resumed_id,
}
use sns_media_list.Routes.Download.Attempts.{
  attempts, attempts-append, failed_attempts, await_attempts, check_attempts,
}
use sns_media_list.Routes.Download.Bodies.{validated_body_total}
use sns_media_list.Routes.Download.Passes.{Stop-cases}
use sns_media_list.Routes.Download.Resumes.{resume-cases, resumable_fresh}
use sns_media_list.Routes.Download.Totals.{rounds}
use sns_media_list.Routes.Reasons.{DownloadError, media_truncated}
use sns_media_list.Text.{Text, codes}

abbrev pub first_ids : List ℕ
first_ids = first_id ∷ []

abbrev pub both_ids : List ℕ
both_ids = first_id ∷ resumed_id ∷ []

-- The state before the cleanup, with the responses that are open and those that are closed.
abbrev pub held : List ℕ → List ℕ → List DownloadError → Cleanup
held opened closed errors = record {
  open_responses = opened;
  closed_response_ids = closed;
  cleanup_errors = errors;
  cleaned = false;
  releases = 0;
}

pub data AreHeld : Bool → Cleanup → Type 0 where
  starts : AreHeld false (held first_ids [] [])
  closes : (errors : List DownloadError) → AreHeld true (held first_ids first_ids errors)
  resumes : (errors : List DownloadError) → AreHeld true (held both_ids first_ids errors)

-- Each response is closed once, in the order in which they were opened, and the lease is released
-- once.
pub record IsClean (s : Cleanup) : Type 0 where
  pub closed : s.closed_response_ids ≡ s.open_responses
  pub few : (s.open_responses ≡ []) ⊎ (s.open_responses ≡ first_ids) ⊎ (s.open_responses ≡ both_ids)
  pub released : s.releases ≡ 1

pub cleanup-IsClean :
    (close_error : ℕ → Option DownloadError) (release_error : Option DownloadError) (resumed : Bool)
    (s : Cleanup)
    → AreHeld resumed s
    → IsClean ((cleanup close_error release_error s).1)
unfolding cleanup
cleanup-IsClean close_error release_error _ _ starts = record {
  closed = refl;
  few = inr (inl refl);
  released = refl;
}
cleanup-IsClean close_error release_error _ _ (closes errors) = record {
  closed = refl;
  few = inr (inl refl);
  released = refl;
}
cleanup-IsClean close_error release_error _ _ (resumes errors) = record {
  closed = refl;
  few = inr (inr refl);
  released = refl;
}

abbrev IsOnce : Resumption → Type 0
IsOnce r = AreHeld true (r.state) × (attempts (r.events) ≤ 1)

resume-IsOnce :
    (ses : Session) (response : MediaResponse) (total_length : Option ℕ) (offset total : ℕ)
    (s : Cleanup)
    → AreHeld false s
    → IsOnce (resume ses response total_length offset total s)
unfolding resume
resume-IsOnce ses response total_length offset total _ starts =
    let errors = error_list ((ses.close_error) first_id) in
    elim (Bool-cases (is_cancelled (last_error errors))) [
      | inl stops ↦ rw (stops, resume) (closes errors, omega arith)
      | inr cleared ↦ elim (Either-cases ((ses.fetch_from) offset)) [
        | inl (e, fails) ↦ rw (cleared, fails, resume) (closes errors, omega arith)
        | inr (upstream, fetched) ↦
            elim (Parsed-cases (
              validate_resume_response (upstream.response) (upstream.max_bytes) offset total
                (or_empty (header (codes "content-type") (response.headers))))) [
                  | inl (range, accepted) ↦
                      rw (cleared, fetched, accepted, resume) (resumes errors, omega arith)
                  | inr (inl (e, refused)) ↦
                      rw (cleared, fetched, refused, resume) (resumes errors, omega arith)
                  | inr (inr refused) ↦
                      rw (cleared, fetched, refused, resume) (resumes errors, omega arith)
                ]
      ]
    ]

-- A stream that ends before its cleanup.
pub record IsKept (resumed : Bool) (o : Option Streamed) : Type 0 where
  pub streamed : Streamed
  pub is : o ≡ some streamed
  pub keeps : (b : Bool) × AreHeld b (streamed.state)
  pub once : attempts (streamed.events) ≤ (if resumed then 0 else 1)

pub IsKept-after_pass :
    (resumed later : Bool) (sent : List Text) (events : List ResumeEvent) (o : Option Streamed)
    → attempts events + (if later then 0 else 1) ≤ (if resumed then 0 else 1)
    → IsKept later o
    → IsKept resumed (after_pass sent events o)
IsKept-after_pass resumed later sent events o h k =
    let t = k.streamed in
    record {
      streamed = record t { sent = sent ++ t.sent; events = events ++ t.events };
      is = ap (after_pass sent events) (k.is);
      keeps = k.keeps;
      once = omega (arith, h, k.once, attempts-append events (t.events));
    }

module _ (ses : Session) (response : MediaResponse) (total_length : Option ℕ) where
  stops-IsKept :
      (resumed kept : Bool) (p : Pass) (s : Cleanup) (events : List ResumeEvent)
      (error : Option DownloadError)
      → AreHeld kept s
      → attempts events ≤ (if resumed then 0 else 1)
      → IsKept resumed (
          some (record {
            sent = p.sent;
            bytes_streamed = p.bytes_streamed;
            events = events;
            state = s;
            error = error;
          }))
  stops-IsKept resumed kept p s events error h a = record {
    streamed = record {
      sent = p.sent;
      bytes_streamed = p.bytes_streamed;
      events = events;
      state = s;
      error = error;
    };
    is = refl;
    keeps = (kept, h);
    once = a;
  }

  pub body_loop-IsKept :
      (fuel : ℕ) (resumed : Bool) (waits n : ℕ) (chunks : List Text) (ending : Ending) (s : Cleanup)
      → rounds resumed ≤ fuel
      → AreHeld resumed s
      → IsKept resumed (body_loop ses response total_length fuel resumed waits n chunks ending s)
  unfolding body_loop
  body_loop-IsKept zero false waits n chunks ending s f h = absurd (omega arith)
  body_loop-IsKept zero true waits n chunks ending s f h = absurd (omega arith)
  body_loop-IsKept (suc fuel) resumed waits n chunks ending s f h =
      let p = pass (ses.interrupts) waits n chunks ending in
      elim (Stop-cases (p.stop)) [
        | inl ended ↦
            let checked = check_total resumed total_length (p.bytes_streamed) in
            rw (ended, body_loop)
              (stops-IsKept resumed resumed p s (checked.0) (checked.1) h
                (omega (arith, check_attempts resumed total_length (p.bytes_streamed))))
        | inr (inl (g, raises)) ↦
            rw (raises, body_loop)
              (stops-IsKept resumed resumed p s (await_events resumed g) (some g) h
                (omega (arith, await_attempts resumed g)))
        | inr (inr (inl (g, raises))) ↦
            rw (raises, body_loop) (stops-IsKept resumed resumed p s [] (some g) h (omega arith))
        | inr (inr (inr (g, cut))) ↦
            elim (Option-cases (resumable ses response total_length resumed (p.bytes_streamed))) [
              | inl final ↦
                  rw (cut, final, body_loop)
                    (stops-IsKept resumed resumed p s
                      (if resumed then failed (media_truncated g) else [])
                      (some (media_truncated g)) h
                      (omega (arith, failed_attempts resumed (media_truncated g))))
              | inr (total, again) ↦
                  let fresh =
                    resumable_fresh ses response total_length resumed (p.bytes_streamed) total
                      again in
                  let r = resume ses response total_length (p.bytes_streamed) total s in
                  let (kept, once) =
                    resume-IsOnce ses response total_length (p.bytes_streamed) total s
                      (subst (λ (x : Bool). AreHeld x s) fresh h) in
                  let allowed : attempts (r.events) ≤ (if resumed then 0 else 1) = rw fresh once in
                  elim (resume-cases ses response total_length (p.bytes_streamed) total s) [
                    | inl (g2, stops) ↦
                        rw (cut, again, stops, body_loop)
                          (stops-IsKept resumed true p (r.state) (r.events) (some g2) kept allowed)
                    | inr on ↦
                        let (more, is) =
                          validated_body_total (on.upstream) false video
                            (some (total - p.bytes_streamed)) in
                        let goes : r.outcome ≡ inr (some more) = rw is at (on.goes_on) in
                        let left : rounds false ≤ suc fuel =
                          subst (λ (x : Bool). rounds x ≤ suc fuel) fresh f in
                        rw (cut, again, goes, body_loop)
                          (IsKept-after_pass resumed true (p.sent) (r.events) _ (omega arith) (
                            body_loop-IsKept fuel true (p.waits) (p.bytes_streamed) (more.0)
                              (more.1) (r.state) (omega arith) kept))
                  ]
            ]
      ]
