-- ===== src/Routes/Download/Whole.antt =====
-- src/sns_media_list/api/routes.py: the body of a download, resumed or not.
use sns_media_list.Errors.{AppError}
use sns_media_list.Media.Body.{Ending, finished, Body, joined}
use sns_media_list.Media.Fetch.{MediaResponse}
use sns_media_list.Models.{video}
use sns_media_list.Prelude.{
  ℕ, zero, suc, ◌+◌, ◌-◌, ◌≡◌, ◌≤◌, inl, inr, refl, sym, Bool, true, false, some, List, [], ◌++◌,
  length, drop, arith, ap, subst, Option-cases, append_assoc, length-append, if◌then◌else◌,
}
use sns_media_list.Routes.Cleanup.{Cleanup}
use sns_media_list.Routes.Download.{
  Upstream, validated_body, Stop, at_end, at_truncation, Pass, pass, ResumeEvent, check_total,
  failed, await_events,
}
use sns_media_list.Routes.Download.Loop.{Session, resume, resumable, body_loop}
use sns_media_list.Routes.Download.Passes.{IsThrough, pass-IsPass, Stop-cases}
use sns_media_list.Routes.Download.Resumes.{resume-cases}
use sns_media_list.Routes.Reasons.{DownloadError, media_truncated}
use sns_media_list.Text.{Text}
use sns_media_list.Routes.Download.Totals.{
  HasSent, HasSent-after_pass, prefix_of, rest_whole, IsFull, rounds, check_total-IsSentOf,
}

end_count :
    (before : Text) (p : Pass) (n : ℕ) (chunks : List Text) (ending : Ending)
    → length before ≡ n
    → IsThrough n chunks ending p at_end
    → (ending ≡ finished)
      × (length (before ++ joined (p.sent)) ≡ p.bytes_streamed)
      × (p.bytes_streamed ≡ n + length (joined chunks))
end_count before p n chunks ending b (e, all, counted) = (
  e,
  omega (
    arith,
    b,
    counted,
    ap (λ (cs : List Text). length (joined cs)) all,
    length-append before (joined (p.sent)),
  ),
  counted,
)

cut_count :
    (before : Text) (p : Pass) (n : ℕ) (chunks : List Text) (ending : Ending) (g : AppError)
    → length before ≡ n
    → IsThrough n chunks ending p (at_truncation g)
    → length (before ++ joined (p.sent)) ≡ p.bytes_streamed
cut_count before p n chunks ending g b (e, all, counted) = omega (
  arith,
  b,
  counted,
  ap (λ (cs : List Text). length (joined cs)) all,
  length-append before (joined (p.sent)),
)

module _ (ses : Session) (response : MediaResponse) (file : Text)
    (total_body : (u : Upstream) (n : ℕ)
      → (b : Body) × (validated_body u false video (some n) ≡ some b))
    (resumes : (offset : ℕ) (u : Upstream) (b : Body)
      → (ses.fetch_from) offset ≡ inr u
      → validated_body u false video (some (length file - offset)) ≡ some b
      → (rest : Text) × (joined (b.0) ++ rest ≡ drop offset file)) where
  fails :
      (before : Text) (p : Pass) (s : Cleanup) (events : List ResumeEvent) (g : DownloadError)
      (rest : Text)
      → (before ++ joined (p.sent)) ++ rest ≡ file
      → HasSent file before (
          some (record {
            sent = p.sent;
            bytes_streamed = p.bytes_streamed;
            events = events;
            state = s;
            error = some g;
          }))
  fails before p s events g rest e = record {
    streamed = record {
      sent = p.sent;
      bytes_streamed = p.bytes_streamed;
      events = events;
      state = s;
      error = some g;
    };
    is = refl;
    holds = (rest, e);
  }

  pub resumable_total :
      (resumed : Bool) (n : ℕ) (total : ℕ)
      → resumable ses response (some (length file)) resumed n ≡ some total
      → (resumed ≡ false) × (total ≡ length file)
  unfolding resumable
  resumable_total resumed n total e = ground arith

  pub body_loop-HasSent :
      (fuel : ℕ) (resumed : Bool) (waits n : ℕ) (chunks : List Text) (ending : Ending) (s : Cleanup)
      (before unread : Text)
      → rounds resumed ≤ fuel
      → length before ≡ n
      → (before ++ joined chunks) ++ unread ≡ file
      → IsFull resumed ending (n + length (joined chunks)) (length file)
      → HasSent file before
          (body_loop ses response (some (length file)) fuel resumed waits n chunks ending s)
  unfolding body_loop
  body_loop-HasSent zero false waits n chunks ending s before unread f b e full =
      absurd (omega arith)
  body_loop-HasSent zero true waits n chunks ending s before unread f b e full =
      absurd (omega arith)
  body_loop-HasSent (suc fuel) resumed waits n chunks ending s before unread f b e full =
      let p = pass (ses.interrupts) waits n chunks ending in
      let h = pass-IsPass (ses.interrupts) waits n chunks ending in
      let sent = prefix_of before unread file (joined (p.sent)) (h.unsent) chunks e (h.prefix) in
      elim (Stop-cases (p.stop)) [
        | inl ended ↦
            let (fin, count, counted) =
              end_count before p n chunks ending b
                (subst (λ (st : Stop). IsThrough n chunks ending p st) ended (h.through)) in
            let filled : IsFull resumed finished (p.bytes_streamed) (length file) =
              subst (λ (m : ℕ). IsFull resumed finished m (length file)) (sym counted)
                (subst
                  (λ (en : Ending). IsFull resumed en (n + length (joined chunks)) (length file))
                  fin full) in
            let checked = check_total resumed (some (length file)) (p.bytes_streamed) in
            rw (ended, body_loop)
              (record {
                streamed = record {
                  sent = p.sent;
                  bytes_streamed = p.bytes_streamed;
                  events = checked.0;
                  state = s;
                  error = checked.1;
                };
                is = refl;
                holds =
                    check_total-IsSentOf resumed file (before ++ joined (p.sent))
                      (h.unsent ++ unread) (p.bytes_streamed) sent count filled;
              })
        | inr (inl (g, raises)) ↦
            rw (raises, body_loop)
              (fails before p s (await_events resumed g) g (h.unsent ++ unread) sent)
        | inr (inr (inl (g, raises))) ↦
            rw (raises, body_loop) (fails before p s ([]) g (h.unsent ++ unread) sent)
        | inr (inr (inr (g, cut))) ↦
            elim (Option-cases
              (resumable ses response (some (length file)) resumed (p.bytes_streamed))) [
                | inl final ↦
                    rw (cut, final, body_loop)
                      (fails before p s (if resumed then failed (media_truncated g) else [])
                        (media_truncated g) (h.unsent ++ unread) sent)
                | inr (total, again) ↦
                    let count =
                      cut_count before p n chunks ending g b
                        (subst (λ (st : Stop). IsThrough n chunks ending p st) cut (h.through)) in
                    let r = resume ses response (some (length file)) (p.bytes_streamed) total s in
                    let (fresh, same) = resumable_total resumed (p.bytes_streamed) total again in
                    elim (resume-cases ses response (some (length file)) (p.bytes_streamed) total
                      s) [
                        | inl (g2, stops) ↦
                            rw (cut, again, stops, body_loop)
                              (fails before p (r.state) (r.events) g2 (h.unsent ++ unread) sent)
                        | inr on ↦
                            let (more, is) = total_body (on.upstream) (total - p.bytes_streamed) in
                            let goes : r.outcome ≡ inr (some more) = rw is at (on.goes_on) in
                            let (rest, part) =
                              resumes (p.bytes_streamed) (on.upstream) more (on.fetched) (
                                subst
                                  (λ (m : ℕ).
                                    validated_body (on.upstream) false video
                                      (some (m - p.bytes_streamed))
                                    ≡ some more)
                                  same is) in
                            let joins : ((before ++ joined (p.sent)) ++ joined (more.0)) ++ rest
                                ≡ file =
                              rw
                                (
                                  append_assoc (before ++ joined (p.sent)) (joined (more.0)) rest,
                                  part,
                                )
                                (rest_whole (before ++ joined (p.sent)) (h.unsent ++ unread) file
                                  (p.bytes_streamed) sent count) in
                            let left : rounds false ≤ suc fuel =
                              subst (λ (x : Bool). rounds x ≤ suc fuel) fresh f in
                            rw (cut, again, goes, body_loop)
                              (HasSent-after_pass file before (p.sent) (r.events) _ (
                                body_loop-HasSent fuel true (p.waits) (p.bytes_streamed) (more.0)
                                  (more.1) (r.state) (before ++ joined (p.sent)) rest (omega arith)
                                  count joins tt))
                      ]
              ]
      ]
