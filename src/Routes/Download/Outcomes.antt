-- ===== src/Routes/Download/Outcomes.antt =====
-- src/sns_media_list/api/routes.py: what `_stream_media` leaves, however it ends.
use sns_media_list.Errors.{Result-cases}
use sns_media_list.Media.Body.{Ending, content_length}
use sns_media_list.Media.Fetch.{MediaResponse}
use sns_media_list.Media.Forward.{build_forward_response_headers}
use sns_media_list.Models.{Headers}
use sns_media_list.Prelude.{
  ℕ, ◌≡◌, ◌≤◌, refl, inl, inr, ◌⊎◌, false, Option, none, some, List, [], ◌∷◌, length, arith,
  Option-cases, List-cases,
}
use sns_media_list.Routes.Cleanup.{cleanup_failed_response}
use sns_media_list.Routes.Download.{Upstream, Streamed}
use sns_media_list.Routes.Download.Attempts.{attempts}
use sns_media_list.Routes.Download.Bodies.{validated_body_total}
use sns_media_list.Routes.Download.Loop.{
  Session, body, finish, stream_media, start_error, opened_with, first_id, refuse,
}
use sns_media_list.Routes.Download.Releases.{
  starts, IsClean, cleanup-IsClean, IsKept, IsKept-after_pass, body_loop-IsKept, first_ids,
}
use sns_media_list.Routes.Reasons.{DownloadError, app}
use sns_media_list.Text.{Text}

pub record IsReleased (o : Option (Option Headers × Streamed)) : Type 0 where
  pub headers : Option Headers
  pub streamed : Streamed
  pub is : o ≡ some (headers, streamed)
  pub clean : IsClean (streamed.state)
  pub once : attempts (streamed.events) ≤ 1

refuse-IsReleased :
    (ses : Session) (e : DownloadError) → IsReleased (refuse ses (some first_id) first_ids e)
unfolding cleanup_failed_response
refuse-IsReleased ses e = record {
  headers = none;
  streamed = _;
  is = refl;
  clean = record { closed = refl; few = inr (inl refl); released = refl };
  once = omega arith;
}

body-IsKept :
    (ses : Session) (response : MediaResponse) (total : Option ℕ) (first_chunk : Text)
    (more : List Text) (ending : Ending)
    → IsKept false (body ses response total first_chunk more ending (opened_with ses first_ids))
unfolding body
body-IsKept ses response total first_chunk more ending = elim (Option-cases ((ses.interrupts) 1)) [
  | inr (f, raises) ↦
      rw (raises, body)
        (record { streamed = _; is = refl; keeps = (false, starts); once = omega arith })
  | inl yielded ↦
      rw (yielded, body)
        (IsKept-after_pass false false (first_chunk ∷ []) [] _ (omega arith) (
          body_loop-IsKept ses response total 2 false 2 (length first_chunk) more ending
            (opened_with ses first_ids) (omega arith) starts))
]

-- Whatever is fetched, delivered, raised or interrupted, _stream_media ends; then each of the
-- responses that were opened, two at most, has been closed exactly once, in their order, the lease
-- has been released exactly once, and a resumption has been tried at most once.
pub stream_media-IsReleased :
    (ses : Session) (quote : Text → Text) (fetched : DownloadError ⊎ Upstream)
    → IsReleased (stream_media ses quote fetched)
unfolding stream_media cleanup_failed_response
stream_media-IsReleased ses quote (inl e) = record {
  headers = none;
  streamed = _;
  is = refl;
  clean = record { closed = refl; few = inl refl; released = refl };
  once = omega arith;
}
stream_media-IsReleased ses quote (inr u) =
    elim (Result-cases (content_length (u.response.headers) (u.max_bytes))) [
      | inl (e, fails) ↦ rw (fails, stream_media) (refuse-IsReleased ses (app e))
      | inr (total, known) ↦
          let ((chunks, ending), is) =
            validated_body_total u (ses.preview) (ses.media.media_class) none in
          elim (Option-cases ((ses.interrupts) 0)) [
            | inr (e, raises) ↦ rw (known, is, raises, stream_media) (refuse-IsReleased ses e)
            | inl waited ↦ elim (List-cases chunks) [
              | inl empty ↦
                  rw (known, is, waited, empty, stream_media)
                    (refuse-IsReleased ses (start_error ending))
              | inr (first_chunk, more, follows) ↦
                  elim (Result-cases (
                    build_forward_response_headers quote (u.response) (u.max_bytes)
                      (ses.media.filename) (ses.preview))) [
                        | inl (e, fails) ↦
                            rw (known, is, waited, follows, fails, stream_media)
                              (refuse-IsReleased ses (app e))
                        | inr (headers, built) ↦
                            let k = body-IsKept ses (u.response) total first_chunk more ending in
                            let (b, kept) = k.keeps in
                            rw (known, is, waited, follows, built, k.is, stream_media)
                              (record {
                                headers = some headers;
                                streamed = finish ses (k.streamed);
                                is = refl;
                                clean =
                                    cleanup-IsClean (ses.close_error) (ses.release_error) b
                                      (k.streamed.state) kept;
                                once = k.once;
                              })
                      ]
            ]
          ]
    ]
