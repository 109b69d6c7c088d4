-- ===== src/Routes/Download/Sends.antt =====
-- src/sns_media_list/api/routes.py: `_stream_media` of a download.
use sns_media_list.Errors.{ok, Result-cases}
use sns_media_list.Media.Body.{Ending, finished, raised, truncated, Body, joined, content_length}
use sns_media_list.Media.Body.Plain.{IsComplete}
use sns_media_list.Media.Forward.{build_forward_response_headers}
use sns_media_list.Media.Fetch.{MediaResponse}
use sns_media_list.Media.Headers.{has_chunked_transfer_encoding}
use sns_media_list.Models.{Headers, video}
use sns_media_list.Prelude.{
  ℕ, ◌-◌, ◌≡◌, ◌++◌, refl, sym, inl, inr, false, Option, none, some, List, [], ◌∷◌, length, drop,
  arith, ap, subst, Option-cases, List-cases, append_assoc, append_nil, length-append,
}
use sns_media_list.Routes.Cleanup.{Cleanup, cleanup}
use sns_media_list.Routes.Download.{Upstream, Streamed, validated_body}
use sns_media_list.Routes.Download.Bodies.{validated_body_total, validated_body-IsValidated}
use sns_media_list.Routes.Download.Loop.{
  Session, refuse, body, body_loop, finish, stream_media, start_error, opened_with, first_id,
}
use sns_media_list.Routes.Download.Totals.{IsSentOf, HasSent, HasSent-after_pass, IsFull}
use sns_media_list.Routes.Download.Whole.{body_loop-HasSent}
use sns_media_list.Routes.Reasons.{DownloadError, app}
use sns_media_list.Text.{Text}

-- What `_stream_media` answers, by what it has sent.
pub record IsStreamed (file : Text) (o : Option (Option Headers × Streamed)) : Type 0 where
  pub headers : Option Headers
  pub streamed : Streamed
  pub is : o ≡ some (headers, streamed)
  pub holds : IsSentOf file (streamed.error) (joined (streamed.sent))

IsFull-IsComplete :
    (ending : Ending) (count total delivered : ℕ)
    → IsComplete ending (some total) count delivered
    → IsFull false ending count total
IsFull-IsComplete finished count total delivered c = c
IsFull-IsComplete (raised e) count total delivered c = tt
IsFull-IsComplete (truncated e) count total delivered c = tt

whole_sent : (file sent : Text) (e : Option DownloadError) → sent ≡ file → IsSentOf file e sent
whole_sent file sent none h = h
whole_sent file sent (some f) h = ([], rw (append_nil sent) h)

finish_sent :
    (ses : Session) (file : Text) (t : Streamed) (e : Option DownloadError)
    → t.error ≡ e
    → IsSentOf file e (joined (t.sent))
    → IsSentOf file ((finish ses t).error) (joined (t.sent))
finish_sent ses file t none e h = rw e (
    whole_sent file (joined (t.sent)) ((cleanup (ses.close_error) (ses.release_error) (t.state)).0)
      h)
finish_sent ses file t (some f) e h = rw e h

refused :
    (ses : Session) (file : Text) (e : DownloadError)
    → IsStreamed file (refuse ses (some first_id) (first_id ∷ []) e)
refused ses file e = record { headers = none; streamed = _; is = refl; holds = (file, refl) }

body-HasSent :
    (ses : Session) (response : MediaResponse) (file first_chunk : Text) (more : List Text)
    (ending : Ending) (s : Cleanup) (unread : Text)
    → ((offset : ℕ) (v : Upstream) (b : Body)
        → (ses.fetch_from) offset ≡ inr v
        → validated_body v false video (some (length file - offset)) ≡ some b
        → (rest : Text) × (joined (b.0) ++ rest ≡ drop offset file))
    → (first_chunk ++ joined more) ++ unread ≡ file
    → IsFull false ending (length (first_chunk ++ joined more)) (length file)
    → HasSent file [] (body ses response (some (length file)) first_chunk more ending s)
unfolding body
body-HasSent ses response file first_chunk more ending s unread resumes e full =
    elim (Option-cases ((ses.interrupts) 1)) [
      | inr (f, raises) ↦
          rw (raises, body)
            (record {
              streamed = record {
                sent = first_chunk ∷ [];
                bytes_streamed = 0;
                events = [];
                state = s;
                error = some f;
              };
              is = refl;
              holds = (
                joined more ++ unread,
                rw (append_nil first_chunk)
                    (rw (append_assoc first_chunk (joined more) unread) at e),
              );
            })
      | inl yielded ↦
          let loop =
            body_loop-HasSent ses response file (λ v n. validated_body_total v false video (some n))
              resumes 2 false 2 (length first_chunk) more ending s first_chunk unread (omega arith)
              refl e
              (subst (λ (n : ℕ). IsFull false ending n (length file))
                (length-append first_chunk (joined more)) full) in
          rw (yielded, body)
            (HasSent-after_pass file [] (first_chunk ∷ []) [] _ (
              subst
                (λ (t : Text). HasSent file t (
                  body_loop ses response (some (length file)) 2 false 2 (length first_chunk) more
                    ending s))
                (sym (append_nil first_chunk)) loop))
    ]

-- A download whose response has no chunked framing, has the length of a file as its Content-Length
-- and delivers a prefix of the file, and is resumed, if at all, by responses of which whatever is
-- yielded is a prefix of the rest of the file: it ends, whatever the interruptions and the failures
-- of fetches and of the cleanup are; without an exception, what was sent is the file; with one, it
-- is a prefix of the file.
pub stream_media-IsStreamed :
    (ses : Session) (quote : Text → Text) (u : Upstream) (file unread : Text)
    → ses.preview ≡ false
    → has_chunked_transfer_encoding (u.response.headers) ≡ ok false
    → content_length (u.response.headers) (u.max_bytes) ≡ ok (some (length file))
    → u.stream.bytes ++ unread ≡ file
    → ((offset : ℕ) (v : Upstream) (b : Body)
        → (ses.fetch_from) offset ≡ inr v
        → validated_body v false video (some (length file - offset)) ≡ some b
        → (rest : Text) × (joined (b.0) ++ rest ≡ drop offset file))
    → IsStreamed file (stream_media ses quote (inr u))
unfolding stream_media body
stream_media-IsStreamed ses quote u file unread download unframed known delivers resumes =
    let v =
      validated_body-IsValidated u (ses.media.media_class) none (some (length file)) unframed
        known in
    let (chunks, ending) = v.body in
    let is : validated_body u (ses.preview) (ses.media.media_class) none ≡ some (chunks, ending) =
      rw download (v.is) in
    elim (Option-cases ((ses.interrupts) 0)) [
      | inr (e, raises) ↦ rw (known, is, raises, stream_media) (refused ses file e)
      | inl waited ↦ elim (List-cases chunks) [
        | inl empty ↦
            rw (known, is, waited, empty, stream_media) (refused ses file (start_error ending))
        | inr (first_chunk, more, starts) ↦
            elim (Result-cases (
              build_forward_response_headers quote (u.response) (u.max_bytes) (ses.media.filename)
                (ses.preview))) [
                  | inl (e, fails) ↦
                      rw (known, is, waited, starts, fails, stream_media) (refused ses file (app e))
                  | inr (headers, built) ↦
                      let whole : (first_chunk ++ joined more) ++ (v.unread ++ unread) ≡ file =
                        subst (λ (t : Text). t ++ (v.unread ++ unread) ≡ file) (ap joined starts)
                          (rw (sym (append_assoc (joined chunks) (v.unread) unread), v.whole)
                            delivers) in
                      let h =
                        body-HasSent ses (u.response) file first_chunk more ending
                          (opened_with ses (first_id ∷ [])) (v.unread ++ unread) resumes whole
                          (subst (λ (t : Text). IsFull false ending (length t) (length file))
                            (ap joined starts)
                            (IsFull-IsComplete ending (length (joined chunks)) (length file)
                              (length (u.stream.bytes)) (v.complete))) in
                      rw (known, is, waited, starts, built, h.is, stream_media)
                        (record {
                          headers = some headers;
                          streamed = finish ses (h.streamed);
                          is = refl;
                          holds =
                              finish_sent ses file (h.streamed) (h.streamed.error) refl (h.holds);
                        })
                ]
      ]
    ]
