-- ===== src/Routes/Download/Bodies.antt =====
-- src/sns_media_list/api/routes.py: the bodies that a download iterates over.
use sns_media_list.Errors.{AppError, ok, Result-cases}
use sns_media_list.Media.Body.{raised, Body, joined, content_length}
use sns_media_list.Media.Body.Plain.{IsComplete}
use sns_media_list.Media.Chunks.Bytes.{iter_bytes-IsWithin}
use sns_media_list.Media.Chunks.Loop.{iter_bytes}
use sns_media_list.Media.Chunks.Unframed.{iter_bytes-IsUnframed}
use sns_media_list.Media.Forward.{accepted_type, iter_validated_body}
use sns_media_list.Media.Headers.{has_chunked_transfer_encoding}
use sns_media_list.Models.{MediaType}
use sns_media_list.Prelude.{
  ℕ, ◌≡◌, ◌++◌, refl, inl, inr, ◌⊎◌, Bool, false, Option, none, some, [], length, arith,
}
use sns_media_list.Routes.Download.{Upstream, chunk_size_of, default_chunk_size, validated_body}
use sns_media_list.Text.{Text}

pub validated_body_total :
    (u : Upstream) (preview : Bool) (media_class : MediaType) (max_bytes : Option ℕ)
    → (b : Body) × (validated_body u preview media_class max_bytes ≡ some b)
unfolding validated_body
validated_body_total u preview media_class max_bytes =
    let w =
      iter_bytes-IsWithin (u.response.headers) (u.max_bytes) (chunk_size_of preview) max_bytes
        (u.stream) (ground arith) in
    (
      iter_validated_body (u.response) preview (some media_class) (w.body),
      rw (w.is, validated_body) refl,
    )

-- A download passes the body on, or nothing of it.
pub validated_body-cases :
    (u : Upstream) (media_class : MediaType) (max_bytes : Option ℕ) (b : Body)
    → iter_bytes (u.response.headers) (u.max_bytes) default_chunk_size max_bytes (u.stream) ≡ some b
    → (validated_body u false media_class max_bytes ≡ some b)
      ⊎ ((e : AppError) × (validated_body u false media_class max_bytes ≡ some ([], raised e)))
unfolding validated_body iter_validated_body
validated_body-cases u media_class max_bytes (chunks, ending) e =
    elim (Result-cases (accepted_type (u.response) false (some media_class))) [
      | inl (f, refused) ↦ inr (f, rw (e, refused, validated_body, iter_validated_body) refl)
      | inr (content_type, accepted) ↦
          inl (rw (e, accepted, validated_body, iter_validated_body) refl)
    ]

-- The body of a download without chunked framing: a prefix of what is delivered, whose length is
-- the Content-Length where it is finished.
pub record IsValidated (given : Option ℕ) (u : Upstream) (o : Option Body) : Type 0 where
  pub body : Body
  pub is : o ≡ some body
  pub unread : Text
  pub whole : joined (body.0) ++ unread ≡ u.stream.bytes
  pub complete : IsComplete (body.1) given (length (joined (body.0))) (length (u.stream.bytes))

raised-IsComplete :
    (e : AppError) (given : Option ℕ) (u : Upstream)
    → IsComplete (raised e) given 0 (length (u.stream.bytes))
raised-IsComplete e none u = omega arith
raised-IsComplete e (some n) u = omega arith

pub validated_body-IsValidated :
    (u : Upstream) (media_class : MediaType) (max_bytes given : Option ℕ)
    → has_chunked_transfer_encoding (u.response.headers) ≡ ok false
    → content_length (u.response.headers) (u.max_bytes) ≡ ok given
    → IsValidated given u (validated_body u false media_class max_bytes)
validated_body-IsValidated u media_class max_bytes given unframed known =
    let b =
      iter_bytes-IsUnframed (u.response.headers) (u.max_bytes) default_chunk_size max_bytes given
        (u.stream) (omega arith) unframed known in
    elim (validated_body-cases u media_class max_bytes (b.body) (b.is)) [
      | inl passed ↦ record {
        body = b.body;
        is = passed;
        unread = b.unread;
        whole = b.whole;
        complete = b.complete;
      }
      | inr (e, refused) ↦ record {
        body = ([], raised e);
        is = refused;
        unread = u.stream.bytes;
        whole = refl;
        complete = raised-IsComplete e given u;
      }
    ]
