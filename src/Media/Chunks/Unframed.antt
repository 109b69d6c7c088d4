-- ===== src/Media/Chunks/Unframed.antt =====
-- src/sns_media_list/network/media_client.py: `iter_bytes` of a response with no chunked framing.
use sns_media_list.Errors.{ok}
use sns_media_list.Media.Body.{Body, raised, joined, content_length, exceeds_limit}
use sns_media_list.Media.Body.Ends.{iter_plain-ends}
use sns_media_list.Media.Body.Plain.{IsComplete}
use sns_media_list.Media.Chunks.Bytes.{over_limit}
use sns_media_list.Media.Chunks.Loop.{iter_bytes, body_limit}
use sns_media_list.Media.Headers.{has_chunked_transfer_encoding}
use sns_media_list.Media.Stream.{Stream}
use sns_media_list.Models.{Headers}
use sns_media_list.Prelude.{
  ℕ, suc, ◌≡◌, ◌<◌, ◌++◌, refl, inl, inr, false, Option, none, some, [], length, arith, Bool-cases,
}
use sns_media_list.Text.{Text}

-- A body there is, a prefix of what the connection delivers, and as long as its end says.
pub record IsUnframed (given : Option ℕ) (s : Stream) (o : Option Body) : Type 0 where
  pub body : Body
  pub is : o ≡ some body
  pub unread : Text
  pub whole : joined (body.0) ++ unread ≡ s.bytes
  pub complete : IsComplete (body.1) given (length (joined (body.0))) (length (s.bytes))

nothing-IsComplete :
    (given : Option ℕ) (s : Stream) → IsComplete (raised exceeds_limit) given 0 (length (s.bytes))
nothing-IsComplete none s = omega arith
nothing-IsComplete (some n) s = omega arith

pub iter_bytes-IsUnframed :
    (headers : Headers) (self_max_bytes chunk_size : ℕ) (max_bytes given : Option ℕ) (s : Stream)
    → 0 < chunk_size
    → has_chunked_transfer_encoding headers ≡ ok false
    → content_length headers self_max_bytes ≡ ok given
    → IsUnframed given s (iter_bytes headers self_max_bytes chunk_size max_bytes s)
unfolding iter_bytes
iter_bytes-IsUnframed headers self_max_bytes chunk_size max_bytes given s sized unframed known =
    let limit = body_limit self_max_bytes max_bytes in
    elim (Bool-cases (over_limit limit given)) [
      | inl over ↦
          rw (unframed, known, over, iter_bytes)
            (record {
              body = ([], raised exceeds_limit);
              is = refl;
              unread = s.bytes;
              whole = refl;
              complete = nothing-IsComplete given s;
            })
      | inr fits ↦
          let (body, (is, holds)) =
            iter_plain-ends chunk_size limit self_max_bytes (suc (length (s.bytes))) 0 0 given s
              sized (omega arith) (omega arith) in
          rw (unframed, known, fits, iter_bytes)
            (record {
              body = body;
              is = is;
              unread = holds.unread;
              whole = holds.whole;
              complete = holds.complete;
            })
    ]
