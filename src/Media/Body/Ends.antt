-- ===== src/Media/Body/Ends.antt =====
-- src/sns_media_list/network/media_client.py: the loop of `iter_bytes` ends.
use sns_media_list.Errors.{Result-cases}
use sns_media_list.Media.Body.{
  raised, finished, truncated, Body, yields, is_used_up, read_size, less, iter_plain, exceeds_limit,
  body_truncated,
}
use sns_media_list.Media.Body.Plain.{read-IsRead, IsBody, iter_plain-IsBody}
use sns_media_list.Media.Stream.{Stream, read}
use sns_media_list.Prelude.{
  ℕ, zero, suc, ◌+◌, ◌≡◌, ◌≤◌, ◌<◌, inl, inr, ◌||◌, Option, none, some, [], ◌∷◌, length, ltb, ap,
  arith, Option-cases, Bool-cases, length-append,
}
use sns_media_list.Text.{Text}

yields_total :
    (chunk : Text) (o : Option Body) (body : Body)
    → o ≡ some body
    → (more : Body) × (yields chunk o ≡ some more)
yields_total chunk none body e = absurd (ground arith)
yields_total chunk (some (chunks, ending)) body e = ((chunk ∷ chunks, ending), ground arith)

module _ (chunk_size limit max_bytes : ℕ) where
  iter_plain_total :
      (fuel recorded bytes_read : ℕ) (remaining : Option ℕ) (s : Stream)
      → length (s.bytes) < fuel
      → (body : Body) × (iter_plain fuel chunk_size limit max_bytes recorded bytes_read remaining s
          ≡ some body)
  unfolding iter_plain
  iter_plain_total zero recorded bytes_read remaining s h = absurd (omega arith)
  iter_plain_total (suc fuel) recorded bytes_read remaining s h =
      elim (Bool-cases (is_used_up remaining)) [
        | inl done ↦ (([], finished), ground arith)
        | inr more ↦ elim (Result-cases (read (read_size chunk_size remaining) s)) [
          | inl (f, fails) ↦ (([], raised f), ground arith)
          | inr (([], rest), e_read) ↦ elim (Option-cases remaining) [
            | inl n ↦ (([], finished), ground arith)
            | inr (m, n) ↦ (([], truncated body_truncated), ground arith)
          ]
          | inr ((c ∷ cs, rest), e_read) ↦
              let r = read-IsRead (read_size chunk_size remaining) s (c ∷ cs) rest e_read in
              let shorter : length (rest.bytes) < fuel =
                omega (arith, length-append (c ∷ cs) (rest.bytes), ap length (r.parts)) in
              let (body, e_after) =
                iter_plain_total fuel (recorded + suc (length cs)) (bytes_read + suc (length cs))
                  (less (suc (length cs)) remaining) rest shorter in
              let (longer, e_longer) = yields_total (c ∷ cs) _ body e_after in
              elim (Bool-cases (
                ltb limit (bytes_read + suc (length cs))
                || ltb max_bytes (recorded + suc (length cs)))) [
                  | inl over ↦ (([], raised exceeds_limit), ground arith)
                  | inr within ↦ (longer, ground arith)
                ]
        ]
      ]

  -- With fuel for each byte that the connection delivers and one more, the loop of iter_bytes
  -- yields a body, for chunks of a positive size; the body is a prefix of those bytes and within
  -- the limit; one that ends without an error is as long as its Content-Length, or as all that was
  -- delivered where there is none, and one that is truncated is shorter than its Content-Length.
  pub iter_plain-ends :
      (fuel recorded bytes_read : ℕ) (remaining : Option ℕ) (s : Stream)
      → 0 < chunk_size
      → bytes_read ≤ limit
      → length (s.bytes) < fuel
      → (body : Body) × ((iter_plain fuel chunk_size limit max_bytes recorded bytes_read remaining s
            ≡ some body)
          × IsBody limit bytes_read remaining s body)
  iter_plain-ends fuel recorded bytes_read remaining s sized h f =
      let (body, e) = iter_plain_total fuel recorded bytes_read remaining s f in
      (
        body,
        (
          e,
          iter_plain-IsBody chunk_size limit max_bytes sized fuel recorded bytes_read remaining s
              body h e,
        ),
      )
