-- ===== src/Media/Chunks/Ends.antt =====
-- src/sns_media_list/network/media_client.py: `_iter_chunked` ends, within the limit.
use sns_media_list.Errors.{Result, err, ok, Result-cases}
use sns_media_list.Media.Body.{Ending, finished, raised, Body, joined, exceeds_limit}
use sns_media_list.Media.Chunks.{validate_trailer_line}
use sns_media_list.Media.Chunks.Loop.{
  Progress, chunk_size_of, read_trailers, trailers_error, chunks_error, crlf,
  max_chunk_trailer_bytes, yields_all, after_pieces, iter_chunked,
}
use sns_media_list.Media.Chunks.Reads.{
  read_until_shortens, read_exactly-IsExact, AreRead, read_pieces-HasRead,
}
use sns_media_list.Media.Stream.{Stream, read_exactly, read_until}
use sns_media_list.Prelude.{
  ℕ, zero, suc, ◌+◌, ◌≡◌, ◌≤◌, ◌<◌, refl, inl, inr, Option, none, some, List, [], ◌∷◌, ◌++◌, length,
  ltb, ap, subst, arith, Bool-cases, Option-cases, length-take, length-drop, length-append,
  append_assoc,
}
use sns_media_list.Text.{Text, ends_with, text_eq}

read_trailers_total :
    (fuel trailer_bytes : ℕ) (s : Stream)
    → length (s.bytes) < fuel
    → (r : Result (Unit {0})) × (read_trailers fuel trailer_bytes s ≡ some r)
unfolding read_trailers
read_trailers_total zero trailer_bytes s h = absurd (omega arith)
read_trailers_total (suc fuel) trailer_bytes s h = elim (Result-cases (read_until s)) [
  | inl (f, e) ↦ (err f, ground arith)
  | inr ((trailer, rest), e) ↦
      let total = trailer_bytes + length trailer in
      let (r, more) =
        read_trailers_total fuel total rest (omega (arith, read_until_shortens s trailer rest e)) in
      elim (Bool-cases (ltb max_chunk_trailer_bytes total)) [
        | inl large ↦ (err trailers_error, ground arith)
        | inr small ↦ elim (Bool-cases (ends_with trailer crlf)) [
          | inr cut ↦ (err chunks_error, ground arith)
          | inl ended ↦ elim (Bool-cases (text_eq trailer crlf)) [
            | inl last ↦ (ok tt, ground arith)
            | inr field ↦ elim (Bool-cases (validate_trailer_line trailer)) [
              | inl valid ↦ (r, ground arith)
              | inr invalid ↦ (err trailers_error, ground arith)
            ]
          ]
        ]
      ]
]

pub joined-append : (xs ys : List Text) → joined (xs ++ ys) ≡ joined xs ++ joined ys
joined-append [] ys = refl
joined-append (x ∷ xs) ys = rw (joined-append xs ys, append_assoc x (joined xs) (joined ys)) refl

-- A body there is, and with the `bytes_read` before it, it is within the limit.
pub record IsWithin (limit bytes_read : ℕ) (o : Option Body) : Type 0 where
  pub body : Body
  pub is : o ≡ some body
  pub bound : bytes_read + length (joined (body.0)) ≤ limit

yields_all-IsWithin :
    (limit bytes_read n : ℕ) (pieces : List Text) (o : Option Body)
    → length (joined pieces) ≤ n
    → IsWithin limit (bytes_read + n) o
    → IsWithin limit bytes_read (yields_all pieces o)
yields_all-IsWithin limit bytes_read n pieces none h w = absurd (ground (arith, w.is))
yields_all-IsWithin limit bytes_read n pieces (some (chunks, ending)) h w =
    let same : w.body ≡ (chunks, ending) = ground arith in
    let count = ap (λ (b : Body). length (joined (b.0))) same in
    let total = ap length (joined-append pieces chunks) in
    record {
      body = (pieces ++ chunks, ending);
      is = refl;
      bound =
          omega (arith, h, w.bound, count, total, length-append (joined pieces) (joined chunks));
    }

module _ (limit max_bytes chunk_size : ℕ) (sized : 0 < chunk_size) where
  raises-IsWithin :
      (p : Progress) (ending : Ending)
      → p.bytes_read ≤ limit
      → IsWithin limit (p.bytes_read) (some ([], ending))
  raises-IsWithin p ending h = record { body = ([], ending); is = refl; bound = omega arith }

  stops-IsWithin :
      (p : Progress) (pieces : List Text) (ending : Ending) (n : ℕ)
      → p.bytes_read + n ≤ limit
      → length (joined pieces) ≤ n
      → IsWithin limit (p.bytes_read) (some (pieces, ending))
  stops-IsWithin p pieces ending n h l = record {
    body = (pieces, ending);
    is = refl;
    bound = omega arith;
  }

  after_pieces-IsWithin :
      (n fuel : ℕ) (p : Progress) (go_on : Progress → Option Body) (pieces : List Text)
      (after : Result Progress)
      → p.bytes_read + n ≤ limit
      → length (p.stream.bytes) < fuel
      → ((q : Progress)
          → length (q.stream.bytes) < fuel
          → q.bytes_read ≤ limit
          → IsWithin limit (q.bytes_read) (go_on q))
      → AreRead n p pieces after
      → IsWithin limit (p.bytes_read) (after_pieces (some (pieces, after)) go_on)
  unfolding after_pieces
  after_pieces-IsWithin n fuel p go_on pieces (err f) h l ih a =
      stops-IsWithin p pieces (raised f) n h a
  after_pieces-IsWithin n fuel p go_on pieces (ok q) h l ih a =
      let count : length (joined pieces) ≤ n =
        omega (arith, ap length (a.1.0), length-take n (p.stream.bytes)) in
      elim (Result-cases (read_exactly 2 (q.stream))) [
        | inl (f, e) ↦ rw (e, after_pieces) (stops-IsWithin p pieces (raised f) n h count)
        | inr ((end, rest), e) ↦ elim (Bool-cases (text_eq end crlf)) [
          | inr wrong ↦
              rw (e, wrong, after_pieces) (stops-IsWithin p pieces (raised chunks_error) n h count)
          | inl right ↦
              let x = read_exactly-IsExact 2 (q.stream) end rest e in
              let left = ap (λ (s : Stream). length (s.bytes)) (x.left) in
              let next : Progress = record q { stream = rest } in
              let others =
                ih next
                  (omega (
                    arith,
                    l,
                    left,
                    length-drop 2 (q.stream.bytes),
                    ap length (a.1.1.0),
                    length-drop n (p.stream.bytes),
                  ))
                  (omega (arith, h, a.1.1.1.0)) in
              rw (e, right, after_pieces)
                (yields_all-IsWithin limit (p.bytes_read) n pieces (go_on next) count
                  (subst (λ (m : ℕ). IsWithin limit m (go_on next)) (a.1.1.1.0) others))
        ]
      ]

  pub iter_chunked-IsWithin :
      (fuel : ℕ) (p : Progress)
      → length (p.stream.bytes) < fuel
      → p.bytes_read ≤ limit
      → IsWithin limit (p.bytes_read) (iter_chunked limit max_bytes chunk_size fuel p)
  unfolding iter_chunked
  iter_chunked-IsWithin zero p h b = absurd (omega arith)
  iter_chunked-IsWithin (suc fuel) p h b = elim (Result-cases (read_until (p.stream))) [
    | inl (f, e) ↦ rw (e, iter_chunked) (raises-IsWithin p (raised f) b)
    | inr ((line, rest), e) ↦
        let shorter = read_until_shortens (p.stream) line rest e in
        elim (Option-cases (chunk_size_of line)) [
          | inl bad ↦ rw (e, bad, iter_chunked) (raises-IsWithin p (raised chunks_error) b)
          | inr (zero, last) ↦
              let (r, ended) =
                read_trailers_total (suc (length (rest.bytes))) 0 rest (omega arith) in
              elim (Result-cases r) [
                | inl (f, bad) ↦
                    rw (e, last, ended, bad, iter_chunked) (raises-IsWithin p (raised f) b)
                | inr (u, good) ↦
                    rw (e, last, ended, good, iter_chunked) (raises-IsWithin p finished b)
              ]
          | inr (suc n, size) ↦ elim (Bool-cases (ltb limit (p.bytes_read + suc n))) [
            | inl over ↦
                rw (e, size, over, iter_chunked) (raises-IsWithin p (raised exceeds_limit) b)
            | inr fits ↦
                let held =
                  read_pieces-HasRead limit max_bytes chunk_size sized (suc n) (suc n)
                    (record p { stream = rest }) (omega arith) in
                rw (e, size, fits, held.is, iter_chunked)
                  (after_pieces-IsWithin (suc n) fuel (record p { stream = rest })
                    (iter_chunked limit max_bytes chunk_size fuel) (held.pieces) (held.after)
                    (ground arith) (omega (arith, h, shorter)) (iter_chunked-IsWithin fuel)
                    (held.holds))
          ]
        ]
  ]
