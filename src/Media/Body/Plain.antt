-- ===== src/Media/Body/Plain.antt =====
-- src/sns_media_list/network/media_client.py: the bodies that `iter_bytes` yields without chunked
-- framing.
use sns_media_list.Errors.{Result-cases, AppError, ok}
use sns_media_list.Media.Body.{
  body_truncated, exceeds_limit, Ending, finished, raised, truncated, Body, yields, joined,
  is_used_up, read_size, less, iter_plain,
}
use sns_media_list.Media.Stream.{Stream, read, skip, ready_count}
use sns_media_list.Prelude.{
  ℕ, zero, suc, ◌+◌, ◌≡◌, ◌≤◌, ◌<◌, refl, true, false, ◌||◌, Option, none, some, List, [], ◌∷◌,
  ◌++◌, length, take, ltb, ◌==◌, inl, inr, ◌⊎◌, arith, List-cases, Option-cases, ap, append_assoc,
  Bool-cases, take-append-drop, length-take, length-append,
}
use sns_media_list.Text.{Text}

pub record IsRead (size : ℕ) (s : Stream) (chunk : Text) (rest : Stream) : Type 0 where
  pub parts : chunk ++ rest.bytes ≡ s.bytes
  pub bound : length chunk ≤ size
  pub same : rest.failure ≡ s.failure
  pub progress : (1 ≤ length chunk) ⊎ (length (s.bytes) ≡ 0) ⊎ (size ≡ 0)

ready_count_le :
    (size : ℕ) (s : Stream)
    → (ready_count size s ≤ size)
      × (ready_count size s ≤ length (s.bytes))
      × ((1 ≤ ready_count size s) ⊎ (length (s.bytes) ≡ 0) ⊎ (size ≡ 0))
ready_count_le size s = elim (List-cases (s.ready)) [
  | inl e ↦ ground arith
  | inr (n, ns, e) ↦ ground arith
]

skip-IsRead :
    (size : ℕ) (s : Stream)
    → IsRead size s (take (ready_count size s) (s.bytes)) (skip (ready_count size s) s)
skip-IsRead size s =
    let bounds = ready_count_le size s in
    let taken = length-take (ready_count size s) (s.bytes) in
    record {
      parts = take-append-drop (ready_count size s) (s.bytes);
      bound = omega (arith, taken, bounds);
      same = refl;
      progress = ground (arith, taken, bounds);
    }

pub read-IsRead :
    (size : ℕ) (s : Stream) (chunk : Text) (rest : Stream)
    → read size s ≡ ok (chunk, rest)
    → IsRead size s chunk rest
unfolding read
read-IsRead size s chunk rest e = elim (Bool-cases (length (s.bytes) == 0)) [
  | inl empty ↦ elim (Option-cases (s.failure)) [
    | inl ends ↦
        let c : chunk ≡ [] = ground arith in
        let r : rest ≡ s = ground arith in
        let nothing : IsRead size s [] s = record {
          parts = refl;
          bound = omega arith;
          same = refl;
          progress = ground arith;
        } in
        rw (c, r) nothing
    | inr (f, fails) ↦ ground arith
  ]
  | inr more ↦
      let c : chunk ≡ take (ready_count size s) (s.bytes) = ground arith in
      let r : rest ≡ skip (ready_count size s) s = ground arith in rw (c, r) (skip-IsRead size s)
]

-- What an ending says of the bytes yielded, of those that a Content-Length announced, and of those
-- that the connection delivered.
abbrev pub IsComplete : Ending → Option ℕ → ℕ → ℕ → Type 0
IsComplete finished none n delivered = n ≡ delivered
IsComplete finished (some r) n delivered = n ≡ r
IsComplete (truncated e) none n delivered = n < n
IsComplete (truncated e) (some r) n delivered = n < r
IsComplete (raised e) none n delivered = n ≤ delivered
IsComplete (raised e) (some r) n delivered = n ≤ r

pub record IsBody (limit bytes_read : ℕ) (remaining : Option ℕ) (s : Stream) (body : Body)
    : Type 0 where
  pub unread : Text
  pub whole : joined (body.0) ++ unread ≡ s.bytes
  pub bound : bytes_read + length (joined (body.0)) ≤ limit
  pub complete : IsComplete (body.1) remaining (length (joined (body.0))) (length (s.bytes))

-- A body of no chunk.
nothing-IsBody :
    (limit bytes_read : ℕ) (remaining : Option ℕ) (s : Stream) (ending : Ending)
    → bytes_read ≤ limit
    → IsComplete ending remaining 0 (length (s.bytes))
    → IsBody limit bytes_read remaining s ([], ending)
nothing-IsBody limit bytes_read remaining s ending h c = record {
  unread = s.bytes;
  whole = refl;
  bound = omega arith;
  complete = c;
}

yields-some :
    (chunk : Text) (o : Option Body) (body : Body)
    → yields chunk o ≡ some body
    → (chunks : List Text) × (ending : Ending) × (o ≡ some (chunks, ending))
      × (body ≡ (chunk ∷ chunks, ending))
yields-some chunk none body e = absurd (ground arith)
yields-some chunk (some (chunks, ending)) body e = (chunks, ending, refl, ground arith)

IsComplete-after :
    (ending : Ending) (remaining : Option ℕ) (n m delivered left : ℕ)
    → n + left ≡ delivered
    → (remaining ≡ none) ⊎ ((r : ℕ) × (remaining ≡ some r) × (n ≤ r))
    → IsComplete ending (less n remaining) m left
    → IsComplete ending remaining (n + m) delivered
IsComplete-after finished none n m delivered left e r c = omega arith
IsComplete-after finished (some r) n m delivered left e h c = ground arith
IsComplete-after (truncated x) none n m delivered left e r c = omega arith
IsComplete-after (truncated x) (some r) n m delivered left e h c = ground arith
IsComplete-after (raised x) none n m delivered left e r c = omega arith
IsComplete-after (raised x) (some r) n m delivered left e h c = ground arith

chunk-IsBody :
    (limit bytes_read size : ℕ) (remaining : Option ℕ) (s rest : Stream) (chunk : Text)
    (body : Body)
    → IsRead size s chunk rest
    → (remaining ≡ none) ⊎ ((r : ℕ) × (remaining ≡ some r) × (length chunk ≤ r))
    → IsBody limit (bytes_read + length chunk) (less (length chunk) remaining) rest body
    → IsBody limit bytes_read remaining s (chunk ∷ body.0, body.1)
chunk-IsBody limit bytes_read size remaining s rest chunk body r h b =
    let count = length-append chunk (joined (body.0)) in
    let parts : length chunk + length (rest.bytes) ≡ length (s.bytes) =
      omega (arith, length-append chunk (rest.bytes), ap length (r.parts)) in
    record {
      unread = b.unread;
      whole = rw (append_assoc chunk (joined (body.0)) (b.unread), b.whole) (r.parts);
      bound = omega (arith, count, b.bound);
      complete = rw (count) (
          IsComplete-after (body.1) remaining (length chunk) (length (joined (body.0)))
            (length (s.bytes)) (length (rest.bytes)) parts h (b.complete));
    }

fits :
    (chunk_size n : ℕ) (remaining : Option ℕ)
    → n ≤ read_size chunk_size remaining
    → (remaining ≡ none) ⊎ ((r : ℕ) × (remaining ≡ some r) × (n ≤ r))
fits chunk_size n none h = inl refl
fits chunk_size n (some r) h = inr (r, refl, omega arith)

used_up :
    (remaining : Option ℕ) (n : ℕ) → is_used_up remaining ≡ true → IsComplete finished remaining 0 n
used_up none n h = absurd (ground arith)
used_up (some r) n h = ground arith

raised_early : (f : AppError) (remaining : Option ℕ) (n : ℕ) → IsComplete (raised f) remaining 0 n
raised_early f none n = omega arith
raised_early f (some r) n = omega arith

-- An empty chunk is the end of the stream, where it was not asked for.
at_end :
    (chunk_size : ℕ) (remaining : Option ℕ) (s : Stream)
    → 0 < chunk_size
    → is_used_up remaining ≡ false
    → (1 ≤ 0) ⊎ (length (s.bytes) ≡ 0) ⊎ (read_size chunk_size remaining ≡ 0)
    → length (s.bytes) ≡ 0
at_end chunk_size none s sized more p = omega arith
at_end chunk_size (some r) s sized more p = ground arith

module _ (chunk_size limit max_bytes : ℕ) (sized : 0 < chunk_size) where
  -- A body without chunked framing is a prefix of what the connection delivers and at most the
  -- limit; one that ends without an error is as long as its Content-Length, or as all that was
  -- delivered where there is none, and one that is truncated is shorter than its Content-Length.
  pub iter_plain-IsBody :
      (fuel recorded bytes_read : ℕ) (remaining : Option ℕ) (s : Stream) (body : Body)
      → bytes_read ≤ limit
      → iter_plain fuel chunk_size limit max_bytes recorded bytes_read remaining s ≡ some body
      → IsBody limit bytes_read remaining s body
  unfolding iter_plain
  iter_plain-IsBody zero recorded bytes_read remaining s body h e = absurd (ground arith)
  iter_plain-IsBody (suc fuel) recorded bytes_read remaining s body h e =
      elim (Bool-cases (is_used_up remaining)) [
        | inl done ↦
            let b : body ≡ ([], finished) = ground arith in
            rw b (
              nothing-IsBody limit bytes_read remaining s finished h
                (used_up remaining (length (s.bytes)) done))
        | inr more ↦ elim (Result-cases (read (read_size chunk_size remaining) s)) [
          | inl (f, fails) ↦
              let b : body ≡ ([], raised f) = ground arith in
              rw b (
                nothing-IsBody limit bytes_read remaining s (raised f) h
                  (raised_early f remaining (length (s.bytes))))
          | inr (([], rest), e_read) ↦
              let r = read-IsRead (read_size chunk_size remaining) s [] rest e_read in
              let empty = at_end chunk_size remaining s sized more (r.progress) in
              elim (Option-cases remaining) [
                | inl n ↦
                    let b : body ≡ ([], finished) = ground arith in
                    rw (b, n)
                      (nothing-IsBody limit bytes_read none s finished h (ground (arith, empty)))
                | inr (m, n) ↦
                    let b : body ≡ ([], truncated body_truncated) = ground arith in
                    rw (b, n)
                      (nothing-IsBody limit bytes_read (some m) s (truncated body_truncated) h
                        (ground arith))
              ]
          | inr ((c ∷ cs, rest), e_read) ↦
              let r = read-IsRead (read_size chunk_size remaining) s (c ∷ cs) rest e_read in
              let after =
                iter_plain fuel chunk_size limit max_bytes (recorded + suc (length cs))
                  (bytes_read + suc (length cs)) (less (suc (length cs)) remaining) rest in
              elim (Bool-cases (
                ltb limit (bytes_read + suc (length cs))
                || ltb max_bytes (recorded + suc (length cs)))) [
                  | inl over ↦
                      let b : body ≡ ([], raised exceeds_limit) = ground arith in
                      rw b (
                        nothing-IsBody limit bytes_read remaining s (raised exceeds_limit) h
                          (raised_early exceeds_limit remaining (length (s.bytes))))
                  | inr within ↦
                      let yielded : yields (c ∷ cs) after ≡ some body = ground arith in
                      let (chunks, ending, e_after, e_body) =
                        yields-some (c ∷ cs) after body yielded in
                      rw e_body (
                        chunk-IsBody limit bytes_read (read_size chunk_size remaining) remaining s
                          rest (c ∷ cs) (chunks, ending) r
                          (fits chunk_size (suc (length cs)) remaining (r.bound))
                          (iter_plain-IsBody fuel (recorded + suc (length cs))
                            (bytes_read + suc (length cs)) (less (suc (length cs)) remaining) rest
                            (chunks, ending) (ground arith) e_after))
                ]
        ]
      ]
