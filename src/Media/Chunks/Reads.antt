-- ===== src/Media/Chunks/Reads.antt =====
-- src/sns_media_list/network/media_client.py: what the reads of the chunked framing leave.
use sns_media_list.Errors.{Result, err, ok, Result-cases}
use sns_media_list.Media.Body.{joined, exceeds_limit}
use sns_media_list.Media.Chunks.Loop.{Progress, Pieces, yields_piece, read_pieces}
use sns_media_list.Media.Stream.{Stream, skip, find_crlf, read_exactly, read_until}
use sns_media_list.Prelude.{
  ℕ, zero, suc, ◌+◌, ◌-◌, ◌≡◌, ◌≤◌, ◌<◌, refl, sym, inl, inr, ◌||◌, Option, some, List, [], ◌∷◌,
  ◌++◌, length, take, drop, min, ltb, ap, arith, Bool-cases, Option-cases, length-take, length-drop,
  length-append,
}
use sns_media_list.Text.{Text}

find_crlf_bounds : (bytes : Text) (n : ℕ) → find_crlf bytes ≡ some n → n + 2 ≤ length bytes
unfolding find_crlf
find_crlf_bounds [] n e = absurd (ground arith)
find_crlf_bounds (a ∷ []) n e = absurd (ground arith)
find_crlf_bounds (a ∷ b ∷ s) n e = elim (Option-cases (find_crlf (b ∷ s))) [
  | inl missing ↦ ground arith
  | inr (m, found) ↦ ground (arith, find_crlf_bounds (b ∷ s) m found)
]

-- A line takes two bytes at least.
pub read_until_shortens :
    (s : Stream) (line : Text) (rest : Stream)
    → read_until s ≡ ok (line, rest)
    → length (rest.bytes) + 2 ≤ length (s.bytes)
unfolding read_until
read_until_shortens s line rest e = elim (Option-cases (find_crlf (s.bytes))) [
  | inl missing ↦ absurd (ground arith)
  | inr (n, found) ↦
      let left : rest ≡ skip (n + 2) s = ground arith in
      rw left (omega (arith, find_crlf_bounds (s.bytes) n found, length-drop (n + 2) (s.bytes)))
]

pub record IsExact (n : ℕ) (s : Stream) (piece : Text) (rest : Stream) : Type 0 where
  pub enough : n ≤ length (s.bytes)
  pub taken : piece ≡ take n (s.bytes)
  pub left : rest ≡ skip n s

pub read_exactly-IsExact :
    (n : ℕ) (s : Stream) (piece : Text) (rest : Stream)
    → read_exactly n s ≡ ok (piece, rest)
    → IsExact n s piece rest
unfolding read_exactly
read_exactly-IsExact n s piece rest e = elim (Bool-cases (ltb (length (s.bytes)) n)) [
  | inl short ↦ absurd (ground arith)
  | inr whole ↦ record { enough = ground arith; taken = ground arith; left = ground arith }
]

-- A chunk of `n` bytes is read whole, or some of it is yielded before an error.
abbrev pub AreRead : ℕ → Progress → List Text → Result Progress → Type 0
AreRead n p pieces (ok q) =
    (n ≤ length (p.stream.bytes))
    × ((joined pieces ≡ take n (p.stream.bytes))
        × ((q.stream.bytes ≡ drop n (p.stream.bytes))
            × ((q.bytes_read ≡ p.bytes_read + n) × (q.recorded ≡ p.recorded + n))))
AreRead n p pieces (err e) = length (joined pieces) ≤ n

pub record HasRead (n : ℕ) (p : Progress) (o : Option Pieces) : Type 0 where
  pub pieces : List Text
  pub after : Result Progress
  pub is : o ≡ some (pieces, after)
  pub holds : AreRead n p pieces after

take-take-drop : (m n k : ℕ) (s : Text) → m + n ≡ k → take m s ++ take n (drop m s) ≡ take k s
take-take-drop zero n k s e = ap (λ (i : ℕ). take i s) (omega (arith, e))
take-take-drop (suc m) n zero s e = absurd (omega (arith, e))
take-take-drop (suc m) zero (suc k) [] e = refl
take-take-drop (suc m) (suc n) (suc k) [] e = refl
take-take-drop (suc m) n (suc k) (c ∷ s) e = ap (◌∷◌ c) (take-take-drop m n k s (omega (arith, e)))

drop-drop : (m n k : ℕ) (s : Text) → m + n ≡ k → drop n (drop m s) ≡ drop k s
drop-drop zero n k s e = ap (λ (i : ℕ). drop i s) (omega (arith, e))
drop-drop (suc m) n zero s e = absurd (omega (arith, e))
drop-drop (suc m) zero (suc k) [] e = refl
drop-drop (suc m) (suc n) (suc k) [] e = refl
drop-drop (suc m) n (suc k) (c ∷ s) e = drop-drop m n k s (omega (arith, e))

-- A piece of `m` bytes, and then the other `n - m`.
AreRead-yields :
    (n m : ℕ) (p q : Progress) (piece : Text) (pieces : List Text) (after : Result Progress)
    → m ≤ n
    → IsExact m (p.stream) piece (q.stream)
    → q.bytes_read ≡ p.bytes_read + m
    → q.recorded ≡ p.recorded + m
    → AreRead (n - m) q pieces after
    → AreRead n p (piece ∷ pieces) after
AreRead-yields n m p q piece pieces (err e) h x b r a = omega (
  arith,
  length-append piece (joined pieces),
  ap length (x.taken),
  length-take m (p.stream.bytes),
)
AreRead-yields n m p q piece pieces (ok last) h x b r a =
    let dropped : q.stream.bytes ≡ drop m (p.stream.bytes) =
      ap (λ (s : Stream). s.bytes) (x.left) in
    let size = length-drop m (p.stream.bytes) in
    (
      omega (arith, x.enough, ap length dropped, size, a.0),
      (
        rw (x.taken, a.1.0, dropped) (take-take-drop m (n - m) n (p.stream.bytes) (omega arith)),
        (
          rw (a.1.1.0, dropped) (drop-drop m (n - m) n (p.stream.bytes) (omega arith)),
          (omega (arith, a.1.1.1.0, b), omega (arith, a.1.1.1.1, r)),
        ),
      ),
    )

HasRead-yields :
    (n m : ℕ) (p q : Progress) (piece : Text) (o : Option Pieces)
    → m ≤ n
    → IsExact m (p.stream) piece (q.stream)
    → q.bytes_read ≡ p.bytes_read + m
    → q.recorded ≡ p.recorded + m
    → HasRead (n - m) q o
    → HasRead n p (yields_piece piece o)
HasRead-yields n m p q piece o h x b r a = record {
  pieces = piece ∷ a.pieces;
  after = a.after;
  is = ap (yields_piece piece) (a.is);
  holds = AreRead-yields n m p q piece (a.pieces) (a.after) h x b r (a.holds);
}

module _ (limit max_bytes chunk_size : ℕ) (sized : 0 < chunk_size) where
  -- With fuel for each of its bytes, reading a chunk within the limit ends.
  pub read_pieces-HasRead :
      (fuel n : ℕ) (p : Progress)
      → n ≤ fuel
      → HasRead n p (read_pieces limit max_bytes chunk_size fuel n p)
  unfolding read_pieces
  read_pieces-HasRead fuel zero p h = record {
    pieces = [];
    after = ok p;
    is = refl;
    holds = (omega arith, (refl, (refl, (omega arith, omega arith))));
  }
  read_pieces-HasRead zero (suc n) p h = absurd (omega arith)
  read_pieces-HasRead (suc fuel) (suc n) p h =
      let m = min (suc n) chunk_size in
      elim (Result-cases (read_exactly m (p.stream))) [
        | inl (f, e) ↦ record { pieces = []; after = err f; is = ground arith; holds = omega arith }
        | inr ((piece, rest), e) ↦
            let x = read_exactly-IsExact m (p.stream) piece rest e in
            let size : length piece ≡ m =
              omega (arith, ap length (x.taken), length-take m (p.stream.bytes), x.enough) in
            let q : Progress = record {
              recorded = p.recorded + length piece;
              bytes_read = p.bytes_read + length piece;
              stream = rest;
            } in
            let rest_of = read_pieces limit max_bytes chunk_size fuel (suc n - length piece) q in
            elim (Bool-cases (ltb limit (q.bytes_read) || ltb max_bytes (q.recorded))) [
              | inl over ↦ record {
                pieces = [];
                after = err exceeds_limit;
                is = ground arith;
                holds = omega arith;
              }
              | inr within ↦
                  let again : read_pieces limit max_bytes chunk_size (suc fuel) (suc n) p
                      ≡ yields_piece piece rest_of =
                    ground arith in
                  rw again (
                    HasRead-yields (suc n) (length piece) p q piece rest_of (omega (arith, size))
                      (rw (sym size) at x) refl refl
                      (read_pieces-HasRead fuel (suc n - length piece) q (omega (arith, size))))
            ]
      ]
