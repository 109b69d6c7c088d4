-- ===== src/Thumbnails/Coordinator/Sharing.antt =====
-- What a request for a thumbnail gets (`ThumbnailCoordinator`,
-- src/sns_media_list/services/thumbnail_cache.py).
use sns_media_list.Prelude.{
  ℕ, ◌≤◌, ◌<◌, ◌≡◌, String, some, length, leb, arith, false, str_eq, eq_iff, Bool-cases,
  Option-cases, inl, inr, ◌∙◌,
}
use sns_media_list.Dict
use sns_media_list.Thumbnails.Cache
use sns_media_list.Thumbnails.Cache.{Bytes, ThumbnailCache}
use sns_media_list.Thumbnails.Cache.Stores.{IsValid}
use sns_media_list.Thumbnails.Cache.Reads.{get-put_success}
use sns_media_list.Thumbnails.Coordinator.{
  ThumbnailCoordinator, Entered, hit, shares, owns, enter, look, join_or_start, Outcome, generated,
  failed, interrupted, record_outcome, finish,
}
use sns_media_list.Thumbnails.Coordinator.Flights.{look_cases, enter_keeps}
use sns_media_list.Thumbnails.Cache.Absence.{
  IsAbsent, get-IsAbsent, get_miss, put_success-IsAbsent, put_failure-IsAbsent,
}

-- A token that is not cached and whose generation is in flight.
pub record IsGenerating (token : String) (task : ℕ) (c : ThumbnailCoordinator) : Type 0 where
  pub absent : IsAbsent token c.cache
  pub flies : Dict.get token c.inflight ≡ some task

-- What may happen until the generation of a token ends: requests enter, for this token or another,
-- and generations of other tokens end.
pub data Meanwhile (token : String) (c : ThumbnailCoordinator) : ThumbnailCoordinator → Type 0 where
  nothing : Meanwhile token c c
  then_enters :
      {d : ThumbnailCoordinator}
      → Meanwhile token c d
      → (other : String) (first second task : ℕ)
      → Meanwhile token c (enter other first second task d).0
  then_finishes :
      {d : ThumbnailCoordinator}
      → Meanwhile token c d
      → (other : String) (expires_at now task : ℕ) (o : Outcome) → str_eq other token ≡ false
      → Dict.get other d.inflight ≡ some task
      → Meanwhile token c (finish other expires_at now o d)

join_or_start-IsGenerating :
    (token other : String) (task t : ℕ) (c : ThumbnailCoordinator)
    → IsGenerating token task c
    → IsGenerating token task (join_or_start other t c).0
unfolding join_or_start
join_or_start-IsGenerating token other task t c g =
    elim (Option-cases (Dict.get other c.inflight)) [
      | inr (u, e) ↦ rw (e, join_or_start) g
      | inl e ↦ elim (Bool-cases (leb c.max_concurrency c.active)) [
        | inl f ↦ rw (e, f, join_or_start) g
        | inr f ↦
            rw (e, f, join_or_start)
              (record {
                absent = g.absent;
                flies =
                    rw (Dict.get-set other token t c.inflight)
                      (ground (arith, eq_iff other token, e, g.flies));
              })
      ]
    ]

enter-IsGenerating :
    (token other : String) (task first second t : ℕ) (c : ThumbnailCoordinator)
    → IsGenerating token task c
    → IsGenerating token task (enter other first second t c).0
enter-IsGenerating token other task first second t c g =
    enter_keeps (IsGenerating token task) other first second t c
      (λ now d h. record {
        absent = get-IsAbsent token other now d.cache h.absent;
        flies = h.flies;
      })
      (join_or_start-IsGenerating token other task t) g

record_outcome-IsAbsent :
    (token other : String) (expires_at now : ℕ) (o : Outcome) (c : ThumbnailCache)
    → str_eq other token ≡ false
    → IsAbsent token c
    → IsAbsent token (record_outcome other expires_at now o c)
unfolding record_outcome
record_outcome-IsAbsent token other expires_at now (generated b) c differ h =
    put_success-IsAbsent token other b expires_at now c differ h
record_outcome-IsAbsent token other expires_at now (failed e) c differ h =
    elim (Bool-cases e.deterministic) [
      | inl f ↦ rw (f, record_outcome) (put_failure-IsAbsent token other expires_at now c differ h)
      | inr f ↦ rw (f, record_outcome) h
    ]
record_outcome-IsAbsent token other expires_at now interrupted c differ h = h

Meanwhile-IsGenerating :
    {token : String} {c d : ThumbnailCoordinator} (task : ℕ)
    → Meanwhile token c d
    → IsGenerating token task c
    → IsGenerating token task d
unfolding finish
Meanwhile-IsGenerating task nothing g = g
Meanwhile-IsGenerating {token} task (then_enters {d} m other first second t) g =
    enter-IsGenerating token other task first second t d (Meanwhile-IsGenerating task m g)
Meanwhile-IsGenerating {token} task (then_finishes {d} m other expires_at now t o differ e) g =
    let h = Meanwhile-IsGenerating task m g in
    record {
      absent = record_outcome-IsAbsent token other expires_at now o d.cache differ h.absent;
      flies = Dict.get-remove_ne other token d.inflight differ ∙ h.flies;
    }

-- A request that starts a generation has missed the token in the cache.
join_or_start-owns :
    (token : String) (task t : ℕ) (c : ThumbnailCoordinator)
    → IsAbsent token c.cache
    → (join_or_start token task c).1 ≡ owns t
    → IsGenerating token t (join_or_start token task c).0
unfolding join_or_start
join_or_start-owns token task t c absent = elim (Option-cases (Dict.get token c.inflight)) [
  | inr (u, e) ↦ rw (e, join_or_start) (λ o. absurd (ground (arith, o)))
  | inl e ↦ elim (Bool-cases (leb c.max_concurrency c.active)) [
    | inl f ↦ rw (e, f, join_or_start) (λ o. absurd (ground (arith, o)))
    | inr f ↦
        rw (e, f, join_or_start)
          (λ o. record {
            absent = absent;
            flies =
                rw (Dict.get-set token token task c.inflight)
                  (ground (arith, eq_iff token token, o));
          })
  ]
]

enter-owns :
    (token : String) (first second task t : ℕ) (c : ThumbnailCoordinator)
    → IsValid c.cache
    → (enter token first second task c).1 ≡ owns t
    → IsGenerating token t (enter token first second task c).0
unfolding enter
enter-owns token first second task t c v =
    let d = record c { cache = (Cache.get token first c.cache).0 } in
    let P : ThumbnailCoordinator × Entered → Type 0 =
      λ r. r.1 ≡ owns t → IsGenerating token t r.0 in
    look_cases P token first (look token second (join_or_start token task)) c
      (λ e o. absurd (ground (arith, o))) (λ b o. absurd (ground (arith, o)))
      (λ miss.
        look_cases P token second (join_or_start token task) d (λ e o. absurd (ground (arith, o)))
          (λ b o. absurd (ground (arith, o)))
          (λ twice.
            join_or_start-owns token task t
              (record d { cache = (Cache.get token second d.cache).0 })
              (get-IsAbsent token token second d.cache (get_miss token first c.cache v miss))))

enter_generating :
    (token : String) (first second task t : ℕ) (c : ThumbnailCoordinator)
    → IsGenerating token t c
    → enter token first second task c ≡ (c, shares t)
unfolding enter Cache.get
enter_generating token first second task t c g = ground (arith, g.absent, g.flies)

-- Once a request has started the generation of a token, on a valid cache, every request for the
-- token shares this generation and starts none, until it ends, whichever requests enter, for any
-- token, and whichever generations of other tokens end in between.
pub enter-shares :
    (token : String) (first second task : ℕ) (c d : ThumbnailCoordinator)
    (later again other_task : ℕ)
    → IsValid c.cache
    → (enter token first second task c).1 ≡ owns task
    → Meanwhile token (enter token first second task c).0 d
    → enter token later again other_task d ≡ (d, shares task)
enter-shares token first second task c d later again other_task v owned m =
    let g = Meanwhile-IsGenerating task m (enter-owns token first second task task c v owned) in
    enter_generating token later again other_task task d g

-- Once a generation has ended with bytes that fit into the cache, a request for the token gets these
-- bytes at once until they expire, whatever else is in flight.
pub enter_after_generated :
    (token : String) (b : Bytes) (expires_at now first second task : ℕ) (c : ThumbnailCoordinator)
    → IsValid c.cache
    → length b ≤ c.cache.max_bytes
    → now < expires_at
    → first < expires_at
    → (enter token first second task (finish token expires_at now (generated b) c)).1 ≡ hit b
unfolding enter finish
enter_after_generated token b expires_at now first second task c v fits fresh still =
    ground (arith, get-put_success token b expires_at now first c.cache v fits fresh still)
