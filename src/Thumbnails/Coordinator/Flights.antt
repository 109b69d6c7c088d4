-- ===== src/Thumbnails/Coordinator/Flights.antt =====
-- One generation for each token, and a bounded number of them
-- (`ThumbnailCoordinator`, src/sns_media_list/services/thumbnail_cache.py).
use sns_media_list.Prelude.{
  ℕ, ◌≤◌, ◌≡◌, String, Option, none, some, length, leb, arith, Bool-cases, Option-cases, inl, inr,
  [], refl,
}
use sns_media_list.Dict
use sns_media_list.Dict.{Dict, Distinct, set-Distinct, remove-Distinct, length-remove, length-set}
use sns_media_list.Errors.{AppError, Result, ok, err}
use sns_media_list.Thumbnails.Cache
use sns_media_list.Thumbnails.Cache.{Bytes, ThumbnailCache}
use sns_media_list.Thumbnails.Cache.Stores.{IsValid, put_success-IsValid, put_failure-IsValid}
use sns_media_list.Thumbnails.Cache.Invariant.{get-IsValid, cache_run-IsValid}
use sns_media_list.Thumbnails.Coordinator.{
  ThumbnailCoordinator, init, Entered, hit, raised, join_or_start, look, enter, Outcome, generated,
  failed, interrupted, record_outcome, finish,
}

pub record IsCoordinated (c : ThumbnailCoordinator) : Type 0 where
  pub cache : IsValid c.cache
  pub distinct : Distinct c.inflight
  pub counted : c.active ≡ length c.inflight
  pub bounded : c.active ≤ c.max_concurrency

join_or_start-IsCoordinated :
    (token : String) (task : ℕ) (c : ThumbnailCoordinator)
    → IsCoordinated c
    → IsCoordinated (join_or_start token task c).0
unfolding join_or_start
join_or_start-IsCoordinated token task c v = elim (Option-cases (Dict.get token c.inflight)) [
  | inr (t, e) ↦ rw (e, join_or_start) v
  | inl e ↦ elim (Bool-cases (leb c.max_concurrency c.active)) [
    | inl f ↦ rw (e, join_or_start, f) v
    | inr f ↦
        rw (e, join_or_start, f)
          (record {
            cache = v.cache;
            distinct = set-Distinct token task c.inflight v.distinct;
            counted = omega (arith, v.counted, length-set token task c.inflight e);
            bounded = ground arith;
          })
  ]
]

-- A look changes the cache alone, and keeps it valid.
after_look :
    (token : String) (now : ℕ) (c : ThumbnailCoordinator)
    → IsCoordinated c
    → IsCoordinated (record c { cache = (Cache.get token now c.cache).0 })
after_look token now c v = record {
  cache = get-IsValid token now c.cache v.cache;
  distinct = v.distinct;
  counted = v.counted;
  bounded = v.bounded;
}

-- A look raises, hits, or misses and goes on.
pub look_cases :
    (P : ThumbnailCoordinator × Entered → Type 0) (token : String) (now : ℕ)
    (on_miss : ThumbnailCoordinator → ThumbnailCoordinator × Entered) (c : ThumbnailCoordinator)
    → ((e : AppError) → P (record c { cache = (Cache.get token now c.cache).0 }, raised e))
    → ((b : Bytes) → P (record c { cache = (Cache.get token now c.cache).0 }, hit b))
    → ((Cache.get token now c.cache).1 ≡ ok none
        → P (on_miss (record c { cache = (Cache.get token now c.cache).0 })))
    → P (look token now on_miss c)
unfolding look
look_cases P token now on_miss c raises hits misses = go (Cache.get token now c.cache).1 refl
  where
    c' : ThumbnailCoordinator
    c' = record c { cache = (Cache.get token now c.cache).0 }

    go :
        (found : Result (Option Bytes))
        → (Cache.get token now c.cache).1 ≡ found
        → P (elim found as (λ _. ThumbnailCoordinator × Entered) [
          | err e ↦ (c', raised e)
          | ok cached ↦ elim cached [ some b ↦ (c', hit b) | none ↦ on_miss c' ]
        ])
    go (err e) is = raises e
    go (ok none) is = misses is
    go (ok (some b)) is = hits b

-- What no look changes, and what follows a miss does not, a request leaves.
pub enter_keeps :
    (P : ThumbnailCoordinator → Type 0) (token : String) (first second task : ℕ)
    (c : ThumbnailCoordinator)
    → ((now : ℕ) (d : ThumbnailCoordinator)
        → P d
        → P (record d { cache = (Cache.get token now d.cache).0 }))
    → ((d : ThumbnailCoordinator) → P d → P (join_or_start token task d).0)
    → P c
    → P (enter token first second task c).0
unfolding enter
enter_keeps P token first second task c looks joins p =
    let once = looks first c p in
    let d = record c { cache = (Cache.get token first c.cache).0 } in
    let twice = looks second d once in
    look_cases (λ r. P r.0) token first (look token second (join_or_start token task)) c (λ e. once)
      (λ b. once)
      (λ miss.
        look_cases (λ r. P r.0) token second (join_or_start token task) d (λ e. twice) (λ b. twice)
          (λ again. joins (record d { cache = (Cache.get token second d.cache).0 }) twice))

enter-IsCoordinated :
    (token : String) (first second task : ℕ) (c : ThumbnailCoordinator)
    → IsCoordinated c
    → IsCoordinated (enter token first second task c).0
enter-IsCoordinated token first second task c v =
    enter_keeps IsCoordinated token first second task c (after_look token)
      (join_or_start-IsCoordinated token task) v

record_outcome-IsValid :
    (token : String) (expires_at now : ℕ) (o : Outcome) (c : ThumbnailCache)
    → IsValid c
    → IsValid (record_outcome token expires_at now o c)
unfolding record_outcome
record_outcome-IsValid token expires_at now (generated b) c v =
    put_success-IsValid token b expires_at now c v
record_outcome-IsValid token expires_at now (failed e) c v = elim (Bool-cases e.deterministic) [
  | inl f ↦ rw (f, record_outcome) (put_failure-IsValid token expires_at now c v)
  | inr f ↦ rw (f, record_outcome) v
]
record_outcome-IsValid token expires_at now interrupted c v = v

finish-IsCoordinated :
    (token : String) (expires_at now task : ℕ) (o : Outcome) (c : ThumbnailCoordinator)
    → IsCoordinated c
    → Dict.get token c.inflight ≡ some task
    → IsCoordinated (finish token expires_at now o c)
unfolding finish
finish-IsCoordinated token expires_at now task o c v e = record {
  cache = record_outcome-IsValid token expires_at now o c.cache v.cache;
  distinct = remove-Distinct token c.inflight v.distinct;
  counted = omega (arith, v.counted, length-remove token c.inflight task e);
  bounded = omega (arith, v.bounded);
}

-- What happens: a request enters, or the owner of a generation that is in flight finishes.
pub data Step (c : ThumbnailCoordinator) : ThumbnailCoordinator → Type 0 where
  enters : (token : String) (first second task : ℕ) → Step c (enter token first second task c).0
  finishes :
      (token : String) (expires_at now task : ℕ) (o : Outcome)
      → Dict.get token c.inflight ≡ some task
      → Step c (finish token expires_at now o c)

pub data Reach (c : ThumbnailCoordinator) : ThumbnailCoordinator → Type 0 where
  here : Reach c c
  next : {d e : ThumbnailCoordinator} → Reach c d → Step d e → Reach c e

Step-IsCoordinated : {c d : ThumbnailCoordinator} → Step c d → IsCoordinated c → IsCoordinated d
Step-IsCoordinated {c} (enters token first second task) v =
    enter-IsCoordinated token first second task c v
Step-IsCoordinated {c} (finishes token expires_at now task o e) v =
    finish-IsCoordinated token expires_at now task o c v e

Reach-IsCoordinated : {c d : ThumbnailCoordinator} → IsCoordinated c → Reach c d → IsCoordinated d
Reach-IsCoordinated v here = v
Reach-IsCoordinated v (next r s) = Step-IsCoordinated s (Reach-IsCoordinated v r)

-- From a new coordinator with a new cache on, in whatever order requests enter and generations end,
-- by a result, an error or a cancellation, the tokens in flight are distinct, the count of active
-- generations is the number of them and at most `max_concurrency`, and the cache keeps its limits.
pub Reach-init-IsCoordinated :
    (max_bytes max_negative_entries max_concurrency : ℕ) (d : ThumbnailCoordinator)
    → Reach (init (Cache.init max_bytes max_negative_entries) max_concurrency) d
    → IsCoordinated d
Reach-init-IsCoordinated max_bytes max_negative_entries max_concurrency d r =
    Reach-IsCoordinated
      (record {
        cache = cache_run-IsValid max_bytes max_negative_entries [];
        distinct = tt;
        counted = refl;
        bounded = omega arith;
      })
      r
