-- ===== src/Thumbnails/Coordinator.antt =====
-- `ThumbnailCoordinator` of src/sns_media_list/services/thumbnail_cache.py. `get_or_generate` runs in two
-- uninterrupted parts: `enter`, up to where it awaits the generation (the lock is never held across an
-- await), and, for the request that started the generation, `finish`, from the end of that task on.
pub mod Flights
pub mod Sharing
use sns_media_list.Prelude.{
  ℕ, ◌+◌, ◌-◌, String, Bool, true, false, Option, none, some, List, [], leb, if◌then◌else◌,
}
use sns_media_list.Dict
use sns_media_list.Dict.{Dict}
use sns_media_list.Errors.{AppError, app_error, local_rate_limited, Result, ok, err}
use sns_media_list.Thumbnails.Cache
use sns_media_list.Thumbnails.Cache.{Bytes, ThumbnailCache, put_success, put_failure}

-- A task is known by a number.
pub record ThumbnailCoordinator : Type 0 where
  pub cache : ThumbnailCache
  pub max_concurrency : ℕ
  pub inflight : Dict ℕ
  pub active : ℕ

-- ThumbnailCoordinator.__init__
abbrev pub init : ThumbnailCache → ℕ → ThumbnailCoordinator
init cache max_concurrency = record {
  cache = cache;
  max_concurrency = max_concurrency;
  inflight = [];
  active = 0;
}

-- How `enter` ends: the cached bytes, the error raised, or a generation to wait for, which the request
-- shares or owns.
pub data Entered : Type 0 where
  hit : Bytes → Entered
  raised : AppError → Entered
  shares owns : ℕ → Entered

abbrev pub too_many_generations : AppError
too_many_generations =
    record (app_error local_rate_limited "Too many thumbnail generations are active.") {
      retry_after = some 1;
    }

-- under the lock, after the second miss; `task` is the one that `create_task` would start
unfoldable pub join_or_start : String → ℕ → ThumbnailCoordinator → ThumbnailCoordinator × Entered
join_or_start token task c = elim (Dict.get token c.inflight) [
  | some t ↦ (c, shares t)
  | none ↦ if leb c.max_concurrency c.active then (c, raised too_many_generations) else (
    record c { inflight = Dict.set token task c.inflight; active = c.active + 1 },
    owns task,
  )
]

-- One look into the cache, and what follows a miss.
unfoldable pub look :
    String
    → ℕ
    → (ThumbnailCoordinator → ThumbnailCoordinator × Entered)
    → ThumbnailCoordinator
    → ThumbnailCoordinator × Entered
look token now on_miss c =
    let (cache, found) = Cache.get token now c.cache in
    let c' = record c { cache = cache } in
    elim found [
      | err e ↦ (c', raised e)
      | ok cached ↦ elim cached [ some b ↦ (c', hit b) | none ↦ on_miss c' ]
    ]

-- `first` and `second` are the clock's readings in the two looks.
unfoldable pub enter : String → ℕ → ℕ → ℕ → ThumbnailCoordinator → ThumbnailCoordinator × Entered
unfolding look join_or_start
enter token first second task = look token first (look token second (join_or_start token task))

-- How a generation ends: with bytes, an `AppError`, or another exception, a cancellation among them.
pub data Outcome : Type 0 where
  generated : Bytes → Outcome
  failed : AppError → Outcome
  interrupted : Outcome

unfoldable pub record_outcome : String → ℕ → ℕ → Outcome → ThumbnailCache → ThumbnailCache
record_outcome token expires_at now (generated b) c = put_success token b expires_at now c
record_outcome token expires_at now (failed e) c =
    if e.deterministic then put_failure token expires_at now c else c
record_outcome token expires_at now interrupted c = c

-- The owner's part after the task: `max(0, n - 1)` is the subtraction of ℕ.
unfoldable pub finish : String → ℕ → ℕ → Outcome → ThumbnailCoordinator → ThumbnailCoordinator
unfolding record_outcome
finish token expires_at now outcome c = record c {
  cache = record_outcome token expires_at now outcome c.cache;
  inflight = Dict.remove token c.inflight;
  active = c.active - 1;
}
