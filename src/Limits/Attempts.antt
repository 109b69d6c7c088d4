-- ===== src/Limits/Attempts.antt =====
-- `AttemptLimiter` of src/sns_media_list/api/limits.py. Time is in microseconds of the injected clock,
-- whose reading is the argument `now`, and `window` is `window_seconds` in microseconds.
pub mod Windows
pub mod Decision
pub mod Invariant
pub mod Safety
pub mod Posts
use sns_media_list.Prelude.{
  ℕ, ◌+◌, ◌-◌, ◌*◌, ◌/◌, max, String, Bool, true, false, ◌||◌, ◌&&◌, Option, none, some, List, [],
  ◌∷◌, ◌++◌, if◌then◌else◌, length, ltb, leb,
}
use sns_media_list.Dict.{Dict, append}
use sns_media_list.Dict
use sns_media_list.Errors.{AppError, app_error, local_rate_limited, Result, ok, err}

pub data AttemptKind : Type 0 where
  extraction media : AttemptKind

-- Each deque holds the times of attempts, the oldest first.
pub record AttemptBucket : Type 0 where
  pub extractions : List ℕ
  pub medias : List ℕ

pub record McpPostBucket : Type 0 where
  pub regular : List ℕ
  pub cancellations : List ℕ

pub record AttemptLimiter : Type 0 where
  pub extraction_limit : ℕ
  pub media_limit : ℕ
  pub window : ℕ
  pub max_identities : ℕ
  pub attempts : Dict AttemptBucket
  pub mcp_post_attempts : Option McpPostBucket

abbrev pub max_extraction_attempts : ℕ
max_extraction_attempts = 10

abbrev pub max_media_attempts : ℕ
max_media_attempts = 120

abbrev pub max_identity_capacity : ℕ
max_identity_capacity = 2048

-- `AttemptLimiter(…)`; `none` is the ValueError of a configuration out of bounds.
unfoldable pub init : ℕ → ℕ → ℕ → ℕ → Bool → Option AttemptLimiter
init extraction_limit media_limit window max_identities reserve =
    if leb extraction_limit 0
      || ltb max_extraction_attempts extraction_limit
      || leb media_limit 0
      || ltb max_media_attempts media_limit
      || leb max_identities 0
      || ltb max_identity_capacity max_identities
    then none
    else if reserve && ltb extraction_limit 2
    then none
    else some (record {
      extraction_limit = extraction_limit;
      media_limit = media_limit;
      window = window;
      max_identities = max_identities;
      attempts = [];
      mcp_post_attempts =
          if reserve then some (record { regular = []; cancellations = [] }) else none;
    })

-- `_prune_attempts`: `attempts[0] <= now - window` is written without the subtraction.
unfoldable pub prune_attempts : ℕ → ℕ → List ℕ → List ℕ
prune_attempts window now [] = []
prune_attempts window now (t ∷ ts) =
    let rest = prune_attempts window now ts in if leb (t + window) now then rest else t ∷ ts

unfoldable pub prune_bucket : ℕ → ℕ → AttemptBucket → AttemptBucket
unfolding prune_attempts
prune_bucket window now b = record {
  extractions = prune_attempts window now b.extractions;
  medias = prune_attempts window now b.medias;
}

abbrev pub is_empty {ℓ} : {A : Type ℓ} → List A → Bool
is_empty [] = true
is_empty (x ∷ xs) = false

unfoldable pub purge_identities : ℕ → ℕ → Dict AttemptBucket → Dict AttemptBucket
unfolding prune_bucket
purge_identities window now [] = []
purge_identities window now ((ip, b) ∷ d) =
    let rest = purge_identities window now d in
    let b' = prune_bucket window now b in
    if is_empty b'.extractions && is_empty b'.medias then rest else (ip, b') ∷ rest

unfoldable pub purge_mcp : ℕ → ℕ → Option McpPostBucket → Option McpPostBucket
unfolding prune_attempts
purge_mcp window now none = none
purge_mcp window now (some b) = some (record {
  regular = prune_attempts window now b.regular;
  cancellations = prune_attempts window now b.cancellations;
})

-- `_purge_expired`
unfoldable pub purge_expired : ℕ → AttemptLimiter → AttemptLimiter
unfolding purge_identities purge_mcp
purge_expired now l = record l {
  attempts = purge_identities l.window now l.attempts;
  mcp_post_attempts = purge_mcp l.window now l.mcp_post_attempts;
}

-- `math.ceil` of a number of microseconds, in seconds
abbrev pub ceil_seconds : ℕ → ℕ
ceil_seconds t = (t + 999_999) / 1_000_000

-- `max(1, math.ceil(attempts[0] + window - now))`. An attempt that stands in a pruned deque is within
-- the window, so the subtraction does not truncate; a full deque is not empty, as limits are positive.
unfoldable pub retry_seconds : ℕ → ℕ → List ℕ → ℕ
retry_seconds window now [] = 1
retry_seconds window now (t ∷ ts) = max 1 (ceil_seconds (t + window - now))

abbrev pub rate_limited : String → ℕ → AppError
rate_limited message seconds = record (app_error local_rate_limited message) {
  retry_after = some seconds;
}

abbrev pub limit_of : AttemptKind → AttemptLimiter → ℕ
limit_of extraction l = l.extraction_limit
limit_of media l = l.media_limit

abbrev pub deque_of : AttemptKind → AttemptBucket → List ℕ
deque_of extraction b = b.extractions
deque_of media b = b.medias

abbrev pub with_deque : AttemptKind → AttemptBucket → List ℕ → AttemptBucket
with_deque extraction b ts = record b { extractions = ts }
with_deque media b ts = record b { medias = ts }

-- `popitem(last=False)`
abbrev pub pop_oldest {ℓ} : {A : Type ℓ} → List A → List A
pop_oldest [] = []
pop_oldest (x ∷ xs) = xs

-- The other identities, and the bucket of `ip`, which goes to the end of the order.
unfoldable pub claim : ℕ → String → Dict AttemptBucket → Dict AttemptBucket × AttemptBucket
claim max_identities ip d = elim (Dict.get ip d) [
  | none ↦ (
    if leb max_identities (length d) then pop_oldest d else d,
    record { extractions = []; medias = [] },
  )
  | some b ↦ (Dict.remove ip d, b)
]

-- Records an attempt in a pruned deque, or refuses it and leaves the deque as it is.
unfoldable pub record_attempt : String → ℕ → ℕ → ℕ → List ℕ → List ℕ × Result (Unit {0})
unfolding retry_seconds
record_attempt message limit window now ts =
    if leb limit (length ts)
    then (ts, err (rate_limited message (retry_seconds window now ts)))
    else (ts ++ now ∷ [], ok tt)

unfoldable pub acquire :
    AttemptKind → String → ℕ → AttemptLimiter → AttemptLimiter × Result (Unit {0})
unfolding purge_expired claim prune_attempts record_attempt
acquire kind ip now l =
    let l' = purge_expired now l in
    let (others, bucket) = claim l'.max_identities ip l'.attempts in
    let pruned = prune_attempts l.window now (deque_of kind bucket) in
    let (ts, result) =
      record_attempt "Too many requests were attempted recently." (limit_of kind l) l.window now
        pruned in
    (record l' { attempts = append ip (with_deque kind bucket ts) others }, result)

abbrev mcp_message : String
mcp_message = "Too many MCP requests were attempted recently."

-- A cancellation has one place of its own; other posts share the places that are left.
unfoldable pub post_attempt : Bool → ℕ → ℕ → ℕ → McpPostBucket → McpPostBucket × Result (Unit {0})
unfolding record_attempt
post_attempt true extraction_limit window now b =
    let (ts, result) = record_attempt mcp_message 1 window now b.cancellations in
    (record b { cancellations = ts }, result)
post_attempt false extraction_limit window now b =
    let (ts, result) = record_attempt mcp_message (extraction_limit - 1) window now b.regular in
    (record b { regular = ts }, result)

-- `none` is the RuntimeError of a limiter with no MCP accounting.
unfoldable pub acquire_mcp_post :
    Bool → ℕ → AttemptLimiter → Option (AttemptLimiter × Result (Unit {0}))
unfolding purge_expired post_attempt
acquire_mcp_post cancellation now l =
    let l' = purge_expired now l in
    elim l'.mcp_post_attempts [
      | none ↦ none
      | some b ↦
          let (b', result) = post_attempt cancellation l.extraction_limit l.window now b in
          some (record l' { mcp_post_attempts = some b' }, result)
    ]
