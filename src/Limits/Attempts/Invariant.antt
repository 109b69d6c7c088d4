-- ===== src/Limits/Attempts/Invariant.antt =====
-- Every call of `AttemptLimiter` (src/sns_media_list/api/limits.py) keeps its bounds.
use sns_media_list.Prelude.{
  ℕ, ◌-◌, ◌≤◌, ◌<◌, ◌≡◌, refl, String, Option, none, some, List, [], ◌∷◌, arith, length, leb,
  length-append, inl, inr, Bool-cases,
}
use sns_media_list.Dict
use sns_media_list.Dict.{
  Dict, append, Distinct, Every, Every-get, Every-remove, Every-append, remove-Distinct,
  get-remove_self, append-Distinct, length-remove, length-remove_le,
}
use sns_media_list.Limits.Attempts.{
  AttemptBucket, McpPostBucket, AttemptLimiter, prune_attempts, prune_bucket, purge_identities,
  purge_mcp, purge_expired, record_attempt,
}
use sns_media_list.Limits.Attempts.Windows.{
  Ordered, Past, Past-weaken, Ordered-append, Past-append, prune-Ordered, prune-Past,
  length-prune_le,
}

-- a deque in order of time, none of it in the future, within a limit
pub record IsDeque (limit now : ℕ) (ts : List ℕ) : Type 0 where
  pub ordered : Ordered 0 ts
  pub past : Past now ts
  pub bounded : length ts ≤ limit

pub record IsBucket (e m now : ℕ) (b : AttemptBucket) : Type 0 where
  pub extractions : IsDeque e now b.extractions
  pub medias : IsDeque m now b.medias

abbrev pub IsMcp : ℕ → ℕ → Option McpPostBucket → Type 0
IsMcp e now none = Unit {0}
IsMcp e now (some b) = (2 ≤ e) × IsDeque (e - 1) now b.regular × IsDeque 1 now b.cancellations

-- `now` is the last time at which the limiter was called
pub record IsValid (now : ℕ) (l : AttemptLimiter) : Type 0 where
  pub extraction_positive : 0 < l.extraction_limit
  pub media_positive : 0 < l.media_limit
  pub capacity_positive : 0 < l.max_identities
  pub distinct : Distinct l.attempts
  pub bounded : length l.attempts ≤ l.max_identities
  pub buckets : Every (IsBucket l.extraction_limit l.media_limit now) l.attempts
  pub mcp : IsMcp l.extraction_limit now l.mcp_post_attempts

pub prune-IsDeque :
    (window limit a now : ℕ) (ts : List ℕ)
    → a ≤ now
    → IsDeque limit a ts
    → IsDeque limit now (prune_attempts window now ts)
prune-IsDeque window limit a now ts h d = record {
  ordered = prune-Ordered window now 0 ts d.ordered;
  past = prune-Past window now now ts (Past-weaken a now ts h d.past);
  bounded = omega (arith, length-prune_le window now ts, d.bounded);
}

pub record_attempt-IsDeque :
    (message : String) (limit window now : ℕ) (ts : List ℕ)
    → IsDeque limit now ts
    → IsDeque limit now (record_attempt message limit window now ts).0
unfolding record_attempt
record_attempt-IsDeque message limit window now ts d = elim (Bool-cases (leb limit (length ts))) [
  | inl e ↦ rw e d
  | inr e ↦ rw e (record {
    ordered = Ordered-append 0 now ts (omega arith) d.ordered d.past;
    past = Past-append now ts d.past;
    bounded = ground (arith, length-append ts (now ∷ []));
  })
]

module _ (window e m a now : ℕ) (h : a ≤ now) where
  prune-IsBucket :
      (b : AttemptBucket) → IsBucket e m a b → IsBucket e m now (prune_bucket window now b)
  unfolding prune_bucket
  prune-IsBucket b i = record {
    extractions = prune-IsDeque window e a now b.extractions h i.extractions;
    medias = prune-IsDeque window m a now b.medias h i.medias;
  }

  purge-Every :
      (d : Dict AttemptBucket)
      → Every (IsBucket e m a) d
      → Every (IsBucket e m now) (purge_identities window now d)
  unfolding purge_identities
  purge-Every [] i = tt
  purge-Every ((ip, b) ∷ d) i = ground (arith, purge-Every d i.1, prune-IsBucket b i.0)

  purge-IsMcp : (o : Option McpPostBucket) → IsMcp e a o → IsMcp e now (purge_mcp window now o)
  unfolding purge_mcp
  purge-IsMcp none i = tt
  purge-IsMcp (some b) i = (
    i.0,
    prune-IsDeque window (e - 1) a now b.regular h i.1,
    prune-IsDeque window 1 a now b.cancellations h i.2,
  )

module _ (window now : ℕ) where
  pub purge_none :
      (ip : String) (d : Dict AttemptBucket)
      → Dict.get ip d ≡ none
      → Dict.get ip (purge_identities window now d) ≡ none
  unfolding purge_identities Dict.get
  purge_none ip [] e = refl
  purge_none ip ((i, b) ∷ d) e = ground (arith, purge_none ip d)

  pub purge-Distinct :
      (d : Dict AttemptBucket) → Distinct d → Distinct (purge_identities window now d)
  unfolding purge_identities
  purge-Distinct [] u = tt
  purge-Distinct ((i, b) ∷ d) u = ground (arith, purge-Distinct d u.1, purge_none i d u.0)

  pub length-purge_le : (d : Dict AttemptBucket) → length (purge_identities window now d) ≤ length d
  unfolding purge_identities
  length-purge_le [] = omega arith
  length-purge_le ((i, b) ∷ d) = ground (arith, length-purge_le d)

pub purge_expired-IsValid :
    (a now : ℕ) (l : AttemptLimiter) → a ≤ now → IsValid a l → IsValid now (purge_expired now l)
unfolding purge_expired
purge_expired-IsValid a now l h v = record {
  extraction_positive = v.extraction_positive;
  media_positive = v.media_positive;
  capacity_positive = v.capacity_positive;
  distinct = purge-Distinct l.window now l.attempts v.distinct;
  bounded = omega (arith, length-purge_le l.window now l.attempts, v.bounded);
  buckets = purge-Every l.window l.extraction_limit l.media_limit a now h l.attempts v.buckets;
  mcp = purge-IsMcp l.window l.extraction_limit l.media_limit a now h l.mcp_post_attempts v.mcp;
}
