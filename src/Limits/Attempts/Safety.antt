-- ===== src/Limits/Attempts/Safety.antt =====
-- No history of calls takes the `AttemptLimiter` (src/sns_media_list/api/limits.py) past its bounds.
use sns_media_list.Prelude.{
  ℕ, ◌-◌, ◌≤◌, ◌<◌, ◌≡◌, String, Bool, true, false, Option, none, some, List, [], ◌∷◌, arith,
  if◌then◌else◌, length, leb, inl, inr, Bool-cases, Option-cases,
}
use sns_media_list.Dict
use sns_media_list.Dict.{
  Dict, append, Distinct, Every, Every-get, Every-remove, Every-append, Every-map, remove-Distinct,
  get-remove_self, append-Distinct, length-remove, length-remove_le, length-append_le,
}
use sns_media_list.Errors.{Result}
use sns_media_list.Limits.Attempts.{
  AttemptKind, extraction, media, AttemptBucket, McpPostBucket, AttemptLimiter, init,
  prune_attempts, purge_expired, claim, record_attempt, acquire, acquire_mcp_post, post_attempt,
  deque_of, with_deque, limit_of, pop_oldest,
}
use sns_media_list.Limits.Attempts.Windows.{Past-weaken}
use sns_media_list.Limits.Attempts.Invariant.{
  IsDeque, IsBucket, IsMcp, IsValid, prune-IsDeque, record_attempt-IsDeque, purge_expired-IsValid,
}

abbrev pub empty_bucket : AttemptBucket
empty_bucket = record { extractions = []; medias = [] }

pub record Claimed (P : AttemptBucket → Type 0) (cap : ℕ) (ip : String)
    (c : Dict AttemptBucket × AttemptBucket) : Type 0 where
  pub absent : Dict.get ip c.0 ≡ none
  pub distinct : Distinct c.0
  pub room : length c.0 < cap
  pub others : Every P c.0
  pub bucket : P c.1

module _ (P : AttemptBucket → Type 0) (cap : ℕ) (ip : String) where
  pop_oldest-Claimed :
      (d : Dict AttemptBucket)
      → Dict.get ip d ≡ none
      → 0 < cap
      → Distinct d
      → length d ≤ cap
      → Every P d
      → P empty_bucket
      → Claimed P cap ip (if leb cap (length d) then pop_oldest d else d, empty_bucket)
  unfolding Dict.get
  pop_oldest-Claimed [] e c u b q z = record {
    absent = ground arith;
    distinct = ground arith;
    room = ground arith;
    others = ground arith;
    bucket = z;
  }
  pop_oldest-Claimed ((i, x) ∷ d) e c u b q z = elim (Bool-cases (leb cap (length ((i, x) ∷ d)))) [
    | inl f ↦ rw f (record {
      absent = ground arith;
      distinct = u.1;
      room = ground arith;
      others = q.1;
      bucket = z;
    })
    | inr f ↦
        rw f (record { absent = e; distinct = u; room = ground arith; others = q; bucket = z })
  ]

  pub claim-Claimed :
      (d : Dict AttemptBucket)
      → 0 < cap
      → Distinct d
      → length d ≤ cap
      → Every P d
      → P empty_bucket
      → Claimed P cap ip (claim cap ip d)
  unfolding claim
  claim-Claimed d c u b q z = elim (Option-cases (Dict.get ip d)) [
    | inl e ↦ rw (e, claim) (pop_oldest-Claimed d e c u b q z)
    | inr (x, e) ↦
        rw (e, claim)
          (record {
            absent = get-remove_self ip d u;
            distinct = remove-Distinct ip d u;
            room = omega (arith, length-remove ip d x e);
            others = Every-remove P ip d q;
            bucket = Every-get P ip d x e q;
          })
  ]

abbrev next_deque : AttemptKind → ℕ → AttemptLimiter → AttemptBucket → List ℕ
next_deque kind now l b =
    (record_attempt "Too many requests were attempted recently." (limit_of kind l) l.window now
      (prune_attempts l.window now (deque_of kind b))).0

with_deque-IsBucket :
    (kind : AttemptKind) (now : ℕ) (l : AttemptLimiter) (b : AttemptBucket)
    → IsBucket l.extraction_limit l.media_limit now b
    → IsBucket l.extraction_limit l.media_limit now (with_deque kind b (next_deque kind now l b))
with_deque-IsBucket extraction now l b i = record {
  extractions =
      record_attempt-IsDeque _ l.extraction_limit l.window now _ (
        prune-IsDeque l.window l.extraction_limit now now b.extractions (omega arith)
          i.extractions);
  medias = i.medias;
}
with_deque-IsBucket media now l b i = record {
  extractions = i.extractions;
  medias =
      record_attempt-IsDeque _ l.media_limit l.window now _
        (prune-IsDeque l.window l.media_limit now now b.medias (omega arith) i.medias);
}

pub empty-IsBucket : (e m now : ℕ) → IsBucket e m now empty_bucket
empty-IsBucket e m now = record {
  extractions = record { ordered = tt; past = tt; bounded = omega arith };
  medias = record { ordered = tt; past = tt; bounded = omega arith };
}

pub acquire-IsValid :
    (kind : AttemptKind) (ip : String) (a now : ℕ) (l : AttemptLimiter)
    → a ≤ now
    → IsValid a l
    → IsValid now (acquire kind ip now l).0
unfolding acquire
acquire-IsValid kind ip a now l h v =
    let p = purge_expired now l in
    let w = purge_expired-IsValid a now l h v in
    let c =
      claim-Claimed (IsBucket l.extraction_limit l.media_limit now) l.max_identities ip p.attempts
        v.capacity_positive w.distinct w.bounded w.buckets (empty-IsBucket _ _ now) in
    record {
      extraction_positive = v.extraction_positive;
      media_positive = v.media_positive;
      capacity_positive = v.capacity_positive;
      distinct = append-Distinct ip _ _ c.absent c.distinct;
      bounded = length-append_le ip _ _ _ c.room;
      buckets = Every-append _ ip _ _ (with_deque-IsBucket kind now l _ c.bucket) c.others;
      mcp = w.mcp;
    }

post_attempt-IsMcp :
    (cancellation : Bool) (e window now : ℕ) (b : McpPostBucket)
    → IsMcp e now (some b)
    → IsMcp e now (some (post_attempt cancellation e window now b).0)
unfolding post_attempt
post_attempt-IsMcp true e window now b i =
    (i.0, i.1, record_attempt-IsDeque _ 1 window now b.cancellations i.2)
post_attempt-IsMcp false e window now b i =
    (i.0, record_attempt-IsDeque _ (e - 1) window now b.regular i.1, i.2)

acquire_mcp_post-IsValid :
    (cancellation : Bool) (a now : ℕ) (l l' : AttemptLimiter) (r : Result (Unit {0}))
    → a ≤ now
    → IsValid a l
    → acquire_mcp_post cancellation now l ≡ some (l', r)
    → IsValid now l'
unfolding acquire_mcp_post
acquire_mcp_post-IsValid cancellation a now l l' r h v e =
    let p = purge_expired now l in
    let w = purge_expired-IsValid a now l h v in
    elim (Option-cases p.mcp_post_attempts) [
      | inl f ↦ absurd (ground arith)
      | inr (b, f) ↦
          let b' = (post_attempt cancellation l.extraction_limit l.window now b).0 in
          let q : l' ≡ record p { mcp_post_attempts = some b' } = ground arith in
          rw q (record {
            extraction_positive = v.extraction_positive;
            media_positive = v.media_positive;
            capacity_positive = v.capacity_positive;
            distinct = w.distinct;
            bounded = w.bounded;
            buckets = w.buckets;
            mcp = post_attempt-IsMcp cancellation l.extraction_limit l.window now b (rw f at w.mcp);
          })
    ]

-- A call of the limiter, with the time at which it is made.
pub data Call : Type 0 where
  attempt : AttemptKind → String → Call
  mcp_post : Bool → Call

abbrev pub after_call : ℕ → Call → AttemptLimiter → AttemptLimiter
after_call now (attempt kind ip) l = (acquire kind ip now l).0
after_call now (mcp_post c) l = elim (acquire_mcp_post c now l) [ none ↦ l | some (l', _) ↦ l' ]

abbrev pub run : List (ℕ × Call) → AttemptLimiter → AttemptLimiter
run [] l = l
run ((now, c) ∷ cs) l = run cs (after_call now c l)

-- The clock is monotonic, and `a` was its first reading.
abbrev pub InOrder : ℕ → List (ℕ × Call) → Type 0
InOrder a [] = Unit {0}
InOrder a ((now, c) ∷ cs) = (a ≤ now) × InOrder now cs

abbrev pub last_time : ℕ → List (ℕ × Call) → ℕ
last_time a [] = a
last_time a ((now, c) ∷ cs) = last_time now cs

IsDeque-weaken :
    (limit a now : ℕ) (ts : List ℕ) → a ≤ now → IsDeque limit a ts → IsDeque limit now ts
IsDeque-weaken limit a now ts h d = record {
  ordered = d.ordered;
  past = Past-weaken a now ts h d.past;
  bounded = d.bounded;
}

IsMcp-weaken : (e a now : ℕ) (o : Option McpPostBucket) → a ≤ now → IsMcp e a o → IsMcp e now o
IsMcp-weaken e a now none h i = tt
IsMcp-weaken e a now (some b) h i = (
  i.0,
  IsDeque-weaken (e - 1) a now b.regular h i.1,
  IsDeque-weaken 1 a now b.cancellations h i.2,
)

weaken-IsValid : (a now : ℕ) (l : AttemptLimiter) → a ≤ now → IsValid a l → IsValid now l
weaken-IsValid a now l h v = record {
  extraction_positive = v.extraction_positive;
  media_positive = v.media_positive;
  capacity_positive = v.capacity_positive;
  distinct = v.distinct;
  bounded = v.bounded;
  buckets =
      Every-map _ _ l.attempts
        (λ b i. record {
          extractions = IsDeque-weaken l.extraction_limit a now b.extractions h i.extractions;
          medias = IsDeque-weaken l.media_limit a now b.medias h i.medias;
        })
        v.buckets;
  mcp = IsMcp-weaken l.extraction_limit a now l.mcp_post_attempts h v.mcp;
}

after_call-IsValid :
    (a now : ℕ) (c : Call) (l : AttemptLimiter)
    → a ≤ now
    → IsValid a l
    → IsValid now (after_call now c l)
after_call-IsValid a now (attempt kind ip) l h v = acquire-IsValid kind ip a now l h v
after_call-IsValid a now (mcp_post c) l h v = elim (Option-cases (acquire_mcp_post c now l)) [
  | inl e ↦ rw (e, after_call) (weaken-IsValid a now l h v)
  | inr ((l', r), e) ↦ rw (e, after_call) (acquire_mcp_post-IsValid c a now l l' r h v e)
]

run-IsValid :
    (a : ℕ) (cs : List (ℕ × Call)) (l : AttemptLimiter)
    → InOrder a cs
    → IsValid a l
    → IsValid (last_time a cs) (run cs l)
run-IsValid a [] l o v = v
run-IsValid a ((now, c) ∷ cs) l o v =
    run-IsValid now cs (after_call now c l) o.1 (after_call-IsValid a now c l o.0 v)

init-IsValid :
    (e m w i : ℕ) (reserve : Bool) (l : AttemptLimiter)
    → init e m w i reserve ≡ some l
    → IsValid 0 l
unfolding init
init-IsValid e m w i true l h = ground arith
init-IsValid e m w i false l h = ground arith

-- Whatever is asked of a limiter that the constructor accepts, at times that do not fall, its state
-- stays valid: at most `max_identities` distinct clients are kept, no client has more attempts of a
-- kind on record than the limit of that kind, the attempts are in order of time and none is in the
-- future, and of the MCP posts at most one is a cancellation and at most `extraction_limit - 1` are not.
pub run-init-IsValid :
    (e m w i : ℕ) (reserve : Bool) (l : AttemptLimiter) (cs : List (ℕ × Call))
    → init e m w i reserve ≡ some l
    → InOrder 0 cs
    → IsValid (last_time 0 cs) (run cs l)
run-init-IsValid e m w i reserve l cs h o = run-IsValid 0 cs l o (init-IsValid e m w i reserve l h)
