-- ===== src/Limits/Attempts/Decision.antt =====
-- When `AttemptLimiter` (src/sns_media_list/api/limits.py) admits an attempt.
use sns_media_list.Prelude.{
  ℕ, ◌+◌, ◌*◌, ◌≤◌, ◌<◌, ◌≡◌, refl, sym, ap, ◌∙◌, String, Option, none, some, List, [], ◌∷◌, arith,
  if◌then◌else◌, length, ltb, inl, inr, Option-cases, eq_iff,
}
use sns_media_list.Dict
use sns_media_list.Dict.{Dict, append, Distinct, Every, Every-get, get-append_absent}
use sns_media_list.Errors.{ok, err}
use sns_media_list.Limits.Attempts.{
  AttemptKind, extraction, media, AttemptBucket, AttemptLimiter, prune_attempts, prune_bucket,
  purge_identities, purge_expired, claim, record_attempt, acquire, deque_of, with_deque, limit_of,
  retry_seconds, rate_limited,
}
use sns_media_list.Limits.Attempts.Windows.{
  recent, length-prune, prune_idem, Ordered, recent-after_retry, length-prune_le,
}
use sns_media_list.Limits.Attempts.Invariant.{IsBucket, IsValid, purge_none, purge_expired-IsValid}
use sns_media_list.Limits.Attempts.Safety.{claim-Claimed, acquire-IsValid, empty-IsBucket}

abbrev pub attempts_in : AttemptKind → Option AttemptBucket → List ℕ
attempts_in kind none = []
attempts_in kind (some b) = deque_of kind b

-- the attempts that the limiter has on record for a client
abbrev pub on_record : AttemptKind → String → AttemptLimiter → List ℕ
on_record kind ip l = attempts_in kind (Dict.get ip l.attempts)

abbrev attempts_message : String
attempts_message = "Too many requests were attempted recently."

purge-attempts_in :
    (kind : AttemptKind) (ip : String) (window now : ℕ) (d : Dict AttemptBucket)
    → Distinct d
    → attempts_in kind (Dict.get ip (purge_identities window now d))
      ≡ prune_attempts window now (attempts_in kind (Dict.get ip d))
unfolding purge_identities prune_bucket Dict.get
purge-attempts_in kind ip window now [] u = unfold prune_attempts in refl
purge-attempts_in extraction ip window now ((i, b) ∷ d) u = ground (
  arith,
  purge-attempts_in extraction ip window now d u.1,
  purge_none window now ip d,
  eq_iff i ip,
)
purge-attempts_in media ip window now ((i, b) ∷ d) u =
    ground
      (arith, purge-attempts_in media ip window now d u.1, purge_none window now ip d, eq_iff i ip)

claim-attempts_in :
    (kind : AttemptKind) (ip : String) (cap : ℕ) (d : Dict AttemptBucket)
    → deque_of kind (claim cap ip d).1 ≡ attempts_in kind (Dict.get ip d)
unfolding claim
claim-attempts_in extraction ip cap d = ground arith
claim-attempts_in media ip cap d = ground arith

-- what `acquire` prunes before it decides
acquire_pruned :
    (kind : AttemptKind) (ip : String) (now : ℕ) (l : AttemptLimiter)
    → Distinct l.attempts
    → prune_attempts l.window now
        (deque_of kind (claim l.max_identities ip (purge_identities l.window now l.attempts)).1)
      ≡ prune_attempts l.window now (on_record kind ip l)
acquire_pruned kind ip now l u =
    rw (claim-attempts_in, purge-attempts_in kind ip l.window now l.attempts u)
      (prune_idem l.window now (on_record kind ip l))

-- the result of `acquire`, from the attempts on record
acquire-result :
    (kind : AttemptKind) (ip : String) (now : ℕ) (l : AttemptLimiter)
    → Distinct l.attempts
    → (acquire kind ip now l).1
      ≡ (record_attempt attempts_message
          (limit_of kind l)
          l.window
          now
          (prune_attempts l.window now (on_record kind ip l))).1
unfolding acquire purge_expired
acquire-result kind ip now l u =
    ap (λ ts. (record_attempt attempts_message (limit_of kind l) l.window now ts).1)
      (acquire_pruned kind ip now l u)

on_record-Ordered :
    (kind : AttemptKind) (ip : String) (a : ℕ) (l : AttemptLimiter)
    → IsValid a l
    → Ordered 0 (on_record kind ip l)
on_record-Ordered kind ip a l v = elim (Option-cases (Dict.get ip l.attempts)) [
  | inl e ↦ rw e tt
  | inr (b, e) ↦ rw e (deque_ordered kind b (Every-get _ ip l.attempts b e v.buckets))
]
  where
    deque_ordered :
        (k : AttemptKind) (b : AttemptBucket)
        → IsBucket l.extraction_limit l.media_limit a b
        → Ordered 0 (deque_of k b)
    deque_ordered extraction b i = i.extractions.ordered
    deque_ordered media b i = i.medias.ordered

-- On a valid limiter an attempt is admitted exactly when the client's attempts of that kind less than
-- a window old are fewer than the limit; otherwise it is refused with the wait that is left.
pub acquire_decision :
    (kind : AttemptKind) (ip : String) (a now : ℕ) (l : AttemptLimiter)
    → IsValid a l
    → (acquire kind ip now l).1 ≡ (
        if ltb (recent l.window now (on_record kind ip l)) (limit_of kind l)
        then ok tt
        else err (
            rate_limited "Too many requests were attempted recently."
              (retry_seconds l.window now (prune_attempts l.window now (on_record kind ip l)))))
unfolding record_attempt
acquire_decision kind ip a now l v = rw (acquire-result kind ip now l v.distinct) (
    ground
      (arith, length-prune l.window now 0 (on_record kind ip l) (on_record-Ordered kind ip a l v)))

deque_of-with_deque :
    (kind : AttemptKind) (b : AttemptBucket) (ts : List ℕ)
    → deque_of kind (with_deque kind b ts) ≡ ts
deque_of-with_deque extraction b ts = refl
deque_of-with_deque media b ts = refl

-- the deque that `acquire` leaves
on_record-acquire :
    (kind : AttemptKind) (ip : String) (a now : ℕ) (l : AttemptLimiter)
    → a ≤ now
    → IsValid a l
    → on_record kind ip (acquire kind ip now l).0
      ≡ (record_attempt attempts_message
          (limit_of kind l)
          l.window
          now
          (prune_attempts l.window now (on_record kind ip l))).0
unfolding acquire purge_expired
on_record-acquire kind ip a now l h v =
    let w = purge_expired-IsValid a now l h v in
    let c =
      claim-Claimed (IsBucket l.extraction_limit l.media_limit now) l.max_identities ip
        (purge_identities l.window now l.attempts) v.capacity_positive w.distinct w.bounded
        w.buckets (empty-IsBucket _ _ now) in
    ap (attempts_in kind) (get-append_absent ip _ _ c.absent)
    ∙ deque_of-with_deque kind _ _
    ∙ ap (λ ts. (record_attempt attempts_message (limit_of kind l) l.window now ts).0)
        (acquire_pruned kind ip now l v.distinct)

record_attempt_refused :
    (message : String) (limit window now seconds : ℕ) (ts : List ℕ)
    → (record_attempt message limit window now ts).1 ≡ err (rate_limited message seconds)
    → (limit ≤ length ts)
      × ((record_attempt message limit window now ts).0 ≡ ts)
      × (retry_seconds window now ts ≡ seconds)
unfolding record_attempt
record_attempt_refused message limit window now seconds ts r = ground arith

bounded-on_record :
    (kind : AttemptKind) (ip : String) (a : ℕ) (l : AttemptLimiter)
    → IsValid a l
    → length (on_record kind ip l) ≤ limit_of kind l
bounded-on_record extraction ip a l v = elim (Option-cases (Dict.get ip l.attempts)) [
  | inl e ↦ rw e (omega arith)
  | inr (b, e) ↦ rw e ((Every-get _ ip l.attempts b e v.buckets).extractions.bounded)
]
bounded-on_record media ip a l v = elim (Option-cases (Dict.get ip l.attempts)) [
  | inl e ↦ rw e (omega arith)
  | inr (b, e) ↦ rw e ((Every-get _ ip l.attempts b e v.buckets).medias.bounded)
]

limit_of-positive :
    (kind : AttemptKind) (a : ℕ) (l : AttemptLimiter) → IsValid a l → 0 < limit_of kind l
limit_of-positive extraction a l v = v.extraction_positive
limit_of-positive media a l v = v.media_positive

limit_of-acquire :
    (kind : AttemptKind) (ip : String) (now : ℕ) (l : AttemptLimiter)
    → limit_of kind (acquire kind ip now l).0 ≡ limit_of kind l
unfolding acquire purge_expired
limit_of-acquire extraction ip now l = refl
limit_of-acquire media ip now l = refl

window-acquire :
    (kind : AttemptKind) (ip : String) (now : ℕ) (l : AttemptLimiter)
    → (acquire kind ip now l).0.window ≡ l.window
unfolding acquire purge_expired
window-acquire kind ip now l = refl

-- A client whose attempt is refused on a valid limiter with a `retry_after` of `seconds`, and that
-- makes no other attempt and is not forgotten, is admitted when it asks again that much later.
pub acquire_after_retry :
    (kind : AttemptKind) (ip : String) (a now later seconds : ℕ) (l : AttemptLimiter)
    → a ≤ now
    → IsValid a l
    → (acquire kind ip now l).1
      ≡ err (rate_limited "Too many requests were attempted recently." seconds)
    → now + seconds * 1_000_000 ≤ later
    → (acquire kind ip later (acquire kind ip now l).0).1 ≡ ok tt
acquire_after_retry kind ip a now later seconds l h v refused wait =
    let l' = (acquire kind ip now l).0 in
    let v' = acquire-IsValid kind ip a now l h v in
    let ts = prune_attempts l.window now (on_record kind ip l) in
    let (full, same, wait_time) =
      record_attempt_refused attempts_message (limit_of kind l) l.window now seconds ts
        (sym (acquire-result kind ip now l v.distinct) ∙ refused) in
    let kept : on_record kind ip l' ≡ ts = on_record-acquire kind ip a now l h v ∙ same in
    let positive = limit_of-positive kind a l v in
    let sooner = recent-after_retry l.window now later ts (omega arith) (rw wait_time wait) in
    rw (acquire_decision kind ip now later l' v', kept, limit_of-acquire, window-acquire)
      (ground (
        arith,
        sooner,
        length-prune_le l.window now (on_record kind ip l),
        bounded-on_record kind ip a l v,
      ))
