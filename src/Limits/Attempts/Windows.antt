-- ===== src/Limits/Attempts/Windows.antt =====
-- Pruning a deque of attempt times leaves exactly the attempts within the window
-- (src/sns_media_list/api/limits.py).
use sns_media_list.Prelude.{
  ℕ, suc, ◌+◌, ◌*◌, ◌≤◌, ◌<◌, ◌≡◌, refl, List, [], ◌∷◌, ◌++◌, arith, if◌then◌else◌, length, ltb,
}
use sns_media_list.Limits.Attempts.{prune_attempts, retry_seconds}

-- does not fall, from `lo` on
abbrev pub Ordered : ℕ → List ℕ → Type 0
Ordered lo [] = Unit {0}
Ordered lo (t ∷ ts) = (lo ≤ t) × Ordered t ts

-- holds no time after `now`
abbrev pub Past : ℕ → List ℕ → Type 0
Past now [] = Unit {0}
Past now (t ∷ ts) = (t ≤ now) × Past now ts

-- the number of attempts less than a window old
abbrev pub recent : ℕ → ℕ → List ℕ → ℕ
recent window now [] = 0
recent window now (t ∷ ts) =
    let rest = recent window now ts in if ltb now (t + window) then suc rest else rest

pub Ordered-weaken : (a b : ℕ) (ts : List ℕ) → a ≤ b → Ordered b ts → Ordered a ts
Ordered-weaken a b [] h o = tt
Ordered-weaken a b (t ∷ ts) h o = (omega arith, o.1)

pub Past-weaken : (a b : ℕ) (ts : List ℕ) → a ≤ b → Past a ts → Past b ts
Past-weaken a b [] h o = tt
Past-weaken a b (t ∷ ts) h o = (omega arith, Past-weaken a b ts h o.1)

pub Ordered-append :
    (lo now : ℕ) (ts : List ℕ)
    → lo ≤ now
    → Ordered lo ts
    → Past now ts
    → Ordered lo (ts ++ now ∷ [])
Ordered-append lo now [] h o p = (h, tt)
Ordered-append lo now (t ∷ ts) h o p = (o.0, Ordered-append t now ts p.0 o.1 p.1)

pub Past-append : (now : ℕ) (ts : List ℕ) → Past now ts → Past now (ts ++ now ∷ [])
Past-append now [] p = (omega arith, tt)
Past-append now (t ∷ ts) p = (p.0, Past-append now ts p.1)

module _ (window now : ℕ) where
  pub prune-Ordered :
      (lo : ℕ) (ts : List ℕ) → Ordered lo ts → Ordered lo (prune_attempts window now ts)
  unfolding prune_attempts
  prune-Ordered lo [] o = tt
  prune-Ordered lo (t ∷ ts) o = ground (arith, prune-Ordered lo ts (Ordered-weaken lo t ts o.0 o.1))

  pub prune-Past : (b : ℕ) (ts : List ℕ) → Past b ts → Past b (prune_attempts window now ts)
  unfolding prune_attempts
  prune-Past b [] p = tt
  prune-Past b (t ∷ ts) p = ground (arith, prune-Past b ts p.1)

  pub length-prune_le : (ts : List ℕ) → length (prune_attempts window now ts) ≤ length ts
  unfolding prune_attempts
  length-prune_le [] = omega arith
  length-prune_le (t ∷ ts) = ground (arith, length-prune_le ts)

  pub prune_idem :
      (ts : List ℕ)
      → prune_attempts window now (prune_attempts window now ts) ≡ prune_attempts window now ts
  unfolding prune_attempts
  prune_idem [] = refl
  prune_idem (t ∷ ts) = ground (arith, prune_idem ts)

  all_recent :
      (t : ℕ) (ts : List ℕ) → now < t + window → Ordered t ts → recent window now ts ≡ length ts
  all_recent t [] h o = refl
  all_recent t (s ∷ ts) h o = ground (arith, all_recent s ts)

  -- In a deque in order of time, what pruning keeps is what is recent.
  pub length-prune :
      (lo : ℕ) (ts : List ℕ)
      → Ordered lo ts
      → length (prune_attempts window now ts) ≡ recent window now ts
  unfolding prune_attempts
  length-prune lo [] o = refl
  length-prune lo (t ∷ ts) o = ground (arith, all_recent t ts, length-prune t ts o.1)

-- Time only makes attempts older.
pub recent_mono : (window a b : ℕ) (ts : List ℕ) → a ≤ b → recent window b ts ≤ recent window a ts
recent_mono window a b [] h = omega arith
recent_mono window a b (t ∷ ts) h = ground (arith, recent_mono window a b ts h)

pub recent-le-length : (window now : ℕ) (ts : List ℕ) → recent window now ts ≤ length ts
recent-le-length window now [] = omega arith
recent-le-length window now (t ∷ ts) = ground (arith, recent-le-length window now ts)

-- When the wait that is announced is over, the oldest attempt has left the window.
pub recent-after_retry :
    (window now later : ℕ) (ts : List ℕ)
    → 0 < length ts
    → now + retry_seconds window now ts * 1_000_000 ≤ later
    → recent window later ts < length ts
unfolding retry_seconds
recent-after_retry window now later [] p h = absurd (omega arith)
recent-after_retry window now later (t ∷ ts) p h = ground (arith, recent-le-length window later ts)
