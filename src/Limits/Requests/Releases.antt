-- ===== src/Limits/Requests/Releases.antt =====
-- Releasing leases of a `RequestLimiter` (src/sns_media_list/api/limits.py), and whole histories.
use sns_media_list.Prelude.{
  ℕ, zero, suc, ◌+◌, ◌≡◌, refl, String, Bool, Option, List, [], ◌∷◌, if◌then◌else◌, arith, str_eq,
  eq_iff, ◌⊎◌, inl, inr, Bool-cases, ltb, ◌-◌,
}
use sns_media_list.Dict
use sns_media_list.Dict.{Distinct, set-Distinct, remove-Distinct, Dict}
use sns_media_list.Limits.Requests.{
  LeaseKind, extraction, download, Lease, RequestLimiter, release_lease, release, count_for, init,
}
use sns_media_list.Limits.Requests.Ledger.{
  Event, wants_extraction, wants_download, releases, World, release_at, step, run, held,
  extractions, extractions_of, downloads, downloads_of,
}
use sns_media_list.Limits.Requests.Holds.{
  times-discard, length-discard, IsSound, count_for-set, count_for-remove,
  acquire_extraction-IsSound, acquire_download-IsSound,
}

-- One held lease was released: a count of held leases falls by one if it counted that lease.
record LetGo (ls : List Lease) (l : RequestLimiter) (r : RequestLimiter × List Lease) : Type 0 where
  lease : Lease
  limiter : r.0 ≡ release lease.kind lease.client_ip l
  counts : (p : Lease → Bool) → held p r.1 + (if p lease then 1 else 0) ≡ held p ls

-- A release does nothing, or lets one lease go.
release_at-cases :
    (i : ℕ) (ls : List Lease) (l : RequestLimiter)
    → (release_at i ls l ≡ (l, ls)) ⊎ LetGo ls l (release_at i ls l)
unfolding release_at release_lease
release_at-cases i [] l = inl refl
release_at-cases zero (x ∷ ls) l = elim (Bool-cases x.released) [
  | inl e ↦ inl (rw e refl)
  | inr e ↦ inr (record { lease = x; limiter = rw e refl; counts = λ p. ground arith })
]
release_at-cases (suc i) (x ∷ ls) l = elim (release_at-cases i ls l) [
  | inl e ↦ inl (rw e refl)
  | inr g ↦
      inr (record { lease = g.lease; limiter = g.limiter; counts = λ p. omega (arith, g.counts p) })
]

module _ (x : Lease) (l : RequestLimiter) (ls ls' : List Lease) (s : IsSound l ls)
    (counts : (p : Lease → Bool) → held p ls' + (if p x then 1 else 0) ≡ held p ls) where
  open l use {active_downloads_by_client as d}

  release_extraction-IsSound : x.kind ≡ extraction → IsSound (release extraction x.client_ip l) ls'
  unfolding release
  release_extraction-IsSound e = record {
    distinct = s.distinct;
    downloads_held = ground (arith, s.downloads_held, counts downloads);
    downloads_bounded = s.downloads_bounded;
    client_held = λ j. ground (arith, s.client_held j, counts (downloads_of j));
    client_bounded = s.client_bounded;
    extractions_held = ground (
      arith,
      s.extractions_held,
      counts extractions,
      counts (extractions_of x.client_ip),
      s.extracting x.client_ip,
      s.one_each x.client_ip,
      length-discard x.client_ip l.active_extractions,
      eq_iff x.client_ip x.client_ip,
    );
    extractions_bounded =
        omega (arith, s.extractions_bounded, length-discard x.client_ip l.active_extractions);
    extracting = λ j. ground (
      arith,
      s.extracting j,
      s.one_each j,
      counts (extractions_of j),
      times-discard x.client_ip j l.active_extractions,
    );
    one_each = λ j. ground (arith, s.one_each j, times-discard x.client_ip j l.active_extractions);
  }

  -- the entry of a client after one of its downloads is released
  count_for-release :
      (j : String)
      → count_for j (release download x.client_ip l).active_downloads_by_client
        ≡ (if str_eq x.client_ip j then count_for j d - 1 else count_for j d)
  unfolding release
  count_for-release j = ground (
    arith,
    count_for-set x.client_ip j (count_for x.client_ip d - 1) d,
    count_for-remove x.client_ip j d s.distinct,
    eq_iff x.client_ip j,
  )

  release-Distinct : Distinct (release download x.client_ip l).active_downloads_by_client
  unfolding release
  release-Distinct = elim (Bool-cases (ltb 0 (count_for x.client_ip d - 1))) [
    | inl e ↦ rw e (set-Distinct x.client_ip _ d s.distinct)
    | inr e ↦ rw e (remove-Distinct x.client_ip d s.distinct)
  ]

  release_download-IsSound : x.kind ≡ download → IsSound (release download x.client_ip l) ls'
  release_download-IsSound e = record {
    distinct = release-Distinct;
    downloads_held = unfold release in ground (arith, s.downloads_held, counts downloads);
    downloads_bounded = unfold release in omega (arith, s.downloads_bounded);
    client_held =
        λ j. rw (count_for-release j) (ground (arith, s.client_held j, counts (downloads_of j)));
    client_bounded =
        λ j. rw (count_for-release j) (unfold release in ground (arith, s.client_bounded j));
    extractions_held = unfold release in ground (arith, s.extractions_held, counts extractions);
    extractions_bounded = unfold release in s.extractions_bounded;
    extracting = λ j. unfold release in ground (arith, s.extracting j, counts (extractions_of j));
    one_each = unfold release in s.one_each;
  }

  release-IsSound : (k : LeaseKind) → x.kind ≡ k → IsSound (release k x.client_ip l) ls'
  release-IsSound extraction e = release_extraction-IsSound e
  release-IsSound download e = release_download-IsSound e

step-IsSound :
    (e : Event) (w : World)
    → IsSound w.limiter w.leases
    → IsSound (step e w).limiter (step e w).leases
unfolding step
step-IsSound (wants_extraction ip) w s = acquire_extraction-IsSound ip w.limiter w.leases s
step-IsSound (wants_download ip) w s = acquire_download-IsSound ip w.limiter w.leases s
step-IsSound (releases i) w s = elim (release_at-cases i w.leases w.limiter) [
  | inl e ↦ rw e s
  | inr g ↦ rw g.limiter (release-IsSound g.lease w.limiter w.leases _ s g.counts g.lease.kind refl)
]

run-IsSound :
    (es : List Event) (w : World)
    → IsSound w.limiter w.leases
    → IsSound (run es w).limiter (run es w).leases
unfolding run
run-IsSound [] w s = s
run-IsSound (e ∷ es) w s = run-IsSound es (step e w) (step-IsSound e w s)

abbrev pub fresh : ℕ → ℕ → Option ℕ → World
fresh max_extractions max_downloads per_client = record {
  limiter = init max_extractions max_downloads per_client;
  leases = [];
}

init-IsSound : (e d : ℕ) (c : Option ℕ) → IsSound (init e d c) []
unfolding init Dict.get
init-IsSound e d c = record {
  distinct = tt;
  downloads_held = refl;
  downloads_bounded = omega arith;
  client_held = λ ip. refl;
  client_bounded = λ ip. omega arith;
  extractions_held = refl;
  extractions_bounded = omega arith;
  extracting = λ ip. refl;
  one_each = λ ip. omega arith;
}

-- Whatever callers ask for and release, in any order and also twice, the counters of a limiter that
-- started empty are exactly the numbers of leases issued and not released, in all and for each client;
-- they stay within the limits, and no client has two extractions at a time.
pub run-fresh-IsSound :
    (max_extractions max_downloads : ℕ) (per_client : Option ℕ) (es : List Event)
    → (let w = run es (fresh max_extractions max_downloads per_client) in
        IsSound w.limiter w.leases)
run-fresh-IsSound e d c es = run-IsSound es (fresh e d c) (init-IsSound e d c)
