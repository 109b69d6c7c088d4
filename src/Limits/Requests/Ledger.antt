-- ===== src/Limits/Requests/Ledger.antt =====
-- The leases that a `RequestLimiter` (src/sns_media_list/api/limits.py) has issued, and what its callers
-- do: ask for a lease, or release one that they were given, perhaps again.
use sns_media_list.Prelude.{
  ℕ, zero, suc, ◌+◌, ◌≡◌, String, Bool, true, false, ◌&&◌, not, List, [], ◌∷◌, ◌++◌, if◌then◌else◌,
  arith, str_eq,
}
use sns_media_list.Errors.{Result, ok, err}
use sns_media_list.Limits.Requests.{
  LeaseKind, extraction, download, Lease, RequestLimiter, acquire_extraction, acquire_download,
  release_lease,
}

pub data Event : Type 0 where
  wants_extraction wants_download : String → Event
  releases : ℕ → Event

-- The limiter, and every lease that it has issued, the oldest first.
pub record World : Type 0 where
  pub limiter : RequestLimiter
  pub leases : List Lease

abbrev pub issued : List Lease → RequestLimiter × Result Lease → World
issued ls (l, ok lease) = record { limiter = l; leases = ls ++ lease ∷ [] }
issued ls (l, err e) = record { limiter = l; leases = ls }

-- The limiter and the leases after the lease at an index is released; there may be none there.
unfoldable pub release_at : ℕ → List Lease → RequestLimiter → RequestLimiter × List Lease
release_at i [] l = (l, [])
release_at zero (x ∷ ls) l = let (l', x') = release_lease x l in (l', x' ∷ ls)
release_at (suc i) (x ∷ ls) l = let (l', ls') = release_at i ls l in (l', x ∷ ls')

unfoldable pub step : Event → World → World
unfolding release_at
step (wants_extraction ip) w = issued w.leases (acquire_extraction ip w.limiter)
step (wants_download ip) w = issued w.leases (acquire_download ip w.limiter)
step (releases i) w =
    let (l, ls) = release_at i w.leases w.limiter in record { limiter = l; leases = ls }

unfoldable pub run : List Event → World → World
unfolding step
run [] w = w
run (e ∷ es) w = run es (step e w)

abbrev pub is_extraction : LeaseKind → Bool
is_extraction extraction = true
is_extraction download = false

abbrev pub is_download : LeaseKind → Bool
is_download extraction = false
is_download download = true

-- the leases that are not released and satisfy a test
abbrev pub held : (Lease → Bool) → List Lease → ℕ
held p [] = 0
held p (x ∷ ls) = (if not x.released && p x then 1 else 0) + held p ls

abbrev pub extractions : Lease → Bool
extractions x = is_extraction x.kind

abbrev pub extractions_of : String → Lease → Bool
extractions_of ip x = is_extraction x.kind && str_eq x.client_ip ip

abbrev pub downloads : Lease → Bool
downloads x = is_download x.kind

abbrev pub downloads_of : String → Lease → Bool
downloads_of ip x = is_download x.kind && str_eq x.client_ip ip

pub held-append :
    (p : Lease → Bool) (ls : List Lease) (x : Lease)
    → held p (ls ++ x ∷ []) ≡ held p ls + (if not x.released && p x then 1 else 0)
held-append p [] x = omega arith
held-append p (y ∷ ls) x = omega (arith, held-append p ls x)
