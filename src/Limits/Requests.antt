-- ===== src/Limits/Requests.antt =====
-- `RequestLimiter` and `Lease` of src/sns_media_list/api/limits.py. A lease's reference to its limiter
-- is the limiter that `release` takes and returns.
pub mod Ledger
pub mod Holds
pub mod Releases
pub mod Admission
use sns_media_list.Prelude.{
  ℕ, suc, ◌+◌, ◌-◌, String, Bool, true, false, ◌||◌, not, Option, none, some, List, [], ◌∷◌, ◌++◌,
  if◌then◌else◌, length, any, leb, ltb, str_eq,
}
use sns_media_list.Dict
use sns_media_list.Dict.{Dict}
use sns_media_list.Errors.{AppError, app_error, local_rate_limited, Result, ok, err}

pub data LeaseKind : Type 0 where
  extraction download : LeaseKind

pub record RequestLimiter : Type 0 where
  pub max_extractions : ℕ
  pub max_downloads : ℕ
  pub max_downloads_per_client : ℕ
  pub active_extractions : List String
  pub active_downloads : ℕ
  pub active_downloads_by_client : Dict ℕ

-- `RequestLimiter(…)`; a missing per-client maximum is that of the process.
unfoldable pub init : ℕ → ℕ → Option ℕ → RequestLimiter
init max_extractions max_downloads per_client = record {
  max_extractions = max_extractions;
  max_downloads = max_downloads;
  max_downloads_per_client = elim per_client [ none ↦ max_downloads | some n ↦ n ];
  active_extractions = [];
  active_downloads = 0;
  active_downloads_by_client = [];
}

pub record Lease : Type 0 where
  pub kind : LeaseKind
  pub client_ip : String
  pub released : Bool

-- `ip in s` and `s.discard(ip)`, for a set that is kept without repetitions
abbrev pub contains : String → List String → Bool
contains ip = any (λ j. str_eq j ip)

unfoldable pub discard : String → List String → List String
discard ip [] = []
discard ip (j ∷ l) = let rest = discard ip l in if str_eq j ip then rest else j ∷ rest

abbrev pub count_for : String → Dict ℕ → ℕ
count_for ip d = elim (Dict.get ip d) [ none ↦ 0 | some n ↦ n ]

abbrev pub too_many : String → AppError
too_many message = record (app_error local_rate_limited message) { retry_after = some 1 }

unfoldable pub acquire_extraction : String → RequestLimiter → RequestLimiter × Result Lease
acquire_extraction ip l =
    if contains ip l.active_extractions || leb l.max_extractions (length l.active_extractions)
    then (l, err (too_many "Too many extraction requests are active."))
    else (
      record l { active_extractions = ip ∷ l.active_extractions },
      ok (record { kind = extraction; client_ip = ip; released = false }),
    )

unfoldable pub acquire_download : String → RequestLimiter → RequestLimiter × Result Lease
acquire_download ip l =
    if leb l.max_downloads l.active_downloads
      || leb l.max_downloads_per_client (count_for ip l.active_downloads_by_client)
    then (l, err (too_many "Too many downloads are active."))
    else (
      record l {
        active_downloads = l.active_downloads + 1;
        active_downloads_by_client =
            Dict.set ip (count_for ip l.active_downloads_by_client + 1)
              l.active_downloads_by_client;
      },
      ok (record { kind = download; client_ip = ip; released = false }),
    )

-- `max(0, n - 1)` is the subtraction of ℕ, and a count of 0 less one is not positive either.
unfoldable pub release : LeaseKind → String → RequestLimiter → RequestLimiter
unfolding discard
release extraction ip l = record l { active_extractions = discard ip l.active_extractions }
release download ip l =
    let active_for_client = count_for ip l.active_downloads_by_client - 1 in
    record l {
      active_downloads = l.active_downloads - 1;
      active_downloads_by_client =
          if ltb 0 active_for_client
          then Dict.set ip active_for_client l.active_downloads_by_client
          else Dict.remove ip l.active_downloads_by_client;
    }

-- `Lease.release`, also what leaving the lease's async context does
unfoldable pub release_lease : Lease → RequestLimiter → RequestLimiter × Lease
unfolding release
release_lease lease l =
    if lease.released
    then (l, lease)
    else (release lease.kind lease.client_ip l, record lease { released = true })
