-- ===== src/Limits/Requests/Holds.antt =====
-- The counters of `RequestLimiter` (src/sns_media_list/api/limits.py) agree with the leases that are held.
use sns_media_list.Prelude.{
  ℕ, ◌+◌, ◌≤◌, ◌≡◌, refl, String, false, ◌||◌, List, [], ◌∷◌, if◌then◌else◌, arith, str_eq, eq_iff,
  length, inl, inr, Bool-cases, leb, ltb,
}
use sns_media_list.Dict
use sns_media_list.Dict.{
  Distinct, get-set, get-remove_ne, get-remove_self, set-Distinct, remove-Distinct, Dict,
}
use sns_media_list.Limits.Requests.{
  extraction, download, Lease, RequestLimiter, acquire_extraction, acquire_download, discard,
  contains, count_for,
}
use sns_media_list.Limits.Requests.Ledger.{
  issued, held, extractions, extractions_of, downloads, downloads_of, held-append,
}

-- how often a client stands in the set of extracting clients
abbrev pub times : String → List String → ℕ
times ip [] = 0
times ip (j ∷ l) = (if str_eq j ip then 1 else 0) + times ip l

times-contains : (ip : String) (l : List String) → contains ip l ≡ false → times ip l ≡ 0
times-contains ip [] h = refl
times-contains ip (j ∷ l) h = ground (arith, times-contains ip l)

pub contains-times : (ip : String) (l : List String) → contains ip l ≡ ltb 0 (times ip l)
contains-times ip [] = refl
contains-times ip (j ∷ l) = ground (arith, contains-times ip l)

pub times-discard :
    (ip j : String) (l : List String)
    → times j (discard ip l) ≡ (if str_eq ip j then 0 else times j l)
unfolding discard
times-discard ip j [] = ground arith
times-discard ip j (i ∷ l) =
    ground (arith, times-discard ip j l, eq_iff i ip, eq_iff i j, eq_iff ip j)

pub length-discard : (ip : String) (l : List String) → length (discard ip l) + times ip l ≡ length l
unfolding discard
length-discard ip [] = refl
length-discard ip (j ∷ l) = ground (arith, length-discard ip l)

-- The limiter's counters are the numbers of leases held, and keep within the limits.
pub record IsSound (l : RequestLimiter) (ls : List Lease) : Type 0 where
  pub distinct : Distinct l.active_downloads_by_client
  pub downloads_held : l.active_downloads ≡ held downloads ls
  pub downloads_bounded : l.active_downloads ≤ l.max_downloads
  pub client_held :
      (ip : String) → count_for ip l.active_downloads_by_client ≡ held (downloads_of ip) ls
  pub client_bounded :
      (ip : String) → count_for ip l.active_downloads_by_client ≤ l.max_downloads_per_client
  pub extractions_held : length l.active_extractions ≡ held extractions ls
  pub extractions_bounded : length l.active_extractions ≤ l.max_extractions
  pub extracting : (ip : String) → times ip l.active_extractions ≡ held (extractions_of ip) ls
  pub one_each : (ip : String) → times ip l.active_extractions ≤ 1

pub count_for-set :
    (ip j : String) (n : ℕ) (d : Dict ℕ)
    → count_for j (Dict.set ip n d) ≡ (if str_eq ip j then n else count_for j d)
count_for-set ip j n d = ground (arith, get-set ip j n d)

pub count_for-remove :
    (ip j : String) (d : Dict ℕ)
    → Distinct d
    → count_for j (Dict.remove ip d) ≡ (if str_eq ip j then 0 else count_for j d)
count_for-remove ip j d u =
    ground (arith, get-remove_self ip d u, get-remove_ne ip j d, eq_iff ip j)

pub acquire_extraction-IsSound :
    (ip : String) (l : RequestLimiter) (ls : List Lease)
    → IsSound l ls
    → (let w = issued ls (acquire_extraction ip l) in IsSound w.limiter w.leases)
unfolding acquire_extraction
acquire_extraction-IsSound ip l ls s =
    elim (Bool-cases
      (contains ip l.active_extractions || leb l.max_extractions (length l.active_extractions))) [
        | inl e ↦ rw e s
        | inr e ↦
            let x : Lease = record { kind = extraction; client_ip = ip; released = false } in
            rw e (record {
              distinct = s.distinct;
              downloads_held = omega (arith, s.downloads_held, held-append downloads ls x);
              downloads_bounded = s.downloads_bounded;
              client_held = λ j. omega (arith, s.client_held j, held-append (downloads_of j) ls x);
              client_bounded = s.client_bounded;
              extractions_held = omega (arith, s.extractions_held, held-append extractions ls x);
              extractions_bounded = ground arith;
              extracting = λ j. ground (arith, s.extracting j, held-append (extractions_of j) ls x);
              one_each = λ j.
                  ground (arith, s.one_each j, eq_iff ip j, times-contains ip l.active_extractions);
            })
      ]

pub acquire_download-IsSound :
    (ip : String) (l : RequestLimiter) (ls : List Lease)
    → IsSound l ls
    → (let w = issued ls (acquire_download ip l) in IsSound w.limiter w.leases)
unfolding acquire_download
acquire_download-IsSound ip l ls s =
    elim (Bool-cases (
      leb l.max_downloads l.active_downloads
      || leb l.max_downloads_per_client (count_for ip l.active_downloads_by_client))) [
        | inl e ↦ rw e s
        | inr e ↦
            let x : Lease = record { kind = download; client_ip = ip; released = false } in
            let d = l.active_downloads_by_client in
            rw e (record {
              distinct = set-Distinct ip _ d s.distinct;
              downloads_held = omega (arith, s.downloads_held, held-append downloads ls x);
              downloads_bounded = ground arith;
              client_held = λ j.
                  rw (count_for-set ip j (count_for ip d + 1) d) (
                    ground
                      (arith, s.client_held j, eq_iff ip j, held-append (downloads_of j) ls x));
              client_bounded = λ j.
                  rw (count_for-set ip j (count_for ip d + 1) d)
                    (ground (arith, s.client_bounded j, eq_iff ip j));
              extractions_held = omega (arith, s.extractions_held, held-append extractions ls x);
              extractions_bounded = s.extractions_bounded;
              extracting = λ j. omega (arith, s.extracting j, held-append (extractions_of j) ls x);
              one_each = s.one_each;
            })
      ]
