-- ===== src/Limits/Requests/Admission.antt =====
-- When a `RequestLimiter` (src/sns_media_list/api/limits.py) issues a lease.
use sns_media_list.Prelude.{◌≡◌, String, false, ◌&&◌, List, if◌then◌else◌, arith, ltb}
use sns_media_list.Errors.{ok, err}
use sns_media_list.Limits.Requests.{
  download, extraction, Lease, RequestLimiter, acquire_download, acquire_extraction, release_lease,
  too_many,
}
use sns_media_list.Limits.Requests.Ledger.{
  held, downloads, downloads_of, extractions, extractions_of,
}
use sns_media_list.Limits.Requests.Holds.{IsSound, contains-times}

-- On a limiter whose counters are sound, a download lease is issued exactly when fewer downloads are
-- held than the process may have and fewer of this client's than a client may have.
pub acquire_download_decision :
    (ip : String) (l : RequestLimiter) (ls : List Lease)
    → IsSound l ls
    → (acquire_download ip l).1 ≡ (
        if ltb (held downloads ls) l.max_downloads
          && ltb (held (downloads_of ip) ls) l.max_downloads_per_client
        then ok (record { kind = download; client_ip = ip; released = false })
        else err (too_many "Too many downloads are active."))
unfolding acquire_download
acquire_download_decision ip l ls s = ground (arith, s.downloads_held, s.client_held ip)

-- On a limiter whose counters are sound, an extraction lease is issued exactly when the client holds
-- none and fewer are held than the process may have.
pub acquire_extraction_decision :
    (ip : String) (l : RequestLimiter) (ls : List Lease)
    → IsSound l ls
    → (acquire_extraction ip l).1 ≡ (
        if ltb (held (extractions_of ip) ls) 1 && ltb (held extractions ls) l.max_extractions
        then ok (record { kind = extraction; client_ip = ip; released = false })
        else err (too_many "Too many extraction requests are active."))
unfolding acquire_extraction
acquire_extraction_decision ip l ls s =
    ground (arith, s.extractions_held, s.extracting ip, contains-times ip l.active_extractions)

-- Releasing a lease a second time changes neither the limiter nor the lease, whatever the limiter's
-- state has become in between.
pub release_lease_twice :
    (x : Lease) (l later : RequestLimiter)
    → release_lease (release_lease x l).1 later ≡ (later, (release_lease x l).1)
unfolding release_lease
release_lease_twice x l later = ground arith
