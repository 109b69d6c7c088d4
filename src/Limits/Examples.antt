-- ===== src/Limits/Examples.antt =====
-- Tests of src/sns_media_list/api/limits.py, and its theorems at concrete inputs.
use sns_media_list.Prelude.{ℕ, ◌≡◌, refl, true, false, none, some, List, [], ◌∷◌, arith}
use sns_media_list.Dict
use sns_media_list.Errors.{Result, ok, err}
use sns_media_list.Text.{codes, strip, is_space, partition}
use sns_media_list.Limits.Attempts
use sns_media_list.Limits.Attempts.{
  AttemptLimiter, AttemptBucket, acquire, acquire_mcp_post, extraction, media, rate_limited,
  prune_attempts, retry_seconds,
}
use sns_media_list.Limits.Attempts.Invariant.{IsValid}
use sns_media_list.Limits.Attempts.Safety.{Call, attempt, mcp_post, run, run-init-IsValid}
use sns_media_list.Limits.Attempts.Decision.{acquire_decision, acquire_after_retry}
use sns_media_list.Limits.Attempts.Posts.{IsPost, acquire_mcp_post-IsPost}
use sns_media_list.Limits.Requests.{Lease, RequestLimiter, release_lease}
use sns_media_list.Limits.Requests
use sns_media_list.Limits.Requests.Ledger
use sns_media_list.Limits.Requests.Ledger.{Event, World, wants_extraction, wants_download, releases}
use sns_media_list.Limits.Requests.Holds.{IsSound}
use sns_media_list.Limits.Requests.Releases.{fresh, run-fresh-IsSound}
use sns_media_list.Limits.Requests.Admission.{
  acquire_download_decision, acquire_extraction_decision, release_lease_twice,
}
use sns_media_list.Limits.Identity.{IpLibrary, Origin, client_identity, client_identity-Origin}

abbrev empty_limiter : AttemptLimiter
empty_limiter = record {
  extraction_limit = 2;
  media_limit = 3;
  window = 5_000_000;
  max_identities = 4;
  attempts = [];
  mcp_post_attempts = some (record { regular = []; cancellations = [] });
}

accepted : Attempts.init 2 3 5_000_000 4 true ≡ some empty_limiter
unfolding Attempts.init
accepted = refl

abbrev calls : List (ℕ × Call)
calls = (5, attempt extraction "a") ∷ (6, attempt extraction "a") ∷ (7, mcp_post true) ∷ []

-- the state after those calls
abbrev used : AttemptLimiter
used = record empty_limiter {
  attempts = ("a", record { extractions = 5 ∷ 6 ∷ []; medias = [] }) ∷ [];
  mcp_post_attempts = some (record { regular = []; cancellations = 7 ∷ [] });
}

run-calls : run calls empty_limiter ≡ used
unfolding acquire acquire_mcp_post Dict.get Dict.remove
run-calls = refl

run-init-IsValid_example : IsValid 7 (run calls empty_limiter)
run-init-IsValid_example =
    run-init-IsValid 2 3 5_000_000 4 true empty_limiter calls accepted (omega arith)

used-IsValid : IsValid 7 used
used-IsValid = rw run-calls at run-init-IsValid_example

acquire_decision_example :
    (acquire extraction "a" 8 used).1
    ≡ err (rate_limited "Too many requests were attempted recently." 5)
unfolding Dict.get prune_attempts retry_seconds
acquire_decision_example = acquire_decision extraction "a" 7 8 used used-IsValid

acquire_after_retry_example :
    (acquire extraction "a" 5_000_008 (acquire extraction "a" 8 used).0).1 ≡ ok tt
acquire_after_retry_example =
    acquire_after_retry extraction "a" 7 8 5_000_008 5 used (omega arith) used-IsValid
      acquire_decision_example (omega arith)

acquire_mcp_post-IsPost_example :
    (l' : AttemptLimiter) × (r : Result (Unit {0})) × (acquire_mcp_post true 8 used ≡ some (l', r))
    × IsPost true 8 used (record { regular = []; cancellations = 7 ∷ [] }) l' r
acquire_mcp_post-IsPost_example =
    acquire_mcp_post-IsPost true 7 8 used (record { regular = []; cancellations = 7 ∷ [] })
      used-IsValid refl

abbrev events : List Event
events =
    wants_download "a"
    ∷ wants_extraction "a"
    ∷ wants_download "a"
    ∷ wants_download "b"
    ∷ releases 0
    ∷ releases 0
    ∷ []

run-fresh-IsSound_example :
    (let w = Ledger.run events (fresh 1 2 (some 1)) in IsSound w.limiter w.leases)
run-fresh-IsSound_example = run-fresh-IsSound 1 2 (some 1) events

abbrev busy : World
busy = Ledger.run events (fresh 1 2 (some 1))

acquire_download_decision_example :
    (Requests.acquire_download "b" busy.limiter).1
    ≡ err (Requests.too_many "Too many downloads are active.")
unfolding Ledger.run Requests.acquire_extraction Requests.acquire_download Requests.release_lease
    Requests.init Dict.get Dict.set Dict.remove
acquire_download_decision_example =
    acquire_download_decision "b" busy.limiter busy.leases run-fresh-IsSound_example

acquire_extraction_decision_example :
    (Requests.acquire_extraction "a" busy.limiter).1
    ≡ err (Requests.too_many "Too many extraction requests are active.")
unfolding Ledger.run Requests.acquire_extraction Requests.acquire_download Requests.release_lease
    Requests.init Dict.get Dict.set Dict.remove
acquire_extraction_decision_example =
    acquire_extraction_decision "a" busy.limiter busy.leases run-fresh-IsSound_example

abbrev one_lease : Lease
one_lease = record { kind = Requests.LeaseKind.download; client_ip = "b"; released = false }

release_lease_twice_example :
    release_lease (release_lease one_lease busy.limiter).1 busy.limiter
    ≡ (busy.limiter, (release_lease one_lease busy.limiter).1)
release_lease_twice_example = release_lease_twice one_lease busy.limiter busy.limiter

-- An `ipaddress` that knows the addresses of one character and one network, which holds them all.
abbrev toy_ip : IpLibrary
toy_ip = record {
  Address = ℕ;
  Network = ℕ;
  ip_address = λ s. elim s [ [] ↦ none | c ∷ rest ↦ elim rest [ [] ↦ some c | _ ↦ none ] ];
  ip_network = λ s. some 8;
  show = λ a. a ∷ [];
  prefixlen = λ n. n;
  belongs = λ a n. true;
}

client_identity-Origin_example :
    Origin toy_ip (codes "p") (some (codes " q ,r")) (codes "net" ∷ []) (codes "q")
unfolding client_identity strip partition is_space
client_identity-Origin_example =
    client_identity-Origin toy_ip (codes "p") (some (codes " q ,r")) (codes "net" ∷ [])
