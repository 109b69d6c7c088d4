-- ===== src/Routes/Cleanup.antt =====
-- src/sns_media_list/api/routes.py: the responses that `_stream_media` closes, and its lease.
use sns_media_list.Prelude.{
  ℕ, suc, Bool, true, Option, none, some, List, [], ◌∷◌, ◌++◌, any, ◌==◌, if◌then◌else◌,
}
use sns_media_list.Routes.Reasons.{DownloadError}

-- The ids of the responses, in the order in which they were opened, of those that were closed, in
-- the order of the calls of `close`, and how often the lease was released.
pub record Cleanup : Type 0 where
  pub open_responses : List ℕ
  pub closed_response_ids : List ℕ
  pub cleanup_errors : List DownloadError
  pub cleaned : Bool
  pub releases : ℕ

abbrev pub error_list : Option DownloadError → List DownloadError
error_list none = []
error_list (some e) = e ∷ []

abbrev pub first_error : List DownloadError → Option DownloadError
first_error [] = none
first_error (e ∷ _) = some e

abbrev pub is_member : ℕ → List ℕ → Bool
is_member id ids = any (λ i. i == id) ids

-- What closing a response raises, and releasing the lease.
module _ (close_error : ℕ → Option DownloadError) (release_error : Option DownloadError) where
  unfoldable pub close_response_once : ℕ → Cleanup → Cleanup
  close_response_once id s = if is_member id (s.closed_response_ids) then s else record s {
    closed_response_ids = s.closed_response_ids ++ (id ∷ []);
    cleanup_errors = s.cleanup_errors ++ error_list (close_error id);
  }

  unfoldable pub close_all : List ℕ → Cleanup → Cleanup
  unfolding close_response_once
  close_all [] s = s
  close_all (id ∷ ids) s = close_all ids (close_response_once id s)

  -- cleanup: what it raises, and the state after it
  unfoldable pub cleanup : Cleanup → Option DownloadError × Cleanup
  unfolding close_all
  cleanup s =
      if s.cleaned
      then (none, s)
      else let closed : Cleanup = close_all (s.open_responses) (record s { cleaned = true }) in
        let after : Cleanup = record closed {
          cleanup_errors = closed.cleanup_errors ++ error_list release_error;
          releases = suc (closed.releases);
        } in
        (first_error (after.cleanup_errors), after)

-- cleanup_failed_response, before there is a body: what closing raises is dropped
unfoldable pub cleanup_failed_response : Option ℕ → Cleanup → Cleanup
cleanup_failed_response response s = record s {
  closed_response_ids = s.closed_response_ids ++ elim response [ none ↦ [] | some id ↦ id ∷ [] ];
  releases = suc (s.releases);
}
