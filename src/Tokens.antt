-- ===== src/Tokens.antt =====
-- `TokenStore` of src/sns_media_list/security/tokens.py. Readings of the clock are arguments, and so is
-- the source of tokens, `secrets.token_urlsafe`: its results in the order of the calls.
pub mod Capacity
pub mod Issue
mod Examples
use sns_media_list.Prelude.{
  ℕ, suc, ◌+◌, String, Bool, true, false, ◌||◌, not, Option, none, some, List, [], ◌∷◌,
  if◌then◌else◌, length, ltb,
}
use sns_media_list.Dict
use sns_media_list.Dict.{Dict}
use sns_media_list.Errors.{
  app_error, capacity_exceeded, token_not_found, token_expired, Result, ok, err,
}
use sns_media_list.Models.{MediaTokenDraft, PrivateMediaRecord, TokenPurpose, preview, download}

pub record TokenStore : Type 0 where
  pub capacity : ℕ
  pub ttl : ℕ
  pub records : Dict PrivateMediaRecord

abbrev pub init : ℕ → ℕ → TokenStore
init capacity ttl = record { capacity = capacity; ttl = ttl; records = [] }

-- the entries whose deadline has not passed
unfoldable pub live_records : ℕ → Dict PrivateMediaRecord → Dict PrivateMediaRecord
live_records now [] = []
live_records now ((token, r) ∷ d) =
    let rest = live_records now d in if ltb r.expires_at now then rest else (token, r) ∷ rest

unfoldable pub purge_expired : ℕ → TokenStore → TokenStore
unfolding live_records
purge_expired now s = record s { records = live_records now s.records }

unfoldable pub record_of : String → ℕ → MediaTokenDraft → PrivateMediaRecord
record_of token expires_at draft = record {
  token = token;
  purpose = draft.purpose;
  source_url = draft.source_url;
  media_class = draft.media_class;
  filename = draft.filename;
  platform = draft.platform;
  expires_at = expires_at;
  request_headers = draft.request_headers;
  content_type = draft.content_type;
  preview_mode = draft.preview_mode;
}

-- the records of a batch, whose first token is the result of call number `i`
unfoldable pub issue : (ℕ → String) → ℕ → ℕ → List MediaTokenDraft → List PrivateMediaRecord
unfolding record_of
issue tokens i expires_at [] = []
issue tokens i expires_at (draft ∷ drafts) =
    record_of (tokens i) expires_at draft ∷ issue tokens (suc i) expires_at drafts

-- `self._records.update(…)`
unfoldable pub store_all :
    List PrivateMediaRecord → Dict PrivateMediaRecord → Dict PrivateMediaRecord
store_all [] d = d
store_all (r ∷ rs) d = store_all rs (Dict.set r.token r d)

-- `purged` and `now` are the readings of the clock by `purge_expired` and after it.
unfoldable pub reserve :
    (ℕ → String)
    → List MediaTokenDraft
    → ℕ
    → ℕ
    → TokenStore
    → TokenStore × Result (List PrivateMediaRecord)
unfolding purge_expired issue store_all
reserve tokens drafts purged now s =
    let s' = purge_expired purged s in
    if ltb s.capacity (length s'.records + length drafts)
    then (s', err (app_error capacity_exceeded "Temporary media capacity is full."))
    else let rs = issue tokens 0 (now + s.ttl) drafts in
      (record s' { records = store_all rs s'.records }, ok rs)

abbrev pub same_purpose : TokenPurpose → TokenPurpose → Bool
same_purpose preview preview = true
same_purpose download download = true
same_purpose _ _ = false

unfoldable pub get : String → TokenPurpose → ℕ → TokenStore → Result PrivateMediaRecord
get token purpose now s = elim (Dict.get token s.records) [
  | none ↦ err (app_error token_not_found "The media token is not available.")
  | some r ↦
      if not (same_purpose r.purpose purpose)
      then err (app_error token_not_found "The media token is not available.")
      else if ltb r.expires_at now
      then err (app_error token_expired "The media token has expired.")
      else ok r
]

unfoldable pub delete : String → TokenStore → TokenStore
delete token s = record s { records = Dict.remove token s.records }
