-- ===== src/Tokens/Issue.antt =====
-- A reservation of `TokenStore` (src/sns_media_list/security/tokens.py) issues all its tokens or none.
use sns_media_list.Prelude.{
  ℕ, ◌+◌, ◌≤◌, ◌<◌, ◌≡◌, refl, String, true, none, some, List, [], ◌∷◌, length, arith, inl, inr,
  ◌↔◌, get_elem?, Option-cases, ◌∙◌, ap,
}
use sns_media_list.Dict
use sns_media_list.Dict.{Dict, Distinct}
use sns_media_list.Errors.{ok, err, app_error, capacity_exceeded}
use sns_media_list.Models.{MediaTokenDraft, PrivateMediaRecord, TokenPurpose, preview, download}
use sns_media_list.Tokens.{
  TokenStore, live_records, purge_expired, record_of, reserve, get, same_purpose,
}

-- Each token of a batch is none of those that are stored or come before it in the batch.
abbrev pub AreNew : List PrivateMediaRecord → Dict PrivateMediaRecord → Type 0
AreNew [] d = Unit {0}
AreNew (r ∷ rs) d = (Dict.get r.token d ≡ none) × AreNew rs (Dict.set r.token r d)

-- A store after a reservation that succeeded: each draft has a record under a token of its own, and what
-- was live stays.
pub record IsReserved (tokens : ℕ → String) (drafts : List MediaTokenDraft) (purged now : ℕ)
    (s s' : TokenStore) (rs : List PrivateMediaRecord) : Type 0 where
  pub issued :
      (i : ℕ) (draft : MediaTokenDraft)
      → get_elem? drafts i ≡ some draft
      → Dict.get (tokens i) s'.records ≡ some (record_of (tokens i) (now + s.ttl) draft)
  pub kept :
      (j : String) (x : PrivateMediaRecord)
      → Dict.get j (live_records purged s.records) ≡ some x
      → Dict.get j s'.records ≡ some x

-- Where the live records and the drafts are more than the capacity, nothing is stored.
reserve_refused :
    (tokens : ℕ → String) (drafts : List MediaTokenDraft) (purged now : ℕ) (s : TokenStore)
    → s.capacity < length (live_records purged s.records) + length drafts
    → reserve tokens drafts purged now s ≡ (
      purge_expired purged s,
      err (app_error capacity_exceeded "Temporary media capacity is full."),
    )
unfolding reserve
reserve_refused tokens drafts purged now s h = ground arith

same_purpose_iff : (a b : TokenPurpose) → (same_purpose a b ≡ true) ↔ (a ≡ b)
same_purpose_iff preview preview = (λ h. refl, λ h. refl)
same_purpose_iff download download = (λ h. refl, λ h. refl)
same_purpose_iff preview download = (λ h. cc, λ h. cc)
same_purpose_iff download preview = (λ h. cc, λ h. cc)

get-ok :
    (token : String) (purpose : TokenPurpose) (now : ℕ) (s : TokenStore) (r : PrivateMediaRecord)
    → get token purpose now s ≡ ok r
    → (Dict.get token s.records ≡ some r) × (r.purpose ≡ purpose) × (now ≤ r.expires_at)
unfolding get
get-ok token purpose now s r h = elim (Option-cases (Dict.get token s.records)) [
  | inl e ↦ absurd (ground arith)
  | inr (x, e) ↦
      let q : x ≡ r = ground arith in
      (
        e ∙ ap some q,
        rw (← q) (ground (arith, same_purpose_iff x.purpose purpose)),
        rw (← q) (ground arith),
      )
]

-- A token is good for its own purpose alone, and up to its deadline, the deadline included.
pub get_decision :
    (token : String) (purpose : TokenPurpose) (now : ℕ) (s : TokenStore) (r : PrivateMediaRecord)
    → (get token purpose now s ≡ ok r)
      ↔ ((Dict.get token s.records ≡ some r) × (r.purpose ≡ purpose) × (now ≤ r.expires_at))
unfolding get
get_decision token purpose now s r = (
  get-ok token purpose now s r,
  λ h. rw (h.0, get) (ground (arith, h.1, h.2, same_purpose_iff r.purpose purpose)),
)
