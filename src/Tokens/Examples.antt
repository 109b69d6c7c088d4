-- ===== src/Tokens/Examples.antt =====
-- Tests of src/sns_media_list/security/tokens.py, and its theorems at concrete inputs.
use sns_media_list.Prelude.{ℕ, zero, suc, String, ◌≡◌, refl, ◌↔◌, ◌≤◌, none, some, List, [], ◌∷◌}
use sns_media_list.Dict
use sns_media_list.Errors.{err, ok, app_error, capacity_exceeded, token_expired}
use sns_media_list.Text.{codes}
use sns_media_list.Models.{MediaTokenDraft, image, instagram, preview, download, proxy}
use sns_media_list.Tokens.{TokenStore, init, reserve, get, record_of}
use sns_media_list.Tokens.Capacity.{IsValid, reserves, deletes, purges, run, tokens_run-IsValid}
use sns_media_list.Tokens.Issue.{get_decision}

abbrev draft : MediaTokenDraft
draft = record {
  purpose = download;
  source_url = codes "https://cdn/1.jpg";
  media_class = image;
  filename = codes "1.jpg";
  platform = instagram;
  request_headers = [];
  content_type = none;
  preview_mode = proxy;
}

-- three tokens that differ, and then always the last
abbrev three_tokens : ℕ → String
three_tokens zero = "a"
three_tokens (suc zero) = "b"
three_tokens (suc (suc n)) = "c"

abbrev drafts : List MediaTokenDraft
drafts = draft ∷ record draft { purpose = preview } ∷ []

tokens_run-IsValid_example :
    IsValid (run (reserves three_tokens drafts 0 0 ∷ deletes "a" ∷ purges 700 ∷ []) (init 2 600))
tokens_run-IsValid_example =
    tokens_run-IsValid 2 600 (reserves three_tokens drafts 0 0 ∷ deletes "a" ∷ purges 700 ∷ [])

full_store :
    reserve three_tokens drafts 0 0 (init 1 600)
    ≡ (init 1 600, err (app_error capacity_exceeded "Temporary media capacity is full."))
unfolding reserve
full_store = refl

abbrev two_records : TokenStore
two_records = (reserve three_tokens drafts 0 0 (init 2 600)).0

expired :
    get "a" download 601 two_records ≡ err (app_error token_expired "The media token has expired.")
unfolding get reserve Dict.get Dict.set
expired = refl

get_decision_example : (get "a" download 600 two_records ≡ ok (record_of "a" 600 draft)) ↔ (
    (Dict.get "a" two_records.records ≡ some (record_of "a" 600 draft))
    × ((record_of "a" 600 draft).purpose ≡ download)
    × (600 ≤ (record_of "a" 600 draft).expires_at))
get_decision_example = get_decision "a" download 600 two_records (record_of "a" 600 draft)
