-- ===== src/Extraction/Links.antt =====
-- src/sns_media_list/services/extraction_service.py: the links of an extraction and their tokens.
use sns_media_list.Errors.{ok, Result-cases}
use sns_media_list.Extraction.{
  Settings, local_preview_url, media_link, preview_mode_of, download_draft, preview_draft,
  drafts_of, media_item, Linked, linked, invalid_item, append_item, link_items,
}
use sns_media_list.Extraction.Response.{MediaItem, Validation, is_valid_item}
use sns_media_list.Media.Forward.{build_media_request_headers}
use sns_media_list.Models.{
  MediaTokenDraft, PrivateMediaRecord, preview, download, Headers, PreviewMode,
}
use sns_media_list.Normalizer.Extraction.{NormalizedMedia}
use sns_media_list.Prelude.{
  ℕ, suc, ◌≡◌, refl, sym, inl, inr, String, none, some, List, [], ◌∷◌, arith, subst, ◌∙◌,
  Option-cases, Bool-cases, all, if◌then◌else◌,
}
use sns_media_list.Tokens.{record_of, issue}

-- The record of an item's download, and the one of its preview.
pub record IsDownload (item : NormalizedMedia) (r : PrivateMediaRecord) (m : MediaItem)
    : Type 0 where
  pub link : m.download_url ≡ media_link (r.token) "download"
  pub purpose : r.purpose ≡ download
  pub source : r.source_url ≡ item.source_url
  pub media_class : r.media_class ≡ item.media_type

pub record IsPreview (item : NormalizedMedia) (r : PrivateMediaRecord) (m : MediaItem)
    : Type 0 where
  pub link : m.preview_url ≡ media_link (r.token) "preview"
  pub purpose : r.purpose ≡ preview
  pub filename : r.filename ≡ item.filename

-- Each item has a record for its download, and one for its preview or the local preview, in order,
-- and there are no other records.
pub data AreLinked : List NormalizedMedia → List PrivateMediaRecord → List MediaItem → Type 0 where
  nothing : AreLinked [] [] []
  without_preview :
      (item : NormalizedMedia) (items : List NormalizedMedia) (r : PrivateMediaRecord)
      (rs : List PrivateMediaRecord) (m : MediaItem) (media : List MediaItem)
      → IsDownload item r m
      → m.preview_url ≡ local_preview_url
      → AreLinked items rs media
      → AreLinked (item ∷ items) (r ∷ rs) (m ∷ media)
  with_preview :
      (item : NormalizedMedia) (items : List NormalizedMedia) (r p : PrivateMediaRecord)
      (rs : List PrivateMediaRecord) (m : MediaItem) (media : List MediaItem)
      → IsDownload item r m
      → IsPreview item p m
      → AreLinked items rs media
      → AreLinked (item ∷ items) (r ∷ p ∷ rs) (m ∷ media)

-- There are media with such links, which the loop ends with if all of them are valid.
pub record HasLinks (valid : Validation) (items : List NormalizedMedia)
    (rs : List PrivateMediaRecord) (ending : Linked) : Type 0 where
  pub media : List MediaItem
  pub is : ending ≡ (if all (is_valid_item valid) media then linked media else invalid_item)
  pub links : AreLinked items rs media

append_item-checked :
    (valid : Validation) (item : MediaItem) (media : List MediaItem)
    → append_item valid item
        (if all (is_valid_item valid) media then linked media else invalid_item)
      ≡ (if all (is_valid_item valid) (item ∷ media) then linked (item ∷ media) else invalid_item)
append_item-checked valid item media = elim (Bool-cases (all (is_valid_item valid) media)) [
  | inl good ↦ elim (Bool-cases (is_valid_item valid item)) [
    | inl fine ↦ rw (good, fine) refl
    | inr bad ↦ rw bad refl
  ]
  | inr wrong ↦ elim (Bool-cases (is_valid_item valid item)) [
    | inl fine ↦ rw (wrong, fine) refl
    | inr bad ↦ rw bad refl
  ]
]

link_without_preview :
    (valid : Validation) (settings : Settings) (item : NormalizedMedia)
    (items : List NormalizedMedia) (r : PrivateMediaRecord) (rs : List PrivateMediaRecord)
    → preview_mode_of settings item ≡ none
    → link_items valid settings (item ∷ items) (r ∷ rs)
      ≡ append_item valid
          (media_item item local_preview_url (r.token))
          (link_items valid settings items rs)
unfolding link_items
link_without_preview valid settings item items r [] h = rw (h, link_items) refl
link_without_preview valid settings item items r (p ∷ rs) h = rw (h, link_items) refl

link_with_preview :
    (valid : Validation) (settings : Settings) (item : NormalizedMedia)
    (items : List NormalizedMedia) (r p : PrivateMediaRecord) (rs : List PrivateMediaRecord)
    (mode : PreviewMode)
    → preview_mode_of settings item ≡ some mode
    → link_items valid settings (item ∷ items) (r ∷ p ∷ rs)
      ≡ append_item valid
          (media_item item (media_link (p.token) "preview") (r.token))
          (link_items valid settings items rs)
unfolding link_items
link_with_preview valid settings item items r p rs mode h = rw (h, link_items) refl

module _ (settings : Settings) (item : NormalizedMedia) (items : List NormalizedMedia)
    (headers : Headers) (more : List MediaTokenDraft) where
  drafts_without_preview :
      build_media_request_headers (item.platform) ≡ ok headers
      → drafts_of settings items ≡ ok more
      → preview_mode_of settings item ≡ none
      → drafts_of settings (item ∷ items) ≡ ok (download_draft headers item ∷ more)
  unfolding drafts_of
  drafts_without_preview b r h = rw (b, r, h, drafts_of) refl

  drafts_with_preview :
      (mode : PreviewMode)
      → build_media_request_headers (item.platform) ≡ ok headers
      → drafts_of settings items ≡ ok more
      → preview_mode_of settings item ≡ some mode
      → drafts_of settings (item ∷ items)
        ≡ ok (download_draft headers item ∷ preview_draft headers item mode ∷ more)
  unfolding drafts_of
  drafts_with_preview mode b r h = rw (b, r, h, drafts_of) refl

ok_injective : (ds es : List MediaTokenDraft) → ok ds ≡ ok es → ds ≡ es
ok_injective ds es e = ground (arith, e)

module _ (valid : Validation) (settings : Settings) (tokens : ℕ → String) (expires_at : ℕ) where
  pub links_of :
      (items : List NormalizedMedia) (i : ℕ) (drafts : List MediaTokenDraft)
      → drafts_of settings items ≡ ok drafts
      → HasLinks valid items
          (issue tokens i expires_at drafts)
          (link_items valid settings items (issue tokens i expires_at drafts))
  unfolding drafts_of link_items issue record_of
  links_of [] i [] e = record { media = []; is = refl; links = nothing }
  links_of [] i (d ∷ drafts) e = absurd (ground arith)
  links_of (item ∷ items) i drafts e =
      elim (Result-cases (build_media_request_headers (item.platform))) [
        | inl (f, fails) ↦ absurd (ground (arith, e, fails))
        | inr (headers, built) ↦ elim (Result-cases (drafts_of settings items)) [
          | inl (f, fails) ↦ absurd (ground (arith, e, built, fails))
          | inr (more, rest) ↦ elim (Option-cases (preview_mode_of settings item)) [
            | inl unseen ↦
                let ih = links_of items (suc i) more rest in
                let d = download_draft headers item in
                let r = record_of (tokens i) expires_at d in
                let is : drafts ≡ d ∷ more = ok_injective _ _ (
                  sym e
                  ∙ drafts_without_preview settings item items headers more built rest unseen) in
                subst
                  (λ (ds : List MediaTokenDraft).
                    HasLinks valid (item ∷ items) (issue tokens i expires_at ds)
                      (link_items valid settings (item ∷ items) (issue tokens i expires_at ds)))
                  (sym is)
                  (record {
                    media = media_item item local_preview_url (tokens i) ∷ ih.media;
                    is =
                        link_without_preview valid settings item items r
                          (issue tokens (suc i) expires_at more) unseen
                        ∙ rw (ih.is) (
                            append_item-checked valid (media_item item local_preview_url (tokens i))
                              (ih.media));
                    links =
                        without_preview item items r _ _ _
                          (record {
                            link = refl;
                            purpose = refl;
                            source = refl;
                            media_class = refl;
                          })
                          refl (ih.links);
                  })
            | inr (mode, seen) ↦
                let ih = links_of items (suc (suc i)) more rest in
                let d = download_draft headers item in
                let v = preview_draft headers item mode in
                let r = record_of (tokens i) expires_at d in
                let p = record_of (tokens (suc i)) expires_at v in
                let is : drafts ≡ d ∷ v ∷ more = ok_injective _ _ (
                  sym e
                  ∙ drafts_with_preview settings item items headers more mode built rest seen) in
                subst
                  (λ (ds : List MediaTokenDraft).
                    HasLinks valid (item ∷ items) (issue tokens i expires_at ds)
                      (link_items valid settings (item ∷ items) (issue tokens i expires_at ds)))
                  (sym is)
                  (record {
                    media =
                        media_item item (media_link (tokens (suc i)) "preview") (tokens i)
                        ∷ ih.media;
                    is =
                        link_with_preview valid settings item items r p
                          (issue tokens (suc (suc i)) expires_at more) mode seen
                        ∙ rw (ih.is) (
                            append_item-checked valid
                              (media_item item (media_link (tokens (suc i)) "preview") (tokens i))
                              (ih.media));
                    links =
                        with_preview item items r p _ _ _
                          (record {
                            link = refl;
                            purpose = refl;
                            source = refl;
                            media_class = refl;
                          })
                          (record { link = refl; purpose = refl; filename = refl }) (ih.links);
                  })
          ]
        ]
      ]
