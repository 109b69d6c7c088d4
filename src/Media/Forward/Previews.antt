-- ===== src/Media/Forward/Previews.antt =====
-- src/sns_media_list/network/media_client.py: what `iter_validated_body` yields of a preview.
use sns_media_list.Errors.{Result-cases, ok}
use sns_media_list.Media.Body.{Ending, finished, raised, truncated, joined}
use sns_media_list.Media.Fetch.{MediaResponse}
use sns_media_list.Media.Forward.{
  validate_preview_signature, accepted_type, preview_chunks, iter_validated_body, content_type_of,
}
use sns_media_list.Models.{MediaType}
use sns_media_list.Prelude.{
  ◌≡◌, ◌<◌, refl, sym, ◌⊎◌, inl, inr, true, Option, List, [], ◌∷◌, ◌++◌, length, take, ltb, arith,
  Bool-cases, append_assoc, append_nil, take_all, take-append,
}
use sns_media_list.Text.{Text}

-- Nothing is yielded, or all of `whole` is, which opens with a valid signature.
abbrev pub IsChecked : Text → Text → List Text → Type 0
IsChecked content_type whole yielded =
    (yielded ≡ [])
    ⊎ ((validate_preview_signature content_type (take 512 whole) ≡ true) × (joined yielded ≡ whole))

preview_chunks-IsChecked :
    (content_type buffered : Text) (chunks : List Text) (ending : Ending)
    → length buffered < 512
    → IsChecked content_type
        (buffered ++ joined chunks)
        ((preview_chunks content_type buffered chunks ending).0)
unfolding preview_chunks
preview_chunks-IsChecked content_type buffered [] finished h =
    elim (Bool-cases (validate_preview_signature content_type buffered)) [
      | inl valid ↦
          rw (valid, preview_chunks, append_nil buffered)
            (inr (rw (take_all 512 buffered (omega arith)) valid, refl))
      | inr bad ↦ rw (bad, preview_chunks) (inl refl)
    ]
preview_chunks-IsChecked content_type buffered [] (raised e) h = inl refl
preview_chunks-IsChecked content_type buffered [] (truncated e) h = inl refl
preview_chunks-IsChecked content_type buffered (chunk ∷ chunks) ending h =
    elim (Bool-cases (ltb (length (buffered ++ chunk)) 512)) [
      | inl short ↦
          rw (short, preview_chunks, sym (append_assoc buffered chunk (joined chunks)))
            (preview_chunks-IsChecked content_type (buffered ++ chunk) chunks ending (ground arith))
      | inr long ↦
          elim (Bool-cases
            (validate_preview_signature content_type (take 512 (buffered ++ chunk)))) [
              | inr bad ↦ rw (long, bad, preview_chunks) (inl refl)
              | inl valid ↦
                  rw
                    (long, valid, preview_chunks, sym (append_assoc buffered chunk (joined chunks)))
                    (inr (
                      rw (take-append 512 (buffered ++ chunk) (joined chunks) (ground arith)) valid,
                      refl,
                    ))
            ]
    ]

accepted_type_same :
    (response : MediaResponse) (expected : Option MediaType) (content_type : Text)
    → accepted_type response true expected ≡ ok content_type
    → content_type_of response ≡ content_type
unfolding accepted_type
accepted_type_same response expected content_type e = ground arith

-- Of a preview nothing is yielded, or all of its body, after its first 512 bytes, or all where
-- there are fewer, were found to open with a signature of its content type.
pub iter_validated_body-IsChecked :
    (response : MediaResponse) (expected : Option MediaType) (chunks : List Text) (ending : Ending)
    → IsChecked
        (content_type_of response)
        (joined chunks)
        ((iter_validated_body response true expected (chunks, ending)).0)
unfolding iter_validated_body
iter_validated_body-IsChecked response expected chunks ending =
    elim (Result-cases (accepted_type response true expected)) [
      | inl (f, refused) ↦ rw (refused, iter_validated_body) (inl refl)
      | inr (content_type, accepted) ↦
          let checked = preview_chunks-IsChecked content_type [] chunks ending (omega arith) in
          rw
            (
              accepted,
              accepted_type_same response expected content_type accepted,
              iter_validated_body,
            )
            checked
    ]
