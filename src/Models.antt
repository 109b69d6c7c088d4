-- ===== src/Models.antt =====
-- src/sns_media_list/models.py and the draft of src/sns_media_list/security/tokens.py.
use sns_media_list.Prelude.{ℕ, String, Option, List}
use sns_media_list.Text.{Text}

pub data Platform : Type 0 where
  instagram x : Platform

pub data MediaType : Type 0 where
  image video : MediaType

pub data TokenPurpose : Type 0 where
  preview download : TokenPurpose

pub data PreviewMode : Type 0 where
  proxy generated : PreviewMode

-- Names and values of request headers, in order.
abbrev pub Headers : Type 0
Headers = List (Text × Text)

pub record PrivateMediaRecord : Type 0 where
  pub token : String
  pub purpose : TokenPurpose
  pub source_url : Text
  pub media_class : MediaType
  pub filename : Text
  pub platform : Platform
  pub expires_at : ℕ
  pub request_headers : Headers
  pub content_type : Option Text
  pub preview_mode : PreviewMode

pub record MediaTokenDraft : Type 0 where
  pub purpose : TokenPurpose
  pub source_url : Text
  pub media_class : MediaType
  pub filename : Text
  pub platform : Platform
  pub request_headers : Headers
  pub content_type : Option Text
  pub preview_mode : PreviewMode
