-- ===== src/Normalizer.antt =====
-- src/sns_media_list/extractor/normalizer.py: from extracted records to the media of a post.
pub mod Filenames
pub mod Variants
pub mod Extraction
mod Examples
