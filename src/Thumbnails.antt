-- ===== src/Thumbnails.antt =====
-- src/sns_media_list/services/thumbnail_cache.py and thumbnail.py: generated previews.
pub mod Jpeg
pub mod Cache
pub mod Coordinator
mod Examples
