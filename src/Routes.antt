-- ===== src/Routes.antt =====
-- src/sns_media_list/api/routes.py: the routes that stream a media.
pub mod Reasons
pub mod Cleanup
pub mod Download
mod Examples
