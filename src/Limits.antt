-- ===== src/Limits.antt =====
-- src/sns_media_list/api/limits.py: attempts in a rolling window, and concurrency limits.
pub mod Attempts
pub mod Requests
pub mod Identity
mod Examples
