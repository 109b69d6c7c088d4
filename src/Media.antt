-- ===== src/Media.antt =====
-- src/sns_media_list/network/media_client.py: the client that fetches media from the platforms'
-- delivery hosts.
pub mod Headers
pub mod Stream
pub mod Body
pub mod Policy
pub mod Fetch
mod Examples
pub mod Resume
pub mod Forward
pub mod Chunks
