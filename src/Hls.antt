-- ===== src/Hls.antt =====
-- src/HLSStream.cpp: the resources in playlist mode. A playlist is fetched again and again, its tracks are
-- kept for some time, and each client gets those that are next.
pub mod State
pub mod Store
pub mod Tracks
pub mod Header
pub mod Again
pub mod Files
pub mod Client
pub mod Channel
pub mod Proxy
pub mod Segment
pub mod Aligned
pub mod Preserve
pub mod Kept
pub mod Window
pub mod Extend
pub mod Shown
pub mod Notify
pub mod Dangling
mod Tests
