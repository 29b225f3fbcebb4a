-- ===== src/Stream.antt =====
-- src/Stream.cpp: the resources that are being served, and the requests that wait for them.
pub mod Registry
pub mod Write
pub mod Notify
pub mod Join
pub mod Ring
pub mod Deliver
pub mod Overtaken
pub mod Loop
pub mod Each
pub mod Broadcast
pub mod Removal
pub mod Closing
pub mod Headers
pub mod Failing
pub mod Entering
pub mod Expiry
pub mod Tests
mod Scenarios
mod Examples
