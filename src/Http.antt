-- ===== src/Http.antt =====
-- src/Http.cpp and src/HttpClient.cpp: the connection to the origin of a resource.
pub mod Parse
pub mod Client
pub mod Read
pub mod Fetch
pub mod Forward
pub mod Tls
pub mod Secure
pub mod HeaderEnd
pub mod Breaking
mod Tests
