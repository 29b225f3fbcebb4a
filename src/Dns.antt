-- ===== src/Dns.antt =====
-- src/DnsSeeker.cpp: the resolver's packets, its cache of addresses and its list of queries.
pub mod State
pub mod Reader
pub mod Name
pub mod Entries
pub mod Queries
pub mod Right
pub mod Cached
pub mod Ask
pub mod Receive
pub mod Host
pub mod Fetch
pub mod Deliver
pub mod Answer
pub mod Reply
pub mod Received
pub mod Asking
pub mod Endless
pub mod Rounds
mod Tests
mod Examples
