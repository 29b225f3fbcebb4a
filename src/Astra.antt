-- ===== src/Astra.antt =====
-- src/AstraHttpClient.cpp: the connection to an origin whose streams are lists of tracks. The tracks
-- are fetched one after the other, and the clients of the stream get them as one.
pub mod State
pub mod Play
pub mod Content
pub mod Read
pub mod Playing
pub mod Rejected
mod Tests
