-- ===== src/Cache.antt =====
-- src/Cache.cpp: the files of the cache, and the chunks on their way to a file.
pub mod Files
pub mod Buffer
pub mod Writer
pub mod Tests
