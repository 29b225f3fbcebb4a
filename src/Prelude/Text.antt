-- ===== src/Prelude/Text.antt =====
-- `std::string` as a list of bytes: the operations that the program calls.
mod Search
pub mod First
pub mod NoNul
pub mod Lines
unfoldable pub use Search.*
