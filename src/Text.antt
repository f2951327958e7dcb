-- ===== src/Text.antt =====
-- The functions of Go's `strings`, `strconv` and `fmt` that the program calls, on bytes.
-- Case and white space are those of ASCII.
mod Search
mod Split
pub mod Decimal
pub mod Scan
unfoldable pub use Search.*
unfoldable pub use Split.*
