-- ===== src/Python/Number.antt =====
-- `str(n)` of a natural number, and `int(text)`, over code points below 256 (what a header of an
-- HTTP request can hold).
mod Digits
mod Parse
pub mod Laws
unfoldable pub use Digits.*
unfoldable pub use Parse.*
