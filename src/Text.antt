-- ===== src/Text.antt =====
-- What the scripts do to text: numbers in a base (`%02x`, `:06d`, `str`), `split`, the name
-- patterns, and `int` of a text. Characters are code points; classes of characters are ASCII.
mod Digits
mod Scan
mod Float
mod Slices
pub mod Spelling
unfoldable pub use Digits.*
unfoldable pub use Scan.*
unfoldable pub use Float.*
unfoldable pub use Slices.*
