-- ===== src/Value.antt =====
-- The values that YAML and JSON documents load as, and the Python operations on them: truth,
-- `==`, `str`, `int`, `.get`, iteration and hashing. The keys of mappings are texts.
-- A float is `m / 10 ^ k`.
mod Defs
mod Print
mod Access
mod Json
pub mod FieldLaws
unfoldable pub use Defs.*
unfoldable pub use Print.*
unfoldable pub use Access.*
unfoldable pub use Json.*
