-- ===== src/Render/Checks.antt =====
-- Checks: the validators of each type, and `validate_checks` of scripts/render-topology.py.
mod Captures
mod Matrix
mod Types
pub mod Names
unfoldable pub use Captures.*
unfoldable pub use Matrix.*
unfoldable pub use Types.*
