-- ===== src/Render/Segments.antt =====
-- Segments: `validate_segments` and `resolve_segments` of scripts/render-topology.py.
mod Limits
mod Validate
mod Resolve
pub mod Good
pub mod VtepHosts
pub mod Passed
pub mod Progress
pub mod WellFormed
pub mod Vnis
unfoldable pub use Limits.*
unfoldable pub use Validate.*
unfoldable pub use Resolve.*
