-- ===== src/Render/ControlPlane.antt =====
-- The control plane: `validate_control_plane` and `resolve_control_plane` of
-- scripts/render-topology.py.
mod Defs
pub mod Peers
pub mod Progress
unfoldable pub use Defs.*
