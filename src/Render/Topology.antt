-- ===== src/Render/Topology.antt =====
-- `render` of scripts/render-topology.py: the networks, the hosts and the whole document.
mod Build
mod Document
pub mod Macs
pub mod Steps
pub mod Overlays
pub mod VmIds
pub mod Bounds
unfoldable pub use Build.*
unfoldable pub use Document.*
