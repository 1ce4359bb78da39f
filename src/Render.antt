-- ===== src/Render.antt =====
-- scripts/render-topology.py: the renderer of topologies.
pub mod Env
pub mod Unique
pub mod Dataplane
pub mod Hosts
pub mod Segments
pub mod ControlPlane
pub mod Checks
pub mod Faults
pub mod Tokens
pub mod Topology
pub mod Output
