-- ===== src/Render/Output.antt =====
-- What the commands of scripts/render-topology.py write.
mod Defs
mod Shape
mod Inventory
mod Stored
mod StoredHosts
mod Commands
pub mod Addresses
pub mod Agreement
pub mod Groups
unfoldable pub use Defs.*
unfoldable pub use Shape.*
unfoldable pub use Inventory.*
unfoldable pub use Stored.*
unfoldable pub use Commands.*
