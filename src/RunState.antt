-- ===== src/RunState.antt =====
-- scripts/run-state.py: the state file of a run, and the commands that change it.
mod Shape
mod Resources
mod Commands
pub mod Dispatch
pub mod Nested
pub mod Guard
pub mod Frame
pub mod History
pub mod Carry
pub mod Rendered
pub mod Ledger
unfoldable pub use Shape.*
unfoldable pub use Resources.*
unfoldable pub use Commands.*
