-- ===== src/Analysis.antt =====
-- scripts/analyze-artifacts-gemini.py: the artifacts of a run as one summary, and the report.
mod Entries
mod Redact
mod Junit
mod Topology
mod Inputs
mod Summary
mod Gemini
mod Report
pub mod KeyBlock
pub mod Reading
pub mod Failures
pub mod Verdict
pub mod Closing
pub mod Totals
pub mod JunitLine
pub mod Ending
pub mod Service
pub mod Keys
pub mod Matches
pub mod Pass
pub mod Secrets
unfoldable pub use Entries.*
unfoldable pub use Redact.*
unfoldable pub use Junit.*
unfoldable pub use Topology.*
unfoldable pub use Inputs.*
unfoldable pub use Summary.*
unfoldable pub use Gemini.*
unfoldable pub use Report.*
