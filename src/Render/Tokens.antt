-- ===== src/Render/Tokens.antt =====
-- References in a topology: `resolve_token` and `resolve_tokens` of scripts/render-topology.py.
mod Defs
pub mod Plain
unfoldable pub use Defs.*
