-- ===== src/Sessions.antt =====
-- server/session_manager.py: the sessions of each link, and their migration in a handoff.
mod Defs
pub mod Migration
pub mod Handoffs
pub mod Places
pub mod Refinement
mod Tests
unfoldable pub use Defs.*
