-- ===== src/Routing.antt =====
-- server/routing.py: the handoff of the traffic of one link to another.
mod Defs
pub mod Flows
pub mod Handoff
mod Tests
unfoldable pub use Defs.*
