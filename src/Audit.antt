-- ===== src/Audit.antt =====
-- server/audit.py: the tamper-evident audit log.
mod Defs
pub mod Chain
pub mod Verify
pub mod Tamper
pub mod Paging
mod Tests
unfoldable pub use Defs.*
