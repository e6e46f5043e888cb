-- ===== src/Sdn.antt =====
-- server/sdn_adapter.py: flow rules on the OpenDaylight and ONOS controllers.
mod Defs
pub mod Rollback
mod Tests
unfoldable pub use Defs.*
