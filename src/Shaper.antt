-- ===== src/Shaper.antt =====
-- server/traffic_shaper.py: the policies on the traffic of applications.
pub mod Registry
pub mod Defs
pub mod Records
pub mod Policies
pub mod Queries
pub mod Lifecycle
pub mod Enforcement
mod Tests
