-- ===== src/Sandbox.antt =====
-- server/sandbox.py: the digital-twin checks that stand before a change of the routing.
pub mod Topology
pub mod Search
pub mod Run
pub mod Verdict
mod Tests
