-- ===== src/Degrader.antt =====
-- Time-bounded degradation of single addresses, server/app_qos/selective_degrader.py.
pub mod Defs
pub mod Rules
pub mod Leftovers
pub mod Fates
pub mod Lifecycle
pub mod Bounds
mod Tests
pub mod Candidates
