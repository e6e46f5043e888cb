-- ===== src/Ibn.antt =====
-- server/ibn_engine.py: intents, their compliance and their deployment.
pub mod Defs
pub mod Metrics
pub mod Compliance
pub mod Check
pub mod Yang
pub mod Shaping
pub mod Store
pub mod Later
pub mod Statuses
pub mod Deletion
pub mod Verdict
pub mod Recheck
pub mod Cooldown
pub mod Deploy
pub mod Deployment
mod Tests
