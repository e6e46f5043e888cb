-- ===== src/Qos.antt =====
-- The priorities of applications, server/app_qos.
pub mod Tiers
pub mod Signatures
pub mod Predict
pub mod Ladder
pub mod Quality
pub mod Enforcer
pub mod Budget
pub mod Rules
pub mod Priorities
pub mod Separation
pub mod Commands
pub mod Users
pub mod Refinement
mod Tests
