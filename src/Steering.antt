-- ===== src/Steering.antt =====
-- The sandbox pipeline of the steering requests, the first part of server/sandbox.py.
pub mod Topology
pub mod Pipeline
pub mod Verdict
pub mod History
mod Tests
