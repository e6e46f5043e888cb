-- ===== src/State.antt =====
-- The routing rules and the telemetry buffers of server/state.py.
pub mod Queries
