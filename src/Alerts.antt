-- ===== src/Alerts.antt =====
-- The alerts of server/alerts.py.
pub mod Defs
pub mod Suppression
mod Tests
