-- ===== src/Billing.antt =====
-- server/routers/billing.py: the plans and the subscriptions of the users.
pub mod Defs
pub mod Subscriptions
mod Tests
