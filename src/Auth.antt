-- ===== src/Auth.antt =====
-- server/auth.py and server/rbac.py: users, login with lockout, registration, tokens, permissions.
mod Defs
pub mod Store
pub mod Lockout
pub mod Invariant
pub mod Register
pub mod Tokens
pub mod Rbac
mod Tests
unfoldable pub use Defs.*
