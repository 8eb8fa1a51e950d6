-- ===== src/Backend/Auth.antt =====
-- backend/internal/auth: who a request comes from, and what that allows.
pub mod Accounts
pub mod Tokens
pub mod Claims
pub mod Otp
pub mod Refresh
pub mod Service
pub mod Stores
