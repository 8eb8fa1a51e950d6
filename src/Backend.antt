-- ===== src/Backend.antt =====
-- The server: backend/internal/*.
pub mod Httpx
pub mod Audit
pub mod Access
pub mod Redis
pub mod Devices
pub mod Qr
pub mod Database
pub mod Calls
pub mod Onboarding
pub mod Guests
pub mod Schedules
pub mod Auth
mod Tests
