-- ===== src/Firmware.antt =====
-- The device emulator: firmware/emulator/*.go.
pub mod Relay
pub mod Idempotency
mod Tests
pub mod Device
