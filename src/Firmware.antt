-- ===== src/Firmware.antt =====
-- The CircuitPython firmware, AdafruitCode/.
pub mod Signing
pub mod State
pub mod Store
pub mod Client
pub mod Control
