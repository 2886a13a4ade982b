-- ===== src/Cc1120.antt =====
-- The driver of the radio chip (src/cc1120.c).
pub mod Registers
pub mod Access
pub mod Setup
pub mod Calibration
pub mod Laws
