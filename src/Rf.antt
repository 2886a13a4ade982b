-- ===== src/Rf.antt =====
-- The radio transport (src/tta_rf.c).
pub mod Radio
pub mod Packet
pub mod Transfer
pub mod Device
pub mod Control
