-- ===== src/Tcp.antt =====
-- The TCP transport (src/tta_tcp.c), as it is built on Linux.
pub mod Socket
pub mod Packet
pub mod Device
pub mod Server
pub mod Win32
pub mod Session
