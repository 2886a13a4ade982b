-- ===== src/Rs485.antt =====
-- The RS485 transport (src/tta_rs485.c), as it is built on POSIX.
pub mod Termios
pub mod Port
pub mod Packet
pub mod Device
pub mod Modes
pub mod Kernel
pub mod Win32
pub mod Session
pub mod Settings
