-- ===== src/Tests.antt =====
-- Concrete systems and devices, and the theorems at work on them.
mod Fixture
mod Kernel
mod Engine
mod Dialog
mod Exchange
mod Serial
mod Session
mod Program
mod Other
mod Line
mod Net
mod Windows
mod Winsock
mod Radio
mod Memory
