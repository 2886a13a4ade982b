-- ===== src/Core.antt =====
-- The protocol engine (src/tta.c): sending a packet, receiving one, and the calls of the API.
pub mod Confirm
pub mod Whole
pub mod Request
pub mod Reply
pub mod Engine
pub mod Sound
pub mod Owned
pub mod Keeps
pub mod Session
pub mod Recovery
pub mod Receive
pub mod Send
pub mod Stream
pub mod Api
