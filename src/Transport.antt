-- ===== src/Transport.antt =====
-- The transports of pibot/transport: the buffer that frames are cut from.
pub mod FrameBuffer
pub mod Loopback
pub mod I2c
pub mod Responder
