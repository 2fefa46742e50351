-- ===== src/Protocol.antt =====
-- The wire protocol between the host and the microcontroller (pibot/protocol/codec.py).
pub mod Crc
pub mod Sequence
pub mod Message
pub mod Ascii
pub mod Json
pub mod Codec
