-- ===== src/Protocol/Ascii.antt =====
-- The ASCII framing of pibot/protocol/codec.py.
pub mod Encode
pub mod Decode
pub mod Tokens
pub mod RoundTrip
pub mod Corruption
pub mod Stop
pub mod Errors
