-- ===== src/ByteStream.antt =====
-- The macros of common/byte_stream.h: integers copied out of and into a stream of bytes, and bit
-- rotations.
mod Bits
pub mod Copy
pub mod Value
pub mod RoundTrip
pub mod Rotate
pub mod Turned
pub mod Rotations
