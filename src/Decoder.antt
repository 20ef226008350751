-- ===== src/Decoder.antt =====
-- libcodec/video/v4l2/dec/ExynosVideoDecoder.c: the buffers of the decoder.
pub mod Driver
pub mod Buffers
pub mod Wait
pub mod Settings
pub mod Geometry
pub mod Packing
pub mod Unpack
pub mod Setup
pub mod Arrays
pub mod Find
pub mod Pool
pub mod Held
pub mod Agree
mod Tests
