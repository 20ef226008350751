-- ===== src/Encoder.antt =====
-- libcodec/video/v4l2/enc/ExynosVideoEncoder.c: the buffers of the encoder.
pub mod Buffers
pub mod Geometry
pub mod Params
pub mod Controls
pub mod Settings
pub mod Initialised
pub mod Setup
pub mod All
pub mod Free
mod Tests
