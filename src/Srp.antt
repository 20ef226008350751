-- ===== src/Srp.antt =====
-- libcodec/audio/alp/dec/srp_api.c, the client of the audio decoder device.
pub mod Device
pub mod Api
pub mod Orderly
pub mod Calls
mod Tests
