-- ===== src/Edid.antt =====
-- libhdmi/libsForhdmi/libedid/libedid.c: reading the EDID of a sink and answering what it supports.
pub mod Params
pub mod Sample
mod Tests
pub mod Tables
pub mod Checksum
pub mod State
pub mod Loaded
pub mod Blocks
pub mod Timings
pub mod Query
pub mod Color
pub mod Stereo
pub mod Audio
pub mod Api
pub mod Quiet
